-- ===== src/Engine/Invariant/Far.antt =====
-- A sweep keeps the far side in shape.
use elsa_fyp.Prelude.{ℕ, ◌≡◌, ◌⊎◌, inl, inr, true, List, [], ◌∷◌, arith, All}
use elsa_fyp.Core.Orders.{Side}
use elsa_fyp.Engine.Order.{Order, Trade}
use elsa_fyp.Engine.Book.{SideContainer, better}
use elsa_fyp.Engine.Match.{Taker, stops}
use elsa_fyp.Engine.Match.Spec.{
  Fills, used_up, satisfied, whole, part, Sweeps, emptied, stopped, through, within,
}
use elsa_fyp.Engine.Invariant.{Behind, Ordered, RestsAt, IsLevel, IsSide, IsNonempty}

Fills-RestsAt :
    {t : Taker} {os os' : List Order} {r r' : ℕ} {xs : List Trade} (s : Side) (p : ℕ)
    → Fills t os r os' r' xs
    → All (RestsAt s p) os
    → All (RestsAt s p) os'
Fills-RestsAt s p used_up h = h
Fills-RestsAt s p (satisfied z) h = h
Fills-RestsAt s p (whole some_left le tr fl) h = Fills-RestsAt s p fl h.1
Fills-RestsAt s p (part some_left lt tr filled z) h = (ground arith, h.1)

Sweeps-levels :
    {t : Taker} {ls ls' : SideContainer} {r r' : ℕ} {xs : List Trade} (s : Side)
    → Sweeps t ls r ls' r' xs
    → All (IsLevel s) ls
    → All (IsLevel s) ls'
Sweeps-levels s emptied h = h
Sweeps-levels s (stopped z) h = h
Sweeps-levels s (through some_left admits fl sw) h = Sweeps-levels s sw h.1
Sweeps-levels s (within {p = p} some_left admits fl) h =
    (record { nonempty = tt; price = h.0.price; orders = Fills-RestsAt s p fl h.0.orders }, h.1)

pub Behind-trans :
    (s : Side) (p q : ℕ) (ls : SideContainer) → better s p q ≡ true → Behind s q ls → Behind s p ls
Behind-trans s p q [] h k = tt
Behind-trans Side.bid p q ((m, os) ∷ ls) h k = ground arith
Behind-trans Side.ask p q ((m, os) ∷ ls) h k = ground arith

pub Sweeps-Behind :
    {t : Taker} {ls ls' : SideContainer} {r r' : ℕ} {xs : List Trade} (s : Side) (p : ℕ)
    → Sweeps t ls r ls' r' xs
    → Ordered s ls
    → Behind s p ls
    → Behind s p ls'
Sweeps-Behind s p emptied o h = h
Sweeps-Behind s p (stopped z) o h = h
Sweeps-Behind s p (through {p = q} {ls = ls} some_left admits fl sw) o h =
    Sweeps-Behind s p sw o.1 (Behind-trans s p q ls h o.0)
Sweeps-Behind s p (within some_left admits fl) o h = h

Sweeps-Ordered :
    {t : Taker} {ls ls' : SideContainer} {r r' : ℕ} {xs : List Trade} (s : Side)
    → Sweeps t ls r ls' r' xs
    → Ordered s ls
    → Ordered s ls'
Sweeps-Ordered s emptied o = o
Sweeps-Ordered s (stopped z) o = o
Sweeps-Ordered s (through some_left admits fl sw) o = Sweeps-Ordered s sw o.1
Sweeps-Ordered s (within some_left admits fl) o = o

pub Sweeps-IsSide :
    {t : Taker} {ls ls' : SideContainer} {r r' : ℕ} {xs : List Trade} (s : Side)
    → Sweeps t ls r ls' r' xs
    → IsSide s ls
    → IsSide s ls'
Sweeps-IsSide s sw h = record {
  ordered = Sweeps-Ordered s sw h.ordered;
  levels = Sweeps-levels s sw h.levels;
}

-- The best level after a sweep, if there is one, is one that the taker's price does not admit, or
-- nothing of the taker is left.
abbrev pub Blocked : Taker → SideContainer → Type 0
Blocked t [] = Unit {0}
Blocked t ((p, os) ∷ ls) = stops t p ≡ true

pub Fills-ends :
    {t : Taker} {os os' : List Order} {r r' : ℕ} {xs : List Trade}
    → Fills t os r os' r' xs
    → IsNonempty os'
    → r' ≡ 0
Fills-ends used_up h = absurd h
Fills-ends (satisfied z) h = z
Fills-ends (whole some_left le tr fl) h = Fills-ends fl h
Fills-ends (part some_left lt tr filled z) h = z

pub Sweeps-ends :
    {t : Taker} {ls ls' : SideContainer} {r r' : ℕ} {xs : List Trade}
    → Sweeps t ls r ls' r' xs
    → (r' ≡ 0) ⊎ Blocked t ls'
Sweeps-ends emptied = inr tt
Sweeps-ends (stopped h) = h
Sweeps-ends (through some_left admits fl sw) = Sweeps-ends sw
Sweeps-ends (within some_left admits fl) = inl (Fills-ends fl tt)
