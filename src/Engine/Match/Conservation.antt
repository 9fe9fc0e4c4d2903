-- ===== src/Engine/Match/Conservation.antt =====
-- What matching keeps: quantities move from the far side and the taker into trades, one to one.
use elsa_fyp.Prelude.{ℕ, ◌+◌, ◌≡◌, List, ◌++◌, arith, sum_by-append}
use elsa_fyp.Engine.Order.{Order, Trade}
use elsa_fyp.Engine.Book.{SideContainer}
use elsa_fyp.Engine.Match.{Taker}
use elsa_fyp.Engine.Match.Spec.{
  Fills, used_up, satisfied, whole, part, Sweeps, emptied, stopped, through, within, volume, depth,
  traded,
}

traded-append : (xs ys : List Trade) → traded (xs ++ ys) ≡ traded xs + traded ys
traded-append xs ys = sum_by-append (λ x. x.quantity) xs ys

pub Fills-volume :
    {t : Taker} {os os' : List Order} {r r' : ℕ} {xs : List Trade}
    → Fills t os r os' r' xs
    → (volume os ≡ volume os' + traded xs) × (traded xs + r' ≡ r)
Fills-volume used_up = omega arith
Fills-volume (satisfied z) = omega arith
Fills-volume (whole some_left le tr fl) = omega (arith, Fills-volume fl, tr.quantity_eq)
Fills-volume (part {o = o} some_left lt tr filled z) = ground (arith, tr.quantity_eq)

pub Sweeps-depth :
    {t : Taker} {ls ls' : SideContainer} {r r' : ℕ} {xs : List Trade}
    → Sweeps t ls r ls' r' xs
    → (depth ls ≡ depth ls' + traded xs) × (traded xs + r' ≡ r)
Sweeps-depth emptied = omega arith
Sweeps-depth (stopped h) = omega arith
Sweeps-depth (through {xs = xs} {ys = ys} some_left admits fl sw) =
    omega (arith, Fills-volume fl, Sweeps-depth sw, traded-append xs ys)
Sweeps-depth (within some_left admits fl) = omega (arith, Fills-volume fl)
