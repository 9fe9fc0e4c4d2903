-- ===== src/Engine/Match/Priority.antt =====
-- At which prices a taker trades.
use elsa_fyp.Prelude.{
  ℕ, ◌≡◌, true, false, List, [], ◌∷◌, ◌++◌, String, ℤ, pos, ◌≤ℤ◌, arith, All, All-append, ok,
}
use elsa_fyp.Core.Orders.{Side, opposite}
use elsa_fyp.Engine.Order.{Order, Trade, Stamp}
use elsa_fyp.Engine.Book.{SideContainer, LimitOrderBook, better}
use elsa_fyp.Engine.Match.{Taker, stops, add_order}
use elsa_fyp.Engine.Match.Spec.{
  Fills, used_up, satisfied, whole, part, Sweeps, emptied, stopped, through, within,
}
use elsa_fyp.Engine.Match.Adds.{add_order-Adds}
use elsa_fyp.Engine.Invariant.Near.{far-IsSide}
use elsa_fyp.Engine.Invariant.{Behind, Ordered, RestsAt, IsLevel, IsValid}

-- `x` is at the price `p`.
abbrev pub At : ℕ → Trade → Type 0
At p x = x.price ≡ p

pub Fills-At :
    {t : Taker} {os os' : List Order} {r r' : ℕ} {xs : List Trade} (s : Side) (p : ℕ)
    → Fills t os r os' r' xs
    → All (RestsAt s p) os
    → All (At p) xs
Fills-At s p used_up h = tt
Fills-At s p (satisfied z) h = tt
Fills-At s p (whole some_left le tr fl) h =
    (ground (arith, tr.price, h.0.price), Fills-At s p fl h.1)
Fills-At s p (part some_left lt tr filled z) h = (ground (arith, tr.price, h.0.price), tt)

-- A price that the taker's limit admits.
abbrev pub WithinLimit : Side → ℤ → Trade → Type 0
WithinLimit Side.bid limit x = pos x.price ≤ℤ limit
WithinLimit Side.ask limit x = limit ≤ℤ pos x.price

admits-WithinLimit :
    (t : Taker) (p : ℕ) (xs : List Trade)
    → stops t p ≡ false
    → All (At p) xs
    → All (WithinLimit t.side t.price) xs
admits-WithinLimit t p [] h a = tt
admits-WithinLimit t p (x ∷ xs) h a = (ground arith, admits-WithinLimit t p xs h a.1)

pub Sweeps-WithinLimit :
    {t : Taker} {ls ls' : SideContainer} {r r' : ℕ} {xs : List Trade} (s : Side)
    → Sweeps t ls r ls' r' xs
    → All (IsLevel s) ls
    → All (WithinLimit t.side t.price) xs
Sweeps-WithinLimit s emptied h = tt
Sweeps-WithinLimit s (stopped z) h = tt
Sweeps-WithinLimit {t} s (through {p = p} {xs = xs} {ys = ys} some_left admits fl sw) h =
    All-append (WithinLimit t.side t.price) xs ys
      (admits-WithinLimit t p xs admits (Fills-At s p fl h.0.orders)) (Sweeps-WithinLimit s sw h.1)
Sweeps-WithinLimit {t} {xs = xs} s (within {p = p} some_left admits fl) h =
    admits-WithinLimit t p xs admits (Fills-At s p fl h.0.orders)

-- No trade is at a better price than one before it.
abbrev pub NotBefore : Side → ℕ → List Trade → Type 0
NotBefore s p xs = All (λ x. better s x.price p ≡ false) xs

abbrev pub BestFirst : Side → List Trade → Type 0
BestFirst s [] = Unit {0}
BestFirst s (x ∷ xs) = NotBefore s x.price xs × BestFirst s xs

At-NotBefore : (s : Side) (p : ℕ) (xs : List Trade) → All (At p) xs → NotBefore s p xs
At-NotBefore s p [] h = tt
At-NotBefore Side.bid p (x ∷ xs) h = (ground arith, At-NotBefore Side.bid p xs h.1)
At-NotBefore Side.ask p (x ∷ xs) h = (ground arith, At-NotBefore Side.ask p xs h.1)

worse-NotBefore :
    (s : Side) (p q : ℕ) (xs : List Trade)
    → better s p q ≡ true
    → NotBefore s q xs
    → NotBefore s p xs
worse-NotBefore s p q [] b h = tt
worse-NotBefore Side.bid p q (x ∷ xs) b h = (ground arith, worse-NotBefore Side.bid p q xs b h.1)
worse-NotBefore Side.ask p q (x ∷ xs) b h = (ground arith, worse-NotBefore Side.ask p q xs b h.1)

-- Trades at one price, then trades at worse ones.
At-BestFirst :
    (s : Side) (p : ℕ) (xs ys : List Trade)
    → All (At p) xs
    → NotBefore s p ys
    → BestFirst s ys
    → BestFirst s (xs ++ ys)
At-BestFirst s p [] ys h k b = b
At-BestFirst s p (x ∷ xs) ys h k b = (
  All-append (λ y. better s y.price x.price ≡ false) xs ys (At-NotBefore s x.price xs (rw h.0 h.1))
      (rw h.0 k),
  At-BestFirst s p xs ys h.1 k b,
)

Sweeps-NotBefore :
    {t : Taker} {ls ls' : SideContainer} {r r' : ℕ} {xs : List Trade} (s : Side) (p : ℕ)
    → Sweeps t ls r ls' r' xs
    → All (IsLevel s) ls
    → Ordered s ls
    → Behind s p ls
    → NotBefore s p xs
Sweeps-NotBefore s p emptied h o b = tt
Sweeps-NotBefore s p (stopped z) h o b = tt
Sweeps-NotBefore s p (through {p = q} {xs = xs} {ys = ys} some_left admits fl sw) h o b =
    worse-NotBefore s p q (xs ++ ys) b (
      All-append (λ y. better s y.price q ≡ false) xs ys
        (At-NotBefore s q xs (Fills-At s q fl h.0.orders)) (Sweeps-NotBefore s q sw h.1 o.1 o.0))
Sweeps-NotBefore {xs = xs} s p (within {p = q} some_left admits fl) h o b =
    worse-NotBefore s p q xs b (At-NotBefore s q xs (Fills-At s q fl h.0.orders))

At-one_price : (s : Side) (p : ℕ) (xs : List Trade) → All (At p) xs → BestFirst s xs
At-one_price s p [] h = tt
At-one_price s p (x ∷ xs) h = (At-NotBefore s x.price xs (rw h.0 h.1), At-one_price s p xs h.1)

pub Sweeps-BestFirst :
    {t : Taker} {ls ls' : SideContainer} {r r' : ℕ} {xs : List Trade} (s : Side)
    → Sweeps t ls r ls' r' xs
    → All (IsLevel s) ls
    → Ordered s ls
    → BestFirst s xs
Sweeps-BestFirst s emptied h o = tt
Sweeps-BestFirst s (stopped z) h o = tt
Sweeps-BestFirst s (through {p = p} {xs = xs} {ys = ys} some_left admits fl sw) h o =
    At-BestFirst s p xs ys (Fills-At s p fl h.0.orders) (Sweeps-NotBefore s p sw h.1 o.1 o.0)
      (Sweeps-BestFirst s sw h.1 o.1)
Sweeps-BestFirst {xs = xs} s (within {p = p} some_left admits fl) h o =
    At-one_price s p xs (Fills-At s p fl h.0.orders)

-- If `add_order` returns on a valid book, each of its trades is at a price that the limit admits, and
-- their prices go from the best to the worst.
pub add_order-BestFirst :
    (stamp : ℕ → Stamp) (b : LimitOrderBook) (events : List Trade) (order_id : ℕ) (price : ℤ)
    (quantity : ℕ) (side : Side) (broker_id : String) {b' : LimitOrderBook} {events' : List Trade}
    → IsValid b
    → add_order stamp b events order_id price quantity side broker_id ≡ ok (b', events')
    → (trades : List Trade) × (events' ≡ events ++ trades)
      × All (WithinLimit side price) trades
      × BestFirst (opposite side) trades
add_order-BestFirst stamp b events order_id price quantity side broker_id v e =
    let a = add_order-Adds stamp b events order_id price quantity side broker_id e in
    let far = far-IsSide side v in
    (
      a.trades,
      a.queued,
      Sweeps-WithinLimit (opposite side) a.swept far.levels,
      Sweeps-BestFirst (opposite side) a.swept far.levels far.ordered,
    )
