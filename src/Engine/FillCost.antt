-- ===== src/Engine/FillCost.antt =====
-- `get_fill_cost` against the matching: it foretells what a market order would cost.
pub mod Total
use elsa_fyp.Prelude.{
  ℕ, zero, suc, ◌+◌, ◌-◌, ◌*◌, ◌≤◌, ◌<◌, ◌≡◌, refl, sym, ap, ◌⊎◌, inl, inr, ◌==◌, if◌then◌else◌,
  leb, false, List, [], ◌∷◌, ◌++◌, String, ℤ, arith, All, length, get_elem?, Outcome, ok, or_fault,
  contract, ◌>>=◌, nat32, int_max, err, overflow, require, ◌>>◌, Ensures-mono, ltb, some, none,
  Option, Ensures, Ensures-ok, Ensures-bind, Ensures-if, Ensures-require, sum_by-append,
}
use native.Mathlib.Nat.{add_assoc, add-zero}
use elsa_fyp.Core.Orders.{Side, opposite}
use elsa_fyp.Engine.Order.{Order, Trade, Stamp}
use elsa_fyp.Engine.Book.{
  Level, SideContainer, LimitOrderBook, LevelAggregate, get_side, add_quantities, aggregate,
  get_level_aggregate, fill_cost_loop, get_fill_cost,
}
use elsa_fyp.Engine.Match.{Taker, stops, market_bid_order_price, market_ask_order_price, add_order}
use elsa_fyp.Engine.Match.Spec.{Sweeps, emptied, stopped, through, within, volume, traded, cost}
use elsa_fyp.Engine.Match.Adds.{add_order-Adds}
use elsa_fyp.Engine.Match.Conservation.{Fills-volume}
use elsa_fyp.Engine.Match.Priority.{At, Fills-At}
use elsa_fyp.Engine.Invariant.{IsLevel, IsValid}
use elsa_fyp.Engine.Invariant.Far.{Fills-ends}
use elsa_fyp.Engine.Invariant.Near.{far-IsSide}

nat32-eq : (n : ℕ) → Ensures (λ m. m ≡ n) (nat32 n)
nat32-eq n = Ensures-if (λ m. m ≡ n) (leb n int_max) (ok n) (err overflow) (λ _. refl) (λ _. tt)

pub add_quantities-volume :
    (acc : ℕ) (os : List Order) → Ensures (λ q. q ≡ acc + volume os) (add_quantities acc os)
unfolding add_quantities
add_quantities-volume acc [] = omega arith
add_quantities-volume acc (o ∷ os) =
    Ensures-bind (λ q. q ≡ acc + volume (o ∷ os)) (λ m. m ≡ acc + o.quantity) _
      (λ sum. add_quantities sum os) (nat32-eq (acc + o.quantity))
      λ sum e.
        Ensures-mono (λ q. q ≡ acc + volume (o ∷ os)) (λ q. q ≡ sum + volume os) _
          (add_quantities-volume sum os) λ q h. omega (arith, e, h)

-- The aggregate of a level has its price and its whole quantity.
abbrev pub Sums : Level → LevelAggregate → Type 0
Sums (p, os) a = (a.price ≡ p) × (a.quantity ≡ volume os)

pub aggregate-Sums : (l : Level) → Ensures (Sums l) (aggregate l)
unfolding aggregate
aggregate-Sums (p, os) =
    Ensures-bind (Sums (p, os)) (λ q. q ≡ 0 + volume os) (add_quantities 0 os) _
      (add_quantities-volume 0 os)
      λ quantity e.
        Ensures-require (Sums (p, os)) (ltb 0 p) contract
          (require (ltb 0 quantity) contract >> ok (record { price = p; quantity = quantity }))
          λ _.
            Ensures-require (Sums (p, os)) (ltb 0 quantity) contract
              (ok (record { price = p; quantity = quantity })) λ _. (refl, omega (arith, e))

cost-At : (p : ℕ) (xs : List Trade) → All (At p) xs → cost xs ≡ p * traded xs
cost-At p [] h = omega arith
cost-At p (x ∷ xs) h = rw (h.0, cost-At p xs h.1) (omega arith)

-- A side as the loop reads it, from index `i` on.
abbrev pub Reads : (ℕ → Outcome LevelAggregate) → ℕ → SideContainer → Type 0
Reads level i [] = Unit {0}
Reads level i (l ∷ ls) = (level i ≡ aggregate l) × Reads level (suc i) ls

cost-append : (xs ys : List Trade) → cost (xs ++ ys) ≡ cost xs + cost ys
cost-append xs ys = sum_by-append (λ x. x.price * x.quantity) xs ys

spent-zero :
    (level : ℕ → Outcome LevelAggregate) (rounds i total : ℕ)
    → fill_cost_loop level rounds i 0 total ≡ ok total
unfolding fill_cost_loop
spent-zero level zero i total = refl
spent-zero level (suc rounds) i total = refl

-- One round of the loop, at a level of volume `v`.
module _ (level : ℕ → Outcome LevelAggregate) (i r total : ℕ) (l : Level) (ls : SideContainer)
    (P : ℕ → Type 0) where
  round :
      level i ≡ aggregate l
      → 0 < r
      → ((part : ℕ)
          → part ≡ (if leb (volume l.1) r then volume l.1 else r)
          → Ensures P (fill_cost_loop level (length ls) (suc i) (r - part) (total + l.0 * part)))
      → Ensures P (fill_cost_loop level (suc (length ls)) i r total)
  unfolding fill_cost_loop
  round reads some_left next =
      Ensures-if P (r == 0) (ok total) _ (λ z. absurd (ground arith))
        λ nz.
          Ensures-bind P (Sums l) (level i)
            (λ a. nat32 (a.price * part a.quantity) >>= λ c. nat32 (total + c) >>= rest a.quantity)
            (rw reads (aggregate-Sums l))
            λ a (price, quantity).
              Ensures-bind P (λ c. c ≡ a.price * part a.quantity)
                (nat32 (a.price * part a.quantity)) (λ c. nat32 (total + c) >>= rest a.quantity)
                (nat32-eq _)
                λ c ce.
                  Ensures-bind P (λ t. t ≡ total + c) (nat32 (total + c)) (rest a.quantity)
                    (nat32-eq _)
                    λ t te. rw (te, ce, price, quantity) (next (part (volume l.1)) refl)
    where
      part : ℕ → ℕ
      part q = if leb q r then q else r

      rest : ℕ → ℕ → Outcome ℕ
      rest q t = fill_cost_loop level (length ls) (suc i) (r - part q) t

-- The taker's price admits a level.
abbrev Admits : Taker → Level → Type 0
Admits t l = stops t l.0 ≡ false

-- The loop adds to its total what a sweep that no price stops would pay.
loop-cost :
    {t : Taker} {ls ls' : SideContainer} {r r' : ℕ} {xs : List Trade} (s : Side)
    (level : ℕ → Outcome LevelAggregate) (i total : ℕ)
    → All (Admits t) ls
    → Sweeps t ls r ls' r' xs
    → All (IsLevel s) ls
    → Reads level i ls
    → Ensures (λ c. c ≡ total + cost xs) (fill_cost_loop level (length ls) i r total)
loop-cost s level i total free emptied h reads = unfold fill_cost_loop in omega arith
loop-cost s level i total free (stopped (inl z)) h reads = rw (z, spent-zero level) (omega arith)
loop-cost s level i total free (stopped {p = p} (inr k)) h reads = absurd (cc (free.0))
loop-cost s level i total free
      (through {p = p} {os = os} {ls = ls} {r = r} {r' = r'} {xs = xs} {ys = ys} some_left admits fl
        sw)
      h reads =
    round level i r total (p, os) ls (λ c. c ≡ total + cost (xs ++ ys)) reads.0 some_left
      λ part pe.
        let filled = Fills-volume fl in
        let whole : part ≡ traded xs = ground (arith, pe, filled.0, filled.1) in
        let left : r - part ≡ r' = omega (arith, whole, filled.1) in
        let paid : total + p * part ≡ total + cost xs =
          rw (whole, cost-At p xs (Fills-At s p fl h.0.orders)) refl in
        rw (left, paid, cost-append xs ys, sym (add_assoc total (cost xs) (cost ys)))
          (loop-cost s level (suc i) (total + cost xs) free.1 sw h.1 reads.1)
loop-cost s level i total free
      (within {p = p} {o = o} {os = os} {os' = os'} {ls = ls} {r = r} {xs = xs} some_left admits fl)
      h reads =
    round level i r total (p, os) ls (λ c. c ≡ total + cost xs) reads.0 some_left
      λ part pe.
        let filled = Fills-volume fl in
        let all : part ≡ r = ground (arith, pe, filled.0, filled.1, Fills-ends fl tt) in
        let spent : r - part ≡ 0 = omega (arith, all) in
        rw (spent, spent-zero level)
          (rw (all, cost-At p xs (Fills-At s p fl h.0.orders))
            (ap (λ n. total + p * n) (omega (arith, filled.1, Fills-ends fl tt))))

pub Reads-of :
    (level : ℕ → Outcome LevelAggregate) (i : ℕ) (ls : SideContainer)
    → ((j : ℕ) → level (i + j) ≡ (or_fault (get_elem? ls j) contract >>= aggregate))
    → Reads level i ls
Reads-of level i [] h = tt
Reads-of level i (l ∷ ls) h = (
  rw (← add-zero i) (h 0),
  Reads-of level (suc i) ls (λ j. let e : suc i + j ≡ i + suc j = omega arith in rw e (h (suc j))),
)

-- A price of a level that an `int` holds.
abbrev pub IntPrice : Level → Type 0
IntPrice l = l.0 ≤ int_max

-- The price that stands for a market order.
abbrev pub market_price : Side → ℤ
market_price Side.bid = market_bid_order_price
market_price Side.ask = market_ask_order_price

market-Admits :
    (t : Taker) (ls : SideContainer)
    → t.price ≡ market_price t.side
    → All IntPrice ls
    → All (Admits t) ls
market-Admits t [] e h = tt
market-Admits t (l ∷ ls) e h = (market-stops t.side e, market-Admits t ls e h.1)
  where
    market-stops : (s : Side) → t.price ≡ market_price s → stops (record t { side = s }) l.0 ≡ false
    market-stops Side.bid e = ground (arith, h.0)
    market-stops Side.ask e = ground (arith, h.0)

-- The test for an empty side.
side-cases :
    (P : Option ℕ → Type 0) (ls : SideContainer) (m : Outcome ℕ)
    → (ls ≡ [] → P none)
    → Ensures (λ total. P (some total)) m
    → Ensures P (elim ls [
      | [] ↦ ok none
      | level ∷ rest ↦ m >>= λ total. require (ltb 0 total) contract >> ok (some total)
    ])
side-cases P [] m h k = h refl
side-cases P (l ∷ ls) m h k =
    Ensures-bind P (λ total. P (some total)) m
      (λ total. require (ltb 0 total) contract >> ok (some total)) k
      λ total p. Ensures-require P (ltb 0 total) contract (ok (some total)) λ _. p

-- No cost for an empty side, else the cost of the trades.
abbrev pub Foretold : SideContainer → List Trade → Option ℕ → Type 0
Foretold ls xs c = ((ls ≡ []) × (c ≡ none)) ⊎ (c ≡ some (cost xs))

get_fill_cost-Foretold :
    {t : Taker} {ls' : SideContainer} {r' : ℕ} {xs : List Trade} (s : Side) (b : LimitOrderBook)
    (quantity : ℕ)
    → t.price ≡ market_price t.side
    → All IntPrice (get_side b s)
    → Sweeps t (get_side b s) quantity ls' r' xs
    → All (IsLevel s) (get_side b s)
    → Ensures (Foretold (get_side b s) xs) (get_fill_cost b quantity s)
unfolding get_fill_cost get_level_aggregate
get_fill_cost-Foretold {t} {xs = xs} s b quantity market ints sw levels =
    Ensures-require (Foretold (get_side b s) xs) (ltb 0 quantity) contract
      (elim (get_side b s) [
        | [] ↦ ok none
        | level ∷ rest ↦
            fill_cost_loop (get_level_aggregate b s) (length (get_side b s)) 0 quantity 0
            >>= λ total. require (ltb 0 total) contract >> ok (some total)
      ])
      λ _.
        side-cases (Foretold (get_side b s) xs) (get_side b s) _ (λ e. inl (e, refl))
          (Ensures-mono (λ total. Foretold (get_side b s) xs (some total)) (λ c. c ≡ 0 + cost xs) _
            (loop-cost s (get_level_aggregate b s) 0 0 (market-Admits t _ market ints) sw levels (
              Reads-of (get_level_aggregate b s) 0 (get_side b s)
                (λ j. let e : 0 + j ≡ j = omega arith in rw e refl)))
            λ c e. inr (let e' : c ≡ cost xs = omega (arith, e) in rw e' refl))

-- If a market order is accepted, the answer of `get_fill_cost` to the same quantity on the other
-- side, when it returns, was exactly what the order's trades cost; it is empty for an empty side.
pub get_fill_cost-add_order :
    (stamp : ℕ → Stamp) (b : LimitOrderBook) (events : List Trade) (order_id quantity : ℕ)
    (side : Side) (broker_id : String) {b' : LimitOrderBook} {events' : List Trade}
    {answer : Option ℕ}
    → IsValid b
    → All IntPrice (get_side b (opposite side))
    → add_order stamp b events order_id (market_price side) quantity side broker_id
      ≡ ok (b', events')
    → get_fill_cost b quantity (opposite side) ≡ ok answer
    → (trades : List Trade) × (events' ≡ events ++ trades)
      × Foretold (get_side b (opposite side)) trades answer
get_fill_cost-add_order stamp b events order_id quantity side broker_id v ints e q =
    let a = add_order-Adds stamp b events order_id (market_price side) quantity side broker_id e in
    (
      a.trades,
      a.queued,
      Ensures-ok (Foretold (get_side b (opposite side)) a.trades) _
          (get_fill_cost-Foretold (opposite side) b quantity refl ints a.swept
            (far-IsSide side v).levels)
          q,
    )
