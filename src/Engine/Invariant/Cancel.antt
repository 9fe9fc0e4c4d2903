-- ===== src/Engine/Invariant/Cancel.antt =====
-- `cancel_order` keeps the invariant of the book, and takes one order out of it.
use elsa_fyp.Prelude.{
  ℕ, ◌+◌, ◌<◌, ◌≡◌, refl, sym, ap, subst, contract, out_of_range, ◌∙◌, inl, inr, true, false, List,
  arith, All, Option-cases, Option, none, some, ok, Ensures, Ensures-ok, Ensures-or_fault,
  Ensures-require, contains, lookup, erase, nat_eq, lookup-erase_self, Map,
}
use mathlib.Core.Option.{some-injective}
use elsa_fyp.Core.Orders.{Side, opposite}
use elsa_fyp.Engine.Order.{Order}
use elsa_fyp.Engine.Book.{
  SideContainer, Iterator, LimitOrderBook, get_side, set_side, level_at, erase_order, find_order,
  put_level, dereference, cancel_order, get_order_by_id,
}
use elsa_fyp.Engine.Invariant.Levels.{
  level_at-RestsAt, find_order-RestsAt, put_level-levels, put_level-Ordered, put_level-Apart,
  put_level-depth, put_level-Removes, erase-Removes, erase-RestsAt, erase-volume, Removes, resting,
}
use elsa_fyp.Engine.Match.Spec.{depth}
use elsa_fyp.Engine.Invariant.{RestsAt, IsSide, IsValid}
use elsa_fyp.Engine.Invariant.Near.{Apart, near-IsSide, sides-Apart}

-- What a cancelled order leaves: a valid book without it, and the other side as it was.
pub record Cancelled (b : LimitOrderBook) (id : ℕ) (b' : LimitOrderBook) : Type 0 where
  pub order : Order
  pub here : get_order_by_id b id ≡ ok order
  pub taken : Removes order (resting (get_side b order.side)) (resting (get_side b' order.side))
  pub valid : IsValid b'
  pub removed : depth (get_side b order.side) ≡ depth (get_side b' order.side) + order.quantity
  pub other : get_side b' (opposite order.side) ≡ get_side b (opposite order.side)
  pub unknown : contains id b'.order_id_map ≡ false
  pub quantity : 0 < order.quantity

-- A book with one side and the order map written anew.
module _ (b : LimitOrderBook) (near : SideContainer) (m : Map ℕ Iterator) where
  written : Side → LimitOrderBook
  written s = record (set_side b s near) { order_id_map = m }

  written-IsValid :
      (s : Side)
      → IsValid b
      → IsSide s near
      → Apart s near (get_side b (opposite s))
      → IsValid (written s)
  unfolding written
  written-IsValid Side.bid v h a = record { bids = h; asks = v.asks; uncrossed = a }
  written-IsValid Side.ask v h a = record { bids = v.bids; asks = h; uncrossed = a }

  written-near : (s : Side) → get_side (written s) s ≡ near
  unfolding written
  written-near s = ground arith

  written-far : (s : Side) → get_side (written s) (opposite s) ≡ get_side b (opposite s)
  unfolding written
  written-far s = ground arith

  written-map : (s : Side) → (written s).order_id_map ≡ m
  unfolding written
  written-map s = ground arith

contains-erase : {V : Type 0} (id : ℕ) (m : Map ℕ V) → contains id (erase id m) ≡ false
unfolding contains
contains-erase id m = rw (lookup-erase_self id m, contains) refl

-- What an iterator that does not dangle points to.
dereference-inv :
    (b : LimitOrderBook) (it : Iterator) {o : Order}
    → dereference b it ≡ some o
    → (os : List Order) × (level_at it.price (get_side b it.side) ≡ some os)
      × (find_order it.order_id os ≡ some o)
unfolding dereference
dereference-inv b it {o} e = by_level (level_at it.price (get_side b it.side)) refl e
  where
    by_level :
        (l : Option (List Order))
        → level_at it.price (get_side b it.side) ≡ l
        → (elim l [ none ↦ none | some os ↦ find_order it.order_id os ]) ≡ some o
        → (os : List Order) × (level_at it.price (get_side b it.side) ≡ some os)
          × (find_order it.order_id os ≡ some o)
    by_level none q e = cc
    by_level (some os) q e = (os, q, e)

-- The order that an iterator points to lies where its own fields say.
dereference-place :
    (b : LimitOrderBook) (it : Iterator) {o : Order} {os : List Order}
    → IsValid b
    → dereference b it ≡ some o
    → level_at o.price (get_side b o.side) ≡ some os
    → All (RestsAt o.side o.price) os × (find_order it.order_id os ≡ some o) × (0 < o.quantity)
dereference-place b it {o} {os} v e l =
    let (xs, at_level, found) = dereference-inv b it e in
    let all = level_at-RestsAt it.side it.price _ (near-IsSide it.side v).levels at_level in
    let rests = find_order-RestsAt it.side it.price it.order_id xs all found in
    let same : xs ≡ os = some-injective _ _ (sym at_level ∙ rw (← rests.price, ← rests.side) l) in
    (
      level_at-RestsAt o.side o.price _ (near-IsSide o.side v).levels l,
      subst (λ ys. find_order it.order_id ys ≡ some o) same found,
      rests.quantity,
    )

finds :
    (b : LimitOrderBook) (id : ℕ) (it : Iterator) {o : Order}
    → contains id b.order_id_map ≡ true
    → lookup id b.order_id_map ≡ some it
    → dereference b it ≡ some o
    → get_order_by_id b id ≡ ok o
unfolding get_order_by_id
finds b id it known indexed here = rw (known, indexed, here) refl

cancel_order-Ensures :
    (b : LimitOrderBook) (id : ℕ) → IsValid b → Ensures (Cancelled b id) (cancel_order b id)
unfolding cancel_order written
cancel_order-Ensures b id v =
    Ensures-require (Cancelled b id) (contains id b.order_id_map) contract _ λ known.
      Ensures-or_fault (Cancelled b id) (lookup id b.order_id_map) out_of_range _ λ it indexed.
        Ensures-or_fault (Cancelled b id) (dereference b it) out_of_range _ λ o here.
          Ensures-or_fault (Cancelled b id) (level_at o.price (get_side b o.side)) out_of_range
            (λ os. ok (
              written b (put_level o.price (erase_order it.order_id os) (get_side b o.side))
                (erase id b.order_id_map) o.side))
            λ os level.
              let (all, found, some_quantity) = dereference-place b it v here level in
              let rest = erase_order it.order_id os in
              let near = put_level o.price rest (get_side b o.side) in
              let side = near-IsSide o.side v in
              let m = erase id b.order_id_map in
              record {
                order = o;
                here = finds b id it known indexed here;
                taken =
                    subst (λ ls. Removes o (resting (get_side b o.side)) (resting ls))
                      (sym (written-near b near m o.side))
                      (put_level-Removes o.price rest os (get_side b o.side) level
                        (erase-Removes it.order_id os found));
                valid =
                    written-IsValid b near m o.side v
                      (record {
                        ordered = put_level-Ordered o.side o.price rest _ side.ordered;
                        levels =
                            put_level-levels o.side o.price rest _
                              (erase-RestsAt o.side o.price it.order_id os all) side.levels;
                      })
                      (put_level-Apart o.side o.price rest _ _ side.ordered (sides-Apart o.side v));
                removed =
                    put_level-depth o.price rest os (get_side b o.side) o.quantity level
                      (erase-volume it.order_id os found)
                    ∙ ap (λ ls. depth ls + o.quantity) (sym (written-near b near m o.side));
                other = written-far b near m o.side;
                unknown =
                    ap (contains id) (written-map b near m o.side)
                    ∙ contains-erase id b.order_id_map;
                quantity = some_quantity;
              }

-- A call of `cancel_order` that returns keeps a valid book valid: the order that `get_order_by_id` finds
-- is taken out of its side, whose other orders stay in their sequence and which loses its quantity;
-- the other side is unchanged, and the id is unknown afterwards.
pub cancel_order-Cancelled :
    (b : LimitOrderBook) (id : ℕ) {b' : LimitOrderBook}
    → IsValid b
    → cancel_order b id ≡ ok b'
    → Cancelled b id b'
cancel_order-Cancelled b id v e = Ensures-ok (Cancelled b id) _ (cancel_order-Ensures b id v) e

abbrev Found : LimitOrderBook → ℕ → Order → Type 0
Found b id o =
    (it : Iterator) × (contains id b.order_id_map ≡ true)
    × (lookup id b.order_id_map ≡ some it)
    × (dereference b it ≡ some o)

get_order_by_id-Found : (b : LimitOrderBook) (id : ℕ) → Ensures (Found b id) (get_order_by_id b id)
unfolding get_order_by_id
get_order_by_id-Found b id =
    Ensures-require (Found b id) (contains id b.order_id_map) contract _ λ known.
      Ensures-or_fault (Found b id) (lookup id b.order_id_map) out_of_range _ λ it indexed.
        elim (Option-cases (dereference b it)) [
          | inl e ↦ rw e tt
          | inr (o, e) ↦ rw e (it, known, indexed, e)
        ]

-- An order that `get_order_by_id` finds in a valid book can be cancelled.
pub cancel_order-returns :
    (b : LimitOrderBook) (id : ℕ) {o : Order}
    → IsValid b
    → get_order_by_id b id ≡ ok o
    → (b' : LimitOrderBook) × (cancel_order b id ≡ ok b')
unfolding cancel_order
cancel_order-returns b id {o} v e =
    let (it, known, indexed, here) = Ensures-ok (Found b id) _ (get_order_by_id-Found b id) e in
    let (xs, at_level, found) = dereference-inv b it here in
    let all = level_at-RestsAt it.side it.price _ (near-IsSide it.side v).levels at_level in
    let rests = find_order-RestsAt it.side it.price it.order_id xs all found in
    let level : level_at o.price (get_side b o.side) ≡ some xs =
      rw (rests.price, rests.side) at_level in
    rw (known, indexed, here, level) (_, refl)
