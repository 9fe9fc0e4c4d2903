-- ===== src/Engine/FillCost/Total.antt =====
-- When `get_fill_cost` returns: the quantities and the value of a side are within `int`.
use elsa_fyp.Prelude.{
  ◌⊎◌, lt→ltb, ℕ, suc, ◌+◌, ◌-◌, ◌*◌, ◌≤◌, ◌<◌, ◌≡◌, refl, ap, inl, inr, ◌==◌, if◌then◌else◌, leb,
  ltb, Bool-cases, List, [], ◌∷◌, arith, All, length, sum_by, some, none, Outcome, ok, nat32,
  int_max, require, contract, ◌>>=◌, ◌>>◌, Ensures-ok, Succeeds, Succeeds-ok, Succeeds-bind,
  Succeeds-require,
}
use elsa_fyp.Core.Orders.{Side}
use elsa_fyp.Engine.Order.{Order}
use elsa_fyp.Engine.Book.{
  Level, SideContainer, LimitOrderBook, LevelAggregate, get_side, add_quantities, aggregate,
  get_level_aggregate, fill_cost_loop, get_fill_cost,
}
use elsa_fyp.Engine.Match.Spec.{volume}
use elsa_fyp.Engine.Invariant.{IsLevel, IsValid}
use elsa_fyp.Engine.Invariant.Near.{near-IsSide}
use elsa_fyp.Engine.FillCost.{Sums, aggregate-Sums, add_quantities-volume, Reads, Reads-of}

-- The value of a side: each level's price times its quantity.
abbrev pub value : SideContainer → ℕ
value = sum_by (λ l. l.0 * volume l.1)

-- The quantity of a level is an `int`.
abbrev pub IntVolume : Level → Type 0
IntVolume l = volume l.1 ≤ int_max

nat32-in_range : (n : ℕ) → n ≤ int_max → nat32 n ≡ ok n
nat32-in_range n h = ground arith

add_quantities-returns :
    (acc : ℕ) (os : List Order) → acc + volume os ≤ int_max → Succeeds (add_quantities acc os)
unfolding add_quantities
add_quantities-returns acc [] h = tt
add_quantities-returns acc (o ∷ os) h =
    rw (nat32-in_range (acc + o.quantity) (omega (arith, h)))
      (add_quantities-returns (acc + o.quantity) os (omega (arith, h)))

volume-positive : (s : Side) (l : Level) → IsLevel s l → 0 < volume l.1
volume-positive s (p, []) h = absurd h.nonempty
volume-positive s (p, o ∷ os) h = omega (arith, h.orders.0.quantity)

aggregate-Succeeds : (s : Side) (l : Level) → IsLevel s l → IntVolume l → Succeeds (aggregate l)
unfolding aggregate
aggregate-Succeeds s (p, os) h v =
    Succeeds-bind (add_quantities 0 os) _ (add_quantities-returns 0 os (omega (arith, v))) λ q e.
      let same = Ensures-ok (λ q. q ≡ 0 + volume os) _ (add_quantities-volume 0 os) e in
      Succeeds-require (ltb 0 p) contract _ (ground (arith, h.price)) (
        Succeeds-require (ltb 0 q) contract _ (ground (arith, same, volume-positive s (p, os) h))
          tt)

aggregate-returns :
    (s : Side) (l : Level)
    → IsLevel s l
    → IntVolume l
    → (a : LevelAggregate) × (aggregate l ≡ ok a) × Sums l a
aggregate-returns s l h v =
    let (a, e) = Succeeds-ok (aggregate l) (aggregate-Succeeds s l h v) in
    (a, e, Ensures-ok (Sums l) _ (aggregate-Sums l) e)

part_cost : (p v k : ℕ) → k ≤ v → p * k ≤ p * v
part_cost p v k h = grind arith

part_positive : (p k : ℕ) → 0 < p → 0 < k → 0 < p * k
part_positive p k h h' = grind arith

-- What the loop returns: its total does not fall, and rises if there is a level and a quantity.
abbrev Rises : ℕ → ℕ → SideContainer → ℕ → Type 0
Rises r total ls c = (total ≤ c) × (0 < r → 0 < length ls → total < c)

loop-returns :
    (s : Side) (level : ℕ → Outcome LevelAggregate) (ls : SideContainer) (i r total : ℕ)
    → All (IsLevel s) ls
    → All IntVolume ls
    → total + value ls ≤ int_max
    → Reads level i ls
    → (c : ℕ) × (fill_cost_loop level (length ls) i r total ≡ ok c) × Rises r total ls c
unfolding fill_cost_loop
loop-returns s level [] i r total h v bound reads =
    (total, refl, (omega arith, λ some_left some_level. absurd (omega (arith, some_level))))
loop-returns s level (l ∷ ls) i r total h v bound reads = elim (Bool-cases (r == 0)) [
  | inl z ↦ rw z (total, refl, (omega arith, λ some_left some_level. absurd (ground arith)))
  | inr nz ↦
      let (a, ea, (price, quantity)) = aggregate-returns s l h.0 v.0 in
      let part : ℕ = if leb a.quantity r then a.quantity else r in
      let within : part ≤ volume l.1 = ground (arith, quantity) in
      let cheap = part_cost l.0 (volume l.1) part within in
      let dear : 0 < l.0 * part =
        part_positive l.0 part h.0.price (ground (arith, quantity, nz, volume-positive s l h.0)) in
      let same : a.price * part ≡ l.0 * part = ap (λ p. p * part) price in
      let at_level : a.price * part ≤ int_max = omega (arith, cheap, same, bound) in
      let so_far : total + a.price * part ≤ int_max = omega (arith, cheap, same, bound) in
      let (c, ec, (grown, _)) =
        loop-returns s level ls (suc i) (r - part) (total + a.price * part) h.1 v.1
          (omega (arith, cheap, same, bound)) reads.1 in
      rw (nz, reads.0, ea, nat32-in_range _ at_level, nat32-in_range _ so_far)
        (c, ec, (omega (arith, grown), λ _ _. omega (arith, grown, dear, same)))
]

side_runs :
    (ls : SideContainer) (m : Outcome ℕ) (c : ℕ)
    → 0 < length ls
    → m ≡ ok c
    → 0 < c
    → (elim ls [
      | [] ↦ ok none
      | level ∷ rest ↦ m >>= λ total. require (ltb 0 total) contract >> ok (some total)
    ])
      ≡ ok (some c)
side_runs [] m c h e p = absurd (omega (arith, h))
side_runs (l ∷ ls) m c h e p = rw (e, lt→ltb 0 c p) refl

-- For a positive quantity and a valid book, `get_fill_cost` returns if on this side the quantity of
-- each level is within `int`, and so is the value of all levels together. The answer is empty for an
-- empty side, else a positive cost.
pub get_fill_cost-returns :
    (b : LimitOrderBook) (quantity : ℕ) (s : Side)
    → IsValid b
    → 0 < quantity
    → All IntVolume (get_side b s)
    → value (get_side b s) ≤ int_max
    → ((get_side b s ≡ []) × (get_fill_cost b quantity s ≡ ok none))
      ⊎ ((c : ℕ) × (0 < c) × (get_fill_cost b quantity s ≡ ok (some c)))
unfolding get_fill_cost get_level_aggregate
get_fill_cost-returns b quantity s v some_left ints bound = by_side (get_side b s) refl
  where
    by_side :
        (ls : SideContainer)
        → get_side b s ≡ ls
        → ((get_side b s ≡ []) × (get_fill_cost b quantity s ≡ ok none))
          ⊎ ((c : ℕ) × (0 < c) × (get_fill_cost b quantity s ≡ ok (some c)))
    by_side [] e = inl (e, rw (lt→ltb 0 quantity some_left, e) refl)
    by_side (l ∷ ls) e =
        let (c, ec, (_, grown)) =
          loop-returns s (get_level_aggregate b s) (get_side b s) 0 quantity 0
            (near-IsSide s v).levels ints (omega (arith, bound))
            (Reads-of (get_level_aggregate b s) 0 (get_side b s)
              (λ j. let z : 0 + j ≡ j = omega arith in rw z refl)) in
        let pays : 0 < c = grown some_left (rw e (omega arith)) in
        inr (
          c,
          pays,
          rw (lt→ltb 0 quantity some_left)
              (side_runs (get_side b s) _ c (rw e (omega arith)) ec pays),
        )
