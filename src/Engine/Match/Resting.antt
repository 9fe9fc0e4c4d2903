-- ===== src/Engine/Match/Resting.antt =====
-- The near side of `add_order`: `emplace_order` and `rest_order` against what a resting order does.
use elsa_fyp.Prelude.{
  ℕ, ◌+◌, ◌≡◌, refl, ap, inl, inr, ◌==◌, ltb, true, false, not, ◌&&◌, Bool, List, [], ◌∷◌, ◌++◌,
  if◌then◌else◌, arith, Bool-cases,
}
use elsa_fyp.Core.Orders.{Side}
use elsa_fyp.Engine.Order.{Order}
use elsa_fyp.Engine.Book.{SideContainer, better, emplace_order, append_order}
use elsa_fyp.Engine.Match.{Taker, is_market_price}
use elsa_fyp.Engine.Match.Spec.{Better, Joins, Rests, resting, volume, depth}

abbrev pub rests : Taker → ℕ → Bool
rests t remaining = ltb 0 remaining && not (is_market_price t.price)

abbrev pub near_after : Taker → ℕ → SideContainer → SideContainer
near_after t remaining near =
    if rests t remaining then emplace_order t.side (resting t remaining) near else near

better-Better : (s : Side) (p q : ℕ) → better s p q ≡ true → Better s p q
better-Better Side.bid p q e = ground arith
better-Better Side.ask p q e = ground arith

worse-better : (s : Side) (p q : ℕ) → (q == p) ≡ false → better s p q ≡ false → Better s q p
worse-better Side.bid p q e e' = ground arith
worse-better Side.ask p q e e' = ground arith

append_order-eq : (os : List Order) (o : Order) → append_order os o ≡ os ++ o ∷ []
unfolding append_order
append_order-eq [] o = refl
append_order-eq (x ∷ os) o = ap (λ l. x ∷ l) (append_order-eq os o)

pub emplace_order-Joins :
    (s : Side) (o : Order) (ls : SideContainer) → Joins s o ls (emplace_order s o ls)
unfolding emplace_order
emplace_order-Joins s o [] = Joins.worst
emplace_order-Joins s o ((q, os) ∷ ls) = elim (Bool-cases (q == o.price)) [
  | inl e ↦ unfold emplace_order in rw (e, append_order-eq os o) (Joins.queued (ground arith))
  | inr ne ↦
      unfold emplace_order in
      rw ne (elim (Bool-cases (better s o.price q)) [
        | inl e ↦ rw e (Joins.ahead (better-Better s o.price q e))
        | inr w ↦ rw w (Joins.past (worse-better s o.price q ne w) (emplace_order-Joins s o ls))
      ])
]

pub near_after-Rests :
    (t : Taker) (remaining : ℕ) (near : SideContainer)
    → Rests t remaining near (near_after t remaining near)
near_after-Rests t remaining near = elim (Bool-cases (is_market_price t.price)) [
  | inl e ↦ elim (Bool-cases (ltb 0 remaining)) [
    | inl l ↦ rw (e, l) (Rests.dropped e)
    | inr l ↦ rw (e, l) (Rests.dropped e)
  ]
  | inr e ↦ elim (Bool-cases (ltb 0 remaining)) [
    | inl l ↦
        rw (e, l)
          (Rests.rested (ground arith) e (emplace_order-Joins t.side (resting t remaining) near))
    | inr l ↦ rw (e, l) (Rests.used_up (ground arith))
  ]
]

volume-append : (os : List Order) (o : Order) → volume (os ++ o ∷ []) ≡ volume os + o.quantity
volume-append [] o = omega arith
volume-append (x ∷ os) o = omega (arith, volume-append os o)

-- A side that an order joins has its quantity more.
Joins-depth :
    {s : Side} {o : Order} {ls ls' : SideContainer}
    → Joins s o ls ls'
    → depth ls' ≡ depth ls + o.quantity
Joins-depth Joins.worst = omega arith
Joins-depth {o = o} (Joins.queued {os = os} e) = omega (arith, volume-append os o)
Joins-depth (Joins.ahead b) = omega arith
Joins-depth (Joins.past b j) = omega (arith, Joins-depth j)

pub Rests-depth :
    {t : Taker} {remaining : ℕ} {near near' : SideContainer}
    → Rests t remaining near near'
    → (is_market_price t.price ≡ true → near' ≡ near)
      × (is_market_price t.price ≡ false → depth near' ≡ depth near + remaining)
Rests-depth (Rests.used_up e) = (λ _. refl, λ _. omega arith)
Rests-depth (Rests.dropped e) = (λ _. refl, λ e'. absurd (cc))
Rests-depth (Rests.rested pos e j) = (λ e'. absurd (cc), λ _. Joins-depth j)
