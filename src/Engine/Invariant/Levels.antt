-- ===== src/Engine/Invariant/Levels.antt =====
-- Taking orders out of a level, and the level out of a side.
use elsa_fyp.Prelude.{
  ℕ, ◌+◌, ◌≡◌, ap, subst, ◌==◌, inl, inr, List, [], ◌∷◌, arith, All, Bool-cases, if_cases, some,
  nat_eq,
}
use mathlib.Core.Option.{some-injective}
use elsa_fyp.Core.Orders.{Side}
use elsa_fyp.Engine.Order.{Order}
use elsa_fyp.Engine.Book.{SideContainer, level_at, erase_order, find_order, put_level}
use mathlib.Core.List.{◌++◌}
use elsa_fyp.Engine.Match.Spec.{volume, depth}
use elsa_fyp.Engine.Invariant.{Behind, Ordered, RestsAt, IsLevel}
use elsa_fyp.Engine.Invariant.Far.{Behind-trans}
use elsa_fyp.Engine.Invariant.Near.{Apart}

pub level_at-RestsAt :
    (s : Side) (p : ℕ) (ls : SideContainer) {os : List Order}
    → All (IsLevel s) ls
    → level_at p ls ≡ some os
    → All (RestsAt s p) os
unfolding level_at
level_at-RestsAt s p [] h e = cc
level_at-RestsAt s p ((q, xs) ∷ ls) h e = elim (Bool-cases (q == p)) [
  | inl same ↦
      let at_p : q ≡ p = ground arith in
      subst (All (RestsAt s p)) (some-injective _ _ (rw same at e))
        (subst (λ m. All (RestsAt s m) xs) at_p h.0.orders)
  | inr other ↦ level_at-RestsAt s p ls h.1 (rw other at e)
]

pub find_order-RestsAt :
    (s : Side) (p id : ℕ) (os : List Order) {o : Order}
    → All (RestsAt s p) os
    → find_order id os ≡ some o
    → RestsAt s p o
unfolding find_order
find_order-RestsAt s p id [] h e = cc
find_order-RestsAt s p id (x ∷ os) h e = elim (Bool-cases (x.order_id == id)) [
  | inl same ↦ subst (RestsAt s p) (some-injective _ _ (rw same at e)) h.0
  | inr other ↦ find_order-RestsAt s p id os h.1 (rw other at e)
]

pub erase-RestsAt :
    (s : Side) (p id : ℕ) (os : List Order)
    → All (RestsAt s p) os
    → All (RestsAt s p) (erase_order id os)
unfolding erase_order
erase-RestsAt s p id [] h = tt
erase-RestsAt s p id (o ∷ os) h =
    if_cases (All (RestsAt s p)) (o.order_id == id) os (o ∷ erase_order id os) (λ _. h.1)
      λ _. (h.0, erase-RestsAt s p id os h.1)

pub erase-volume :
    (id : ℕ) (os : List Order) {o : Order}
    → find_order id os ≡ some o
    → volume os ≡ volume (erase_order id os) + o.quantity
unfolding find_order erase_order
erase-volume id [] e = cc
erase-volume id (x ∷ os) {o} e = ground (arith, erase-volume id os {o = o})

pub put_level-levels :
    (s : Side) (p : ℕ) (os : List Order) (ls : SideContainer)
    → All (RestsAt s p) os
    → All (IsLevel s) ls
    → All (IsLevel s) (put_level p os ls)
unfolding put_level
put_level-levels s p [] [] h k = tt
put_level-levels s p (o ∷ os) [] h k = tt
put_level-levels s p [] ((q, xs) ∷ ls) h k =
    if_cases (All (IsLevel s)) (q == p) ls ((q, xs) ∷ put_level p [] ls) (λ _. k.1)
      λ _. (k.0, put_level-levels s p [] ls tt k.1)
put_level-levels s p (o ∷ os) ((q, xs) ∷ ls) h k =
    if_cases (All (IsLevel s)) (q == p) ((q, o ∷ os) ∷ ls) ((q, xs) ∷ put_level p (o ∷ os) ls)
      (λ same.
        let at_q : p ≡ q = ground arith in
        (
          record {
            nonempty = tt;
            price = k.0.price;
            orders = subst (λ m. All (RestsAt s m) (o ∷ os)) at_q h;
          },
          k.1,
        ))
      λ _. (k.0, put_level-levels s p (o ∷ os) ls h k.1)

pub put_level-Behind :
    (s : Side) (m p : ℕ) (os : List Order) (ls : SideContainer)
    → Ordered s ls
    → Behind s m ls
    → Behind s m (put_level p os ls)
unfolding put_level
put_level-Behind s m p [] [] o h = tt
put_level-Behind s m p (x ∷ os) [] o h = tt
put_level-Behind s m p [] ((q, xs) ∷ ls) o h =
    if_cases (Behind s m) (q == p) ls ((q, xs) ∷ put_level p [] ls)
      (λ _. Behind-trans s m q ls h o.0) (λ _. h)
put_level-Behind s m p (x ∷ os) ((q, xs) ∷ ls) o h =
    if_cases (Behind s m) (q == p) ((q, x ∷ os) ∷ ls) ((q, xs) ∷ put_level p (x ∷ os) ls) (λ _. h)
      (λ _. h)

pub put_level-Ordered :
    (s : Side) (p : ℕ) (os : List Order) (ls : SideContainer)
    → Ordered s ls
    → Ordered s (put_level p os ls)
unfolding put_level
put_level-Ordered s p [] [] o = tt
put_level-Ordered s p (x ∷ os) [] o = tt
put_level-Ordered s p [] ((q, xs) ∷ ls) o =
    if_cases (Ordered s) (q == p) ls ((q, xs) ∷ put_level p [] ls) (λ _. o.1)
      λ _. (put_level-Behind s q p [] ls o.1 o.0, put_level-Ordered s p [] ls o.1)
put_level-Ordered s p (x ∷ os) ((q, xs) ∷ ls) o =
    if_cases (Ordered s) (q == p) ((q, x ∷ os) ∷ ls) ((q, xs) ∷ put_level p (x ∷ os) ls) (λ _. o)
      λ _. (put_level-Behind s q p (x ∷ os) ls o.1 o.0, put_level-Ordered s p (x ∷ os) ls o.1)

pub Apart-no_far : (s : Side) (near : SideContainer) → Apart s near []
Apart-no_far Side.bid [] = tt
Apart-no_far Side.bid (l ∷ near) = tt
Apart-no_far Side.ask near = tt

pub Apart-of-near :
    (s : Side) (q : ℕ) (xs : List Order) (near far : SideContainer)
    → Behind s q near
    → Apart s near ((q, xs) ∷ far)
Apart-of-near Side.bid q xs [] far h = tt
Apart-of-near Side.bid q xs ((p, os) ∷ near) far h = ground arith
Apart-of-near Side.ask q xs [] far h = tt
Apart-of-near Side.ask q xs ((p, os) ∷ near) far h = ground arith

pub near-of-Apart :
    (s : Side) (q : ℕ) (xs : List Order) (near far : SideContainer)
    → Apart s near ((q, xs) ∷ far)
    → Behind s q near
near-of-Apart Side.bid q xs [] far h = tt
near-of-Apart Side.bid q xs ((p, os) ∷ near) far h = ground arith
near-of-Apart Side.ask q xs [] far h = tt
near-of-Apart Side.ask q xs ((p, os) ∷ near) far h = ground arith

pub put_level-Apart :
    (s : Side) (p : ℕ) (os : List Order) (ls far : SideContainer)
    → Ordered s ls
    → Apart s ls far
    → Apart s (put_level p os ls) far
put_level-Apart s p os ls [] o a = Apart-no_far s (put_level p os ls)
put_level-Apart s p os ls ((q, xs) ∷ far) o a =
    Apart-of-near s q xs _ far (put_level-Behind s q p os ls o (near-of-Apart s q xs ls far a))

pub put_level-depth :
    (p : ℕ) (os xs : List Order) (ls : SideContainer) (n : ℕ)
    → level_at p ls ≡ some xs
    → volume xs ≡ volume os + n
    → depth ls ≡ depth (put_level p os ls) + n
unfolding level_at put_level
put_level-depth p os xs [] n e h = cc
put_level-depth p [] xs ((q, ys) ∷ ls) n e h = elim (Bool-cases (q == p)) [
  | inl same ↦
      let e' = some-injective _ _ (rw same at e) in rw same (omega (arith, ap volume e', h))
  | inr other ↦ rw other (omega (arith, put_level-depth p [] xs ls n (rw other at e) h))
]
put_level-depth p (o ∷ os) xs ((q, ys) ∷ ls) n e h = elim (Bool-cases (q == p)) [
  | inl same ↦
      let e' = some-injective _ _ (rw same at e) in rw same (omega (arith, ap volume e', h))
  | inr other ↦ rw other (omega (arith, put_level-depth p (o ∷ os) xs ls n (rw other at e) h))
]

-- The second list is the first without one occurrence of `o`.
pub data Removes (o : Order) : List Order → List Order → Type 0 where
  first : {os : List Order} → Removes o (o ∷ os) os
  later : {x : Order} {os os' : List Order} → Removes o os os' → Removes o (x ∷ os) (x ∷ os')

-- The orders of a side, best level first, oldest first.
unfoldable pub resting : SideContainer → List Order
resting [] = []
resting ((p, os) ∷ ls) = os ++ resting ls

Removes-append_right :
    {o : Order} {xs ys : List Order} (zs : List Order)
    → Removes o xs ys
    → Removes o (xs ++ zs) (ys ++ zs)
Removes-append_right zs first = first
Removes-append_right zs (later r) = later (Removes-append_right zs r)

Removes-append_left :
    {o : Order} {xs ys : List Order} (zs : List Order)
    → Removes o xs ys
    → Removes o (zs ++ xs) (zs ++ ys)
Removes-append_left [] r = r
Removes-append_left (z ∷ zs) r = later (Removes-append_left zs r)

pub erase-Removes :
    (id : ℕ) (os : List Order) {o : Order}
    → find_order id os ≡ some o
    → Removes o os (erase_order id os)
unfolding find_order erase_order
erase-Removes id [] e = cc
erase-Removes id (x ∷ os) {o} e = elim (Bool-cases (x.order_id == id)) [
  | inl same ↦
      rw same (subst (λ y. Removes y (x ∷ os) os) (some-injective _ _ (rw same at e)) first)
  | inr other ↦ rw other (later (erase-Removes id os (rw other at e)))
]

pub put_level-Removes :
    (p : ℕ) (os xs : List Order) (ls : SideContainer) {o : Order}
    → level_at p ls ≡ some xs
    → Removes o xs os
    → Removes o (resting ls) (resting (put_level p os ls))
unfolding level_at put_level resting
put_level-Removes p os xs [] e h = cc
put_level-Removes p [] xs ((q, ys) ∷ ls) {o} e h = elim (Bool-cases (q == p)) [
  | inl same ↦ rw (same, some-injective _ _ (rw same at e)) (Removes-append_right (resting ls) h)
  | inr other ↦ rw other (Removes-append_left ys (put_level-Removes p [] xs ls (rw other at e) h))
]
put_level-Removes p (x ∷ os) xs ((q, ys) ∷ ls) {o} e h = elim (Bool-cases (q == p)) [
  | inl same ↦ rw (same, some-injective _ _ (rw same at e)) (Removes-append_right (resting ls) h)
  | inr other ↦
      rw other (Removes-append_left ys (put_level-Removes p (x ∷ os) xs ls (rw other at e) h))
]
