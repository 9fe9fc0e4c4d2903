-- ===== src/Prelude/Maps.antt =====
-- Maps as association lists, over any type of keys with a Boolean equality: the interface of
-- std::unordered_map that the program uses.
use elsa_fyp.Prelude.Tests.{◌==◌, ==_iff, if◌then◌else◌, Bool-cases}
use elsa_fyp.Prelude.Int.{ℤ, eqb_ℤ, eqb_ℤ_iff}
use Prim.Native.Nat.{ℕ}
use Prim.Native.String.{String}
use mathlib.Core.Path.{◌≡◌, refl, sym, ◌∙◌}
use mathlib.Core.Logic.{◌↔◌, ◌≢◌, inl, inr}
use mathlib.Core.Bool.{Bool, true, false}
use mathlib.Core.Option.{Option, none, some}
use mathlib.Core.List.{List, [], ◌∷◌}
use text.Mathlib.Text.{◌==◌ as str_eq}
use text.Mathlib.TextEquality.{eq_iff}

pub record Eq (A : Type 0) : Type 0 where
  pub beq : A → A → Bool
  pub beq_iff : (a b : A) → (beq a b ≡ true) ↔ (a ≡ b)

instance abbrev pub nat_eq : Eq ℕ
nat_eq = record { beq = ◌==◌; beq_iff = ==_iff }

instance abbrev pub int_eq : Eq ℤ
int_eq = record { beq = eqb_ℤ; beq_iff = eqb_ℤ_iff }

instance abbrev pub string_eq : Eq String
string_eq = record { beq = str_eq; beq_iff = eq_iff }

abbrev pub eqb : {A : Type 0} ⦃e : Eq A⦄ → A → A → Bool
eqb ⦃e⦄ = e.beq

abbrev pub Map : Type 0 → Type 0 → Type 0
Map K V = List (K × V)

module _ {K : Type 0} ⦃e : Eq K⦄ where
  pub eqb_refl : (k : K) → eqb k k ≡ true
  eqb_refl k = (e.beq_iff k k).1 refl

  pub eqb_ne : (j k : K) → j ≢ k → eqb j k ≡ false
  eqb_ne j k h = elim (Bool-cases (eqb j k)) [
    | inl q ↦ absurd (h ((e.beq_iff j k).0 q))
    | inr q ↦ q
  ]

module _ {K V : Type 0} ⦃e : Eq K⦄ where
  unfoldable pub lookup : K → Map K V → Option V
  lookup k [] = none
  lookup k ((j, v) ∷ m) = if eqb j k then some v else lookup k m

  -- `m[k] = v`
  unfoldable pub insert : K → V → Map K V → Map K V
  insert k v [] = (k, v) ∷ []
  insert k v ((j, w) ∷ m) = if eqb j k then (k, v) ∷ m else (j, w) ∷ insert k v m

  -- `m.erase(k)`
  unfoldable pub erase : K → Map K V → Map K V
  erase k [] = []
  erase k ((j, v) ∷ m) = let rest = erase k m in if eqb j k then rest else (j, v) ∷ rest

  -- `m.contains(k)`
  unfoldable pub contains : K → Map K V → Bool
  unfolding lookup
  contains k m = elim (lookup k m) [ none ↦ false | some _ ↦ true ]

  -- `m.emplace(k, v)`, which leaves an entry that is there
  unfoldable pub emplace : K → V → Map K V → Map K V
  emplace k v m = if contains k m then m else insert k v m

  pub lookup-insert_self : (k : K) (v : V) (m : Map K V) → lookup k (insert k v m) ≡ some v
  unfolding lookup insert
  lookup-insert_self k v [] = rw eqb_refl refl
  lookup-insert_self k v ((j, w) ∷ m) = elim (Bool-cases (eqb j k)) [
    | inl q ↦ rw q (rw eqb_refl refl)
    | inr q ↦ rw q (rw q (lookup-insert_self k v m))
  ]

  pub lookup-insert_ne :
      (j k : K) (v : V) (m : Map K V) → j ≢ k → lookup j (insert k v m) ≡ lookup j m
  unfolding lookup insert
  lookup-insert_ne j k v [] h = rw (eqb_ne k j (λ p. h (sym p))) refl
  lookup-insert_ne j k v ((i, w) ∷ m) h = elim (Bool-cases (eqb i k)) [
    | inl q ↦ rw q (
        rw (eqb_ne k j (λ p. h (sym p)))
          (rw (eqb_ne i j (λ p. h (sym p ∙ (e.beq_iff i k).0 q))) refl))
    | inr q ↦ rw q (elim (Bool-cases (eqb i j)) [
      | inl r ↦ rw r refl
      | inr r ↦ rw r (lookup-insert_ne j k v m h)
    ])
  ]

  pub lookup-erase_self : (k : K) (m : Map K V) → lookup k (erase k m) ≡ none
  unfolding lookup erase
  lookup-erase_self k [] = refl
  lookup-erase_self k ((j, v) ∷ m) = elim (Bool-cases (eqb j k)) [
    | inl q ↦ rw q (lookup-erase_self k m)
    | inr q ↦ rw q (rw q (lookup-erase_self k m))
  ]

  pub lookup-erase_ne : (j k : K) (m : Map K V) → j ≢ k → lookup j (erase k m) ≡ lookup j m
  unfolding lookup erase
  lookup-erase_ne j k [] h = refl
  lookup-erase_ne j k ((i, v) ∷ m) h = elim (Bool-cases (eqb i k)) [
    | inl q ↦
        rw q (rw (eqb_ne i j (λ p. h (sym p ∙ (e.beq_iff i k).0 q))) (lookup-erase_ne j k m h))
    | inr q ↦
        rw q (elim (Bool-cases (eqb i j)) [
          | inl r ↦ rw r refl
          | inr r ↦ rw r (lookup-erase_ne j k m h)
        ])
  ]
