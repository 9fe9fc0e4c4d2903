-- ===== src/Prelude/Post.antt =====
-- A postcondition of a call that may fail, and the rules by which it is proved along the code.
use mathlib.Core.Path.{◌≡◌, refl, subst, sym}
use mathlib.Core.Bool.{Bool, true, false}
use mathlib.Core.Option.{Option, none, some, some-injective}
use elsa_fyp.Prelude.Tests.{if◌then◌else◌}
use elsa_fyp.Prelude.Faults.{Outcome, ok, err, Fault, ◌>>=◌, ◌>>◌, require, or_fault, int32, int64}
use elsa_fyp.Prelude.Int.{ℤ}
use native.Mathlib.Omega.{arith}

-- If the call returns, its value satisfies `P`.
abbrev pub Ensures : {A : Type 0} → (A → Type 0) → Outcome A → Type 0
Ensures P (ok a) = P a
Ensures P (err e) = Unit

module _ {A : Type 0} (P : A → Type 0) where
  pub Ensures-ok : (m : Outcome A) {a : A} → Ensures P m → m ≡ ok a → P a
  Ensures-ok m h e = subst (Ensures P) e h

  pub Ensures-require :
      (b : Bool) (e : Fault) (k : Outcome A)
      → (b ≡ true → Ensures P k)
      → Ensures P (require b e >> k)
  Ensures-require true e k h = h refl
  Ensures-require false e k h = tt

  pub Ensures-if :
      (b : Bool) (x y : Outcome A)
      → (b ≡ true → Ensures P x)
      → (b ≡ false → Ensures P y)
      → Ensures P (if b then x else y)
  Ensures-if true x y h k = h refl
  Ensures-if false x y h k = k refl

module _ {A B : Type 0} (P : B → Type 0) where
  pub Ensures-bind :
      (Q : A → Type 0) (m : Outcome A) (f : A → Outcome B)
      → Ensures Q m
      → ((a : A) → Q a → Ensures P (f a))
      → Ensures P (m >>= f)
  Ensures-bind Q (ok a) f h k = k a h
  Ensures-bind Q (err e) f h k = tt

  pub Ensures-or_fault :
      (o : Option A) (e : Fault) (f : A → Outcome B)
      → ((a : A) → o ≡ some a → Ensures P (f a))
      → Ensures P (or_fault o e >>= f)
  Ensures-or_fault none e f k = tt
  Ensures-or_fault (some a) e f k = k a refl

  -- with nothing known of the value but where it comes from
  pub Ensures-step :
      (m : Outcome A) (f : A → Outcome B)
      → ((a : A) → m ≡ ok a → Ensures P (f a))
      → Ensures P (m >>= f)
  Ensures-step (ok a) f k = k a refl
  Ensures-step (err e) f k = tt

module _ {A : Type 0} (P Q : A → Type 0) where
  pub Ensures-mono : (m : Outcome A) → Ensures Q m → ((a : A) → Q a → P a) → Ensures P m
  Ensures-mono (ok a) h k = k a h
  Ensures-mono (err e) h k = tt

-- The call returns.
abbrev pub Succeeds : {A : Type 0} → Outcome A → Type 0
Succeeds (ok a) = Unit
Succeeds (err e) = ⊥

module _ {A : Type 0} where
  pub Succeeds-ok : (m : Outcome A) → Succeeds m → (a : A) × (m ≡ ok a)
  Succeeds-ok (ok a) h = (a, refl)
  Succeeds-ok (err e) h = absurd h

  pub Succeeds-require :
      (b : Bool) (e : Fault) (k : Outcome A) → b ≡ true → Succeeds k → Succeeds (require b e >> k)
  Succeeds-require true e k q h = h
  Succeeds-require false e k q h = cc

  pub Succeeds-if :
      (b : Bool) (x y : Outcome A)
      → (b ≡ true → Succeeds x)
      → (b ≡ false → Succeeds y)
      → Succeeds (if b then x else y)
  Succeeds-if true x y h k = h refl
  Succeeds-if false x y h k = k refl

module _ {A B : Type 0} where
  pub Succeeds-bind :
      (m : Outcome A) (f : A → Outcome B)
      → Succeeds m
      → ((a : A) → m ≡ ok a → Succeeds (f a))
      → Succeeds (m >>= f)
  Succeeds-bind (ok a) f h k = k a refl
  Succeeds-bind (err e) f h k = absurd h

  pub Succeeds-or_fault :
      (o : Option A) (e : Fault) (f : A → Outcome B) {a : A}
      → o ≡ some a
      → Succeeds (f a)
      → Succeeds (or_fault o e >>= f)
  Succeeds-or_fault none e f q h = cc
  Succeeds-or_fault (some b) e f q h = subst (λ c. Succeeds (f c)) (some-injective _ _ (sym q)) h

-- A value that is in range is returned as it is.
pub int32-eq : (z : ℤ) → Ensures (λ w. w ≡ z) (int32 z)
int32-eq z = ground arith

pub int64-eq : (z : ℤ) → Ensures (λ w. w ≡ z) (int64 z)
int64-eq z = ground arith
