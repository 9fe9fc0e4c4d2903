-- ===== src/Prelude/Faults.antt =====
-- Calls that can end the process, or an exception that no caller catches.
use elsa_fyp.Prelude.Tests.{if◌then◌else◌, leb}
use elsa_fyp.Prelude.Int.{ℤ, leb_ℤ, pos, negsuc}
use Prim.Native.Nat.{ℕ}
use mathlib.Core.Path.{◌≡◌, refl, ap}
use mathlib.Core.Bool.{Bool, true, false, ◌&&◌}
use mathlib.Core.Option.{Option, none, some}

-- What a call can fail with: a Boost contract, an assertion, a signed overflow or a write past the
-- end of an array (undefined in C++),
-- an `at` on a missing key, a `value` of an empty optional, `std::terminate`, three exceptions of the
-- standard library and one of QuickFIX.
pub data Fault : Type 0 where
  contract assertion overflow out_of_bounds out_of_range bad_optional terminate : Fault
  invalid_argument logic_error runtime_error field_not_found : Fault

-- What `catch (const std::exception &)` catches. The others end the process.
abbrev pub is_exception : Fault → Bool
is_exception Fault.out_of_range = true
is_exception Fault.bad_optional = true
is_exception Fault.invalid_argument = true
is_exception Fault.logic_error = true
is_exception Fault.runtime_error = true
is_exception Fault.field_not_found = true
is_exception _ = false

pub data Outcome (A : Type 0) : Type 0 where
  ok : A → Outcome A
  err : Fault → Outcome A

infixl 5 ◌>>=◌ ◌>>◌
abbrev pub ◌>>=◌ : {A B : Type 0} → Outcome A → (A → Outcome B) → Outcome B
ok a >>= f = f a
err e >>= f = err e

abbrev pub ◌>>◌ : {B : Type 0} → Outcome (Unit {0}) → Outcome B → Outcome B
m >> k = m >>= λ _. k

abbrev pub require : Bool → Fault → Outcome (Unit {0})
require true e = ok tt
require false e = err e

abbrev pub or_fault : {A : Type 0} → Option A → Fault → Outcome A
or_fault none e = err e
or_fault (some a) e = ok a

-- INT_MAX of a 32-bit `int`, and of `int64_t`
abbrev pub int_max : ℕ
int_max = 2147483647

abbrev pub int64_max : ℕ
int64_max = 9223372036854775807

-- The value of a signed expression, if it can be represented.
abbrev pub int32 : ℤ → Outcome ℤ
int32 z = if leb_ℤ z (pos int_max) && leb_ℤ (negsuc int_max) z then ok z else err overflow

abbrev pub int64 : ℤ → Outcome ℤ
int64 z = if leb_ℤ z (pos int64_max) && leb_ℤ (negsuc int64_max) z then ok z else err overflow

-- The same for a value that is known not to be negative.
abbrev pub nat32 : ℕ → Outcome ℕ
nat32 n = if leb n int_max then ok n else err overflow

-- A chain that succeeds has a first step that succeeds.
pub >>=-eq-ok :
    {A B : Type 0} (first : Outcome A) (next : A → Outcome B) {result : B}
    → (first >>= next) ≡ ok result
    → (value : A) × (first ≡ ok value) × (next value ≡ ok result)
>>=-eq-ok (err e) next chain = cc
>>=-eq-ok (ok value) next chain = (value, refl, chain)

abbrev value_or : {A : Type 0} → A → Outcome A → A
value_or a (ok b) = b
value_or a (err e) = a

pub ok-injective : {A : Type 0} {a b : A} → ok a ≡ ok b → a ≡ b
ok-injective {a = a} e = ap (value_or a) e
