-- ===== src/Prelude/Outcome.antt =====
-- Exceptions as values. A `raise` is `err`; the text is the message up to its interpolated part.
use Prim.Native.String.{String}
use mathlib.Core.Path.{◌≡◌, refl}
use mathlib.Core.Logic.{◌⊎◌, inl, inr}
use mathlib.Core.Bool.{Bool, true, false}
use native.Mathlib.Omega.{arith}

pub data Exn : Type 0 where
  value_error : String → Exn
  transition_error : String → Exn
  frame_corrupt : String → Exn
  slot_store_error : String → Exn
  struct_error : String → Exn
  os_error : String → Exn
  -- `SequenceAuthorityError` and two of its subclasses
  authority_error : String → Exn
  reconciliation_required : String → Exn
  provenance_required : String → Exn
  -- an exception that is not a `ValueError` and has no class of its own here
  other_error : String → Exn

-- `except ValueError` catches the subclasses too.
abbrev pub is_value_error : Exn → Bool
is_value_error (value_error m) = true
is_value_error (transition_error m) = true
is_value_error (frame_corrupt m) = true
is_value_error (slot_store_error m) = true
is_value_error (struct_error m) = false
is_value_error (os_error m) = false
is_value_error (authority_error m) = false
is_value_error (reconciliation_required m) = false
is_value_error (provenance_required m) = false
is_value_error (other_error m) = false

pub data Result {ℓ} (A : Type ℓ) : Type ℓ where
  err : Exn → Result A
  ok : A → Result A

abbrev pub is_ok {ℓ} : {A : Type ℓ} → Result A → Bool
is_ok (ok value) = true
is_ok (err failure) = false

-- A procedure that returns nothing.
abbrev pub Check : Type 0
Check = Result (Unit {0})

-- What follows a statement: its value goes on, its exception ends the rest.
infixl 5 ◌>>◌ ◌>>=◌
abbrev pub ◌>>◌ {ℓ} : {B : Type ℓ} → Check → Result B → Result B
err failure >> rest = err failure
ok done >> rest = rest

abbrev pub ◌>>=◌ {ℓ κ} : {A : Type ℓ} {B : Type κ} → Result A → (A → Result B) → Result B
err failure >>= rest = err failure
ok value >>= rest = rest value

-- `if failed: raise e`
abbrev pub raise_if : Bool → Exn → Check
raise_if true e = err e
raise_if false e = ok tt

-- A statement that succeeds has passed its value on.
pub >>=-eq-ok {ℓ κ} :
    {A : Type ℓ} {B : Type κ} (first : Result A) (rest : A → Result B) {result : B}
    → (first >>= rest) ≡ ok result
    → (value : A) × (first ≡ ok value) × (rest value ≡ ok result)
>>=-eq-ok (err failure) rest h = ground arith
>>=-eq-ok (ok value) rest h = (value, refl, h)

pub Result-cases {ℓ} :
    {A : Type ℓ} (r : Result A) → ((a : A) × (r ≡ ok a)) ⊎ ((e : Exn) × (r ≡ err e))
Result-cases (ok a) = inl (a, refl)
Result-cases (err e) = inr (e, refl)
