-- ===== src/Common/Outcome.antt =====
-- How a call ends: with a value, or with one of the ways in which the C++ code fails to return.
use mathlib.Core.Path.{◌≡◌, refl}
use mathlib.Core.Logic.{◌⊎◌, inl, inr}
use mathlib.Core.Option.{Option, none, some}
use mathlib.Core.Bool.{Bool, true, false}

-- `out_of_bounds` (an access outside an object), `overlap` (a memcpy between overlapping ranges),
-- `null_pointer` and `use_after_free` are undefined behaviour; `invalid_parameter` is the C
-- runtime's handler, which ends the process; `deadlock` is a lock taken again by the thread that
-- holds it; `out_of_fuel` is a loop that is still running; `bad_delete` deletes what `new` did not
-- make, which is undefined too; `terminated` is `std::terminate`, for an exception that leaves a
-- destructor.
pub data Error : Type 0 where
  out_of_bounds overlap null_pointer use_after_free : Error
  invalid_parameter deadlock out_of_fuel : Error
  bad_delete terminated : Error

-- A call that returns gives a value; else it fails in one of these ways.
pub data Result {ℓ} (A : Type ℓ) : Type ℓ where
  err : Error → Result A
  ok : A → Result A

module _ {ℓ} {B : Type ℓ} where
  infixl 5 ◌>>◌ ◌>>=◌
  -- What follows a call is run on its value.
  abbrev pub ◌>>=◌ {κ} : {A : Type κ} → Result A → (A → Result B) → Result B
  err fault >>= next = err fault
  ok value >>= next = next value

  abbrev pub ◌>>◌ : Result (Unit {0}) → Result B → Result B
  err fault >> later = err fault
  ok done >> later = later

  -- What is wanted of a pointer or a search that may find nothing.
  abbrev pub or_fail : Option B → Error → Result B
  or_fail (some found) fault = ok found
  or_fail none fault = err fault

-- Goes on only if the test passes.
abbrev pub require : Bool → Error → Result (Unit {0})
require passes fault = elim passes [ true ↦ ok tt | false ↦ err fault ]

module _ {ℓ} {A : Type ℓ} where
  pub Result-cases : (r : Result A) → ((a : A) × (r ≡ ok a)) ⊎ ((e : Error) × (r ≡ err e))
  Result-cases (ok value) = inl (value, refl)
  Result-cases (err fault) = inr (fault, refl)

  -- A chain that returns has returned from its first call.
  pub >>=-eq-ok {κ} :
      {B : Type κ} (first : Result A) (next : A → Result B) {last : B}
      → (first >>= next) ≡ ok last
      → (a : A) × (first ≡ ok a) × (next a ≡ ok last)
  >>=-eq-ok (err fault) next e = cc
  >>=-eq-ok (ok value) next e = (value, refl, e)
