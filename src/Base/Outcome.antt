-- ===== src/Base/Outcome.antt =====
-- The outcomes of code that can fail.
use mathlib.Core.Bool.{Bool, true, false}
use mathlib.Core.Path.{◌≡◌}

-- `check_failed` is a failed `DCHECK`, `CHECK` or `assert`, `out_of_range` the exception of
-- `std::map::at`, `aborted` a call of `abort`, `undefined` an access outside an object, and
-- `out_of_fuel` a loop that is still running when the model stops following it.
pub data Fault : Type 0 where
  check_failed out_of_range aborted undefined out_of_fuel : Fault

infixl 5 ◌>>=◌ ◌>>◌
pub data Run {ℓ} (Result : Type ℓ) : Type ℓ where
  fault : Fault → Run Result
  ok : Result → Run Result

-- The run of the first part, and of the second one if there was no fault.
abbrev pub ◌>>=◌ {ℓ κ} : {A : Type ℓ} {B : Type κ} → Run A → (A → Run B) → Run B
fault why >>= next = fault why
ok x >>= next = next x

abbrev pub ◌>>◌ {ℓ} : {B : Type ℓ} → Run (Unit {0}) → Run B → Run B
m >> k = m >>= λ _. k

abbrev pub check : Bool → Fault → Run (Unit {0})
check true e = ok tt
check false e = fault e

abbrev pub Returns {ℓ κ} : {A : Type ℓ} → Run A → (A → Type κ) → Type (ℓ ⊔ κ)
Returns {A} run P = (x : A) × (run ≡ ok x) × P x
