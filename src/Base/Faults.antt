-- ===== src/Base/Faults.antt =====
-- Runs of C code that may go wrong: a null or stray pointer, an access out of bounds, a division
-- by zero, a sum that is too large for an `int`, an uninitialised slot, an abort by `exit`, or a loop
-- that used up its fuel.
use mathlib.Core.Path.{◌≡◌}

pub data Fault : Type 0 where
  null_pointer out_of_bounds uninitialised division_by_zero int_overflow aborted out_of_fuel : Fault

pub data Run {ℓ} (A : Type ℓ) : Type ℓ where
  ok : A → Run A
  fault : Fault → Run A

-- A fault ends the run.
infixl 5 ◌>>=◌
abbrev pub ◌>>=◌ {ℓ κ} : {S : Type ℓ} {T : Type κ} → Run S → (S → Run T) → Run T
fault why >>= next = fault why
ok result >>= next = next result

-- The run ends without a fault, in a result with the property `Post`.
abbrev pub Returns {ℓ κ} : {T : Type ℓ} → Run T → (T → Type κ) → Type (ℓ ⊔ κ)
Returns {T} run Post = (result : T) × (run ≡ ok result) × Post result
