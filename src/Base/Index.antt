-- ===== src/Base/Index.antt =====
-- Reads after a write, an insertion or a removal, in one equation each.
use Prim.Native.Nat.{ℕ, zero, suc, ◌+◌, ◌-◌, ◌≤◌, ◌<◌}
use mathlib.Core.Path.{◌≡◌, refl}
use mathlib.Core.List.{List, [], ◌∷◌}
use mathlib.Core.Option.{none, some}
use native.Mathlib.Omega.{arith}
use hashring_load_balancer.Base.Lists.{length, get_elem?, set, insert_at, erase_at}
use hashring_load_balancer.Base.Tests.{ltb, ◌==◌, if◌then◌else◌}

module _ {ℓ} {A : Type ℓ} where
  pub get_elem?-set :
      (xs : List A) (i j : ℕ) (v : A)
      → i < length xs
      → get_elem? (set xs i v) j ≡ (if j == i then some v else get_elem? xs j)
  get_elem?-set [] i j v h = absurd (omega arith)
  get_elem?-set (x ∷ xs) zero zero v h = refl
  get_elem?-set (x ∷ xs) zero (suc j) v h = ground arith
  get_elem?-set (x ∷ xs) (suc i) zero v h = ground arith
  get_elem?-set (x ∷ xs) (suc i) (suc j) v h = ground (arith, get_elem?-set xs i j v)

  pub get_elem?-none : (xs : List A) (i : ℕ) → length xs ≤ i → get_elem? xs i ≡ none
  get_elem?-none [] i h = refl
  get_elem?-none (x ∷ xs) zero h = absurd (omega arith)
  get_elem?-none (x ∷ xs) (suc i) h = get_elem?-none xs i (omega arith)

  get_elem?-pred :
      (x : A) (xs : List A) (i : ℕ) → 0 < i → get_elem? (x ∷ xs) i ≡ get_elem? xs (i - 1)
  get_elem?-pred x xs zero h = absurd (omega arith)
  get_elem?-pred x xs (suc i) h = let e : suc i - 1 ≡ i = omega arith in rw e

  pub get_elem?-insert_at :
      (xs : List A) (k i : ℕ) (v : A)
      → k ≤ length xs
      → get_elem? (insert_at xs k v) i
        ≡ (if ltb i k then get_elem? xs i else if i == k then some v else get_elem? xs (i - 1))
  get_elem?-insert_at [] zero zero v h = refl
  get_elem?-insert_at [] zero (suc i) v h = ground arith
  get_elem?-insert_at [] (suc k) i v h = absurd (omega arith)
  get_elem?-insert_at (x ∷ xs) zero zero v h = refl
  get_elem?-insert_at (x ∷ xs) zero (suc i) v h =
      let e : suc i - 1 ≡ i = omega arith in rw e (ground arith)
  get_elem?-insert_at (x ∷ xs) (suc k) zero v h = ground arith
  get_elem?-insert_at (x ∷ xs) (suc k) (suc i) v h =
      let e : suc i - 1 ≡ i = omega arith in
      rw e (ground (arith, get_elem?-insert_at xs k i v, get_elem?-pred x xs i))

  pub get_elem?-erase_at :
      (xs : List A) (k i : ℕ)
      → get_elem? (erase_at xs k) i ≡ (if ltb i k then get_elem? xs i else get_elem? xs (i + 1))
  get_elem?-erase_at [] k i = ground arith
  get_elem?-erase_at (x ∷ xs) zero i = let e : i + 1 ≡ suc i = omega arith in ground arith
  get_elem?-erase_at (x ∷ xs) (suc k) zero = ground arith
  get_elem?-erase_at (x ∷ xs) (suc k) (suc i) =
      let e : suc i + 1 ≡ suc (i + 1) = omega arith in
      rw e (ground (arith, get_elem?-erase_at xs k i))
