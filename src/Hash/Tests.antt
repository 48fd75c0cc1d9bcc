-- ===== src/Hash/Tests.antt =====
-- Runs of the hash functions, and the theorem on `hash_uint` at two ids.
use hashring_load_balancer.Base.{ℕ, ◌≡◌, refl, [], ◌∷◌, arith}
use hashring_load_balancer.Hash.{hash_uint, hash_string}
use hashring_load_balancer.Hash.Injective.{hash_uint_injective}

hash_uint_one : hash_uint 1 ≡ 824515495
unfolding hash_uint
hash_uint_one = refl

-- "ab"
hash_string_ab : hash_string (97 ∷ 98 ∷ []) ≡ 5863208
unfolding hash_string
hash_string_ab = refl

hash_uint_injective_example : ◌≡◌ {A = ℕ} 7 7
hash_uint_injective_example = hash_uint_injective 7 7 (omega arith) (omega arith) refl
