-- ===== src/Strings.antt =====
-- `compare_string` of skel/utils.c, and the key functions that skel/server.c and skel/lru_cache.c
-- give to their hash maps. A C string is the list of its bytes before the terminating zero.
use hashring_load_balancer.Base.{ℕ, ◌≡◌, ◌↔◌, refl, true, ltb, if◌then◌else◌, List, [], ◌∷◌, arith}
use hashring_load_balancer.Base.Int.{ℤ, pos, negsuc, is_zero}
use hashring_load_balancer.Hash.{hash_string}
use hashring_load_balancer.HashMap.KeyFunctions.{Key}

-- `strcmp`: the sign of the first difference, where the terminating zero is below every byte
unfoldable pub compare_string : List ℕ → List ℕ → ℤ
compare_string [] [] = pos 0
compare_string [] (d ∷ t) = negsuc 0
compare_string (c ∷ s) [] = pos 1
compare_string (c ∷ s) (d ∷ t) =
    if ltb c d then negsuc 0 else if ltb d c then pos 1 else compare_string s t

pub compare_string_iff : (s t : List ℕ) → (is_zero (compare_string s t) ≡ true) ↔ (s ≡ t)
unfolding compare_string
compare_string_iff [] [] = (λ h. refl, λ e. refl)
compare_string_iff [] (d ∷ t) = (λ h. cc, λ e. cc)
compare_string_iff (c ∷ s) [] = (λ h. cc, λ e. cc)
compare_string_iff (c ∷ s) (d ∷ t) =
    let rest = compare_string_iff s t in (λ h. ground (arith, rest.0), λ e. ground (arith, rest.1))

-- `hm_init(HASHMAP_SIZE, hash_string, compare_string, …)`
instance abbrev pub string_key : Key (List ℕ)
string_key = record {
  hash = hash_string;
  compare = compare_string;
  compare_iff = compare_string_iff;
}

-- HASHMAP_SIZE of skel/constants.h
abbrev pub hashmap_size : ℕ
hashmap_size = 0x26f5
