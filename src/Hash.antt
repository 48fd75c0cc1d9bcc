-- ===== src/Hash.antt =====
-- The hash functions and the request types of skel/utils.c. `unsigned int` is 32 bits wide and
-- wraps; a C string is the list of its bytes before the terminating zero.
pub mod Injective
mod Tests
use Prim.Native.Nat.{bit_xor}
use hashring_load_balancer.Base.{ℕ, ◌+◌, ◌*◌, ◌/◌, ◌%◌, ◌^◌, List, [], ◌∷◌}

abbrev pub word : ℕ
word = 2 ^ 32

-- `((x >> 16u) ^ x)`
unfoldable pub xor_high : ℕ → ℕ
xor_high x = bit_xor (x / 2 ^ 16) x

abbrev pub factor : ℕ
factor = 0x45d9f3b

unfoldable pub hash_uint : ℕ → ℕ
unfolding xor_high
hash_uint key =
    let k1 = xor_high key * factor % word in let k2 = xor_high k1 * factor % word in xor_high k2

-- the `while` loop, from the hash so far
unfoldable pub hash_bytes : ℕ → List ℕ → ℕ
hash_bytes hash [] = hash
hash_bytes hash (c ∷ key) = hash_bytes ((hash * 2 ^ 5 % word + hash + c) % word) key

unfoldable pub hash_string : List ℕ → ℕ
unfolding hash_bytes
hash_string key = hash_bytes 5381 key
