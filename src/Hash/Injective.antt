-- ===== src/Hash/Injective.antt =====
-- `hash_uint` of skel/utils.c on 32-bit server ids.
use Prim.Native.Nat.{bit_xor}
use hashring_load_balancer.Base.{
  ℕ, ◌*◌, ◌/◌, ◌%◌, ◌^◌, ◌<◌, ◌≡◌, sym, ap, ◌∙◌, arith, List, [], ◌∷◌,
}
use hashring_load_balancer.Base.Xor.{zero-xor, xor_injective, xor_shift, xor-lt}
use hashring_load_balancer.Hash.{word, factor, xor_high, hash_uint, hash_bytes, hash_string}

xor_high-lt : (x : ℕ) → x < word → xor_high x < word
unfolding xor_high
xor_high-lt x h = xor-lt 32 (x / 2 ^ 16) x (omega arith) h

-- The upper half survives, so the lower half can be recovered.
xor_high_upper : (x : ℕ) → x < word → xor_high x / 2 ^ 16 ≡ x / 2 ^ 16
unfolding xor_high
xor_high_upper x h =
    let gone : x / 2 ^ 16 / 2 ^ 16 ≡ 0 = omega arith in
    rw (xor_shift 16 (x / 2 ^ 16) x, gone, zero-xor)

xor_high_injective : (x y : ℕ) → x < word → y < word → xor_high x ≡ xor_high y → x ≡ y
unfolding xor_high
xor_high_injective x y p q e =
    let upper : x / 2 ^ 16 ≡ y / 2 ^ 16 =
      sym (xor_high_upper x p) ∙ ap (λ (t : ℕ). t / 2 ^ 16) e ∙ xor_high_upper y q in
    xor_injective (x / 2 ^ 16) (e ∙ ap (λ (t : ℕ). bit_xor t y) (sym upper))

mul_factor_injective :
    (x y : ℕ) → x < word → y < word → x * factor % word ≡ y * factor % word → x ≡ y
mul_factor_injective x y p q e = omega arith

pub hash_uint-lt : (x : ℕ) → x < word → hash_uint x < word
unfolding hash_uint
hash_uint-lt x h = xor_high-lt _ (omega arith)

-- Distinct 32-bit ids have distinct hashes.
pub hash_uint_injective : (x y : ℕ) → x < word → y < word → hash_uint x ≡ hash_uint y → x ≡ y
unfolding hash_uint
hash_uint_injective x y p q e =
    let mixed = λ (t : ℕ). xor_high t * factor % word in
    let small : (t : ℕ) → mixed t < word = λ t. omega arith in
    let mixed_injective : (s t : ℕ) → s < word → t < word → mixed s ≡ mixed t → s ≡ t = λ s t a b c.
      xor_high_injective s t a b (mul_factor_injective _ _ (xor_high-lt s a) (xor_high-lt t b) c) in
    mixed_injective x y p q (
      mixed_injective _ _ (small x) (small y)
        (xor_high_injective _ _ (small (mixed x)) (small (mixed y)) e))

hash_bytes-lt : (key : List ℕ) (hash : ℕ) → hash < word → hash_bytes hash key < word
unfolding hash_bytes
hash_bytes-lt [] hash h = h
hash_bytes-lt (c ∷ key) hash h = hash_bytes-lt key _ (omega arith)

pub hash_string-lt : (key : List ℕ) → hash_string key < word
unfolding hash_string
hash_string-lt key = hash_bytes-lt key 5381 (omega arith)
