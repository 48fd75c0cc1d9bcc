-- ===== src/Base/Xor.antt =====
-- Laws of `bit_xor` at variables, from its recursion on binary digits.
use Prim.Native.Nat.{
  ℕ, zero, suc, ◌+◌, ◌-◌, ◌*◌, ◌/◌, ◌%◌, ◌^◌, ◌≤◌, ◌<◌, bit_xor, digits, differ, bit_xor-bitwise,
}
use mathlib.Core.Path.{◌≡◌, refl, sym, ap, ◌∙◌}
use native.Mathlib.Nat.{le_refl, pow-suc, mul_comm, div-div-eq-div-mul}
use native.Mathlib.Omega.{arith}

differ-sub : (x y : ℕ) → differ x y ≡ (x - y) + (y - x)
differ-sub zero y = omega arith
differ-sub (suc x) zero = omega arith
differ-sub (suc x) (suc y) = omega (arith, differ-sub x y)

xor_fuel :
    (f g x y : ℕ) → x ≤ f → x ≤ g → digits (λ t. t) differ f x y ≡ digits (λ t. t) differ g x y
xor_fuel zero zero x y s t = refl
xor_fuel f zero (suc x) y s t = absurd (omega arith)
xor_fuel zero (suc g) (suc x) y s t = absurd (omega arith)
xor_fuel zero (suc g) zero y s t = refl
xor_fuel (suc f) zero zero y s t = refl
xor_fuel (suc f) (suc g) zero y s t = refl
xor_fuel (suc f) (suc g) (suc x) y s t =
    let half = suc x / 2 in rw (xor_fuel f g half (y / 2) (omega arith) (omega arith))

pub zero-xor : (b : ℕ) → bit_xor 0 b ≡ b
zero-xor b = bit_xor-bitwise 0 b

pub xor_step :
    (a b : ℕ) → bit_xor a b ≡ bit_xor (a / 2) (b / 2) * 2 + ((a % 2 - b % 2) + (b % 2 - a % 2))
xor_step zero b = omega (arith, zero-xor b, zero-xor (b / 2))
xor_step (suc a) b = omega (
  arith,
  bit_xor-bitwise (suc a) b,
  bit_xor-bitwise (suc a / 2) (b / 2),
  xor_fuel a (suc a / 2) (suc a / 2) (b / 2) (omega arith) (le_refl _),
  differ-sub (suc a % 2) (b % 2),
)

xor_half : (a b : ℕ) → bit_xor a b / 2 ≡ bit_xor (a / 2) (b / 2)
xor_half a b = omega (arith, xor_step a b)

-- `bit_xor a` is its own inverse.
xor_cancel_fuel : (n a b : ℕ) → a ≤ n → b ≤ n → bit_xor a (bit_xor a b) ≡ b
xor_cancel_fuel zero zero b p q = rw (zero-xor (bit_xor 0 b), zero-xor b)
xor_cancel_fuel zero (suc a) b p q = absurd (omega arith)
xor_cancel_fuel (suc n) a b p q = omega (
  arith,
  xor_step a b,
  xor_step a (bit_xor a b),
  xor_cancel_fuel n (a / 2) (b / 2) (omega arith) (omega arith),
  ap (λ (t : ℕ). bit_xor (a / 2) t) (xor_half a b),
)

pub xor_cancel : (a b : ℕ) → bit_xor a (bit_xor a b) ≡ b
xor_cancel a b = xor_cancel_fuel (a + b) a b (omega arith) (omega arith)

pub xor_injective : (a : ℕ) {b c : ℕ} → bit_xor a b ≡ bit_xor a c → b ≡ c
xor_injective a {b} {c} e = sym (xor_cancel a b) ∙ ap (bit_xor a) e ∙ xor_cancel a c

-- Shifting right commutes with `bit_xor`.
halve : (k x : ℕ) → x / 2 ^ suc k ≡ x / 2 / 2 ^ k
halve k x = rw (div-div-eq-div-mul, pow-suc 2 k, mul_comm 2)

pub xor_shift : (k a b : ℕ) → bit_xor a b / 2 ^ k ≡ bit_xor (a / 2 ^ k) (b / 2 ^ k)
xor_shift zero a b =
    let same : (x : ℕ) → x / 1 ≡ x = λ x. omega arith in rw (same (bit_xor a b), same a, same b)
xor_shift (suc k) a b = rw (halve k (bit_xor a b), halve k a, halve k b, xor_half, xor_shift k)

pub xor-lt : (k a b : ℕ) → a < 2 ^ k → b < 2 ^ k → bit_xor a b < 2 ^ k
xor-lt zero zero zero p q = omega (arith, zero-xor 0)
xor-lt zero (suc a) b p q = absurd (omega arith)
xor-lt zero zero (suc b) p q = absurd (omega arith)
xor-lt (suc k) a b p q = omega (
  arith,
  pow-suc 2 k,
  xor_step a b,
  xor-lt k (a / 2) (b / 2) (omega (arith, pow-suc 2 k)) (omega (arith, pow-suc 2 k)),
)
