-- ===== src/Base/Xor.antt =====
-- Exclusive or with nothing, and with a mask of ones.
use Prim.Native.Nat.{
  ℕ, zero, suc, ◌+◌, ◌-◌, ◌/◌, ◌%◌, ◌^◌, ◌≤◌, ◌<◌, bit_xor, bit_xor-bitwise, digits, differ,
}
use mathlib.Core.Path.{◌≡◌, refl, ◌∙◌}
use native.Mathlib.Omega.{arith}
use native.Mathlib.Nat.{pow-suc, le_refl}

abbrev xor_digits : ℕ → ℕ → ℕ → ℕ
xor_digits n a b = digits (λ d. d) differ n a b

differ-zero : (x : ℕ) → differ x 0 ≡ x
differ-zero zero = refl
differ-zero (suc x) = refl

differ-one : (x : ℕ) → x < 2 → differ x 1 ≡ 1 - x
differ-one zero h = omega arith
differ-one (suc zero) h = refl
differ-one (suc (suc x)) h = absurd (omega arith)

xor_digits-zero : (n a : ℕ) → a ≤ n → xor_digits n a 0 ≡ a
xor_digits-zero zero zero h = refl
xor_digits-zero zero (suc a) h = absurd (omega arith)
xor_digits-zero (suc n) zero h = refl
xor_digits-zero (suc n) (suc a) h =
    omega (arith, xor_digits-zero n (suc a / 2) (omega arith), differ-zero (suc a % 2))

xor_digits-ones : (n a k m : ℕ) → a ≤ n → m + 1 ≡ 2 ^ k → a < 2 ^ k → xor_digits n a m ≡ m - a
xor_digits-ones zero zero k m h e lt = omega arith
xor_digits-ones zero (suc a) k m h e lt = absurd (omega arith)
xor_digits-ones (suc n) zero k m h e lt = omega arith
xor_digits-ones (suc n) (suc a) zero m h e lt = absurd (omega arith)
xor_digits-ones (suc n) (suc a) (suc k) m h e lt =
    let p = pow-suc 2 k in
    let odd : m % 2 ≡ 1 = omega arith in
    let ih = xor_digits-ones n (suc a / 2) k (m / 2) (omega arith) (omega arith) (omega arith) in
    let d : differ (suc a % 2) (m % 2) ≡ 1 - suc a % 2 =
      rw odd (differ-one (suc a % 2) (omega arith)) in
    omega (arith, ih, d)

pub xor-zero : (a : ℕ) → bit_xor a 0 ≡ a
xor-zero a = bit_xor-bitwise a 0 ∙ xor_digits-zero a a (le_refl a)

-- With a mask of k ones every digit of a k-digit number is flipped.
pub xor-ones : (a k m : ℕ) → m + 1 ≡ 2 ^ k → a < 2 ^ k → bit_xor a m ≡ m - a
xor-ones a k m e lt = bit_xor-bitwise a m ∙ xor_digits-ones a a k m (le_refl a) e lt
