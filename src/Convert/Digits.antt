-- ===== src/Convert/Digits.antt =====
-- `&` on the native numbers: it is at most its mask, and with a mask of low bits it is a remainder.
use Prim.Native.Nat.{min, digits, bit_and, bit_and-bitwise}
use native.Mathlib.Nat.{pow-suc, one-le-pow}
use avacadovnc.Common.{ℕ, zero, suc, ◌+◌, ◌-◌, ◌*◌, ◌/◌, ◌%◌, ◌^◌, ◌≤◌, ◌<◌, ◌≡◌, refl, ap, arith}

abbrev common : ℕ → ℕ → ℕ → ℕ
common n a b = digits (λ b. 0) min n a b

common_le : (n a b : ℕ) → common n a b ≤ b
common_le zero a b = omega arith
common_le (suc n) zero b = omega arith
common_le (suc n) (suc a) b = omega (arith, common_le n (suc a / 2) (b / 2))

pub bit_and_le : (a b : ℕ) → bit_and a b ≤ b
bit_and_le a b = simp bit_and-bitwise (common_le a a b)

double_pow : (q k : ℕ) → q * 2 ^ suc k ≡ 2 * (q * 2 ^ k)
double_pow q k = omega (arith, ap (λ (t : ℕ). q * t) (pow-suc 2 k))

common_low :
    (n a b q r k : ℕ) → r < 2 ^ k → b ≡ 2 ^ k - 1 → a ≡ q * 2 ^ k + r → a ≤ n → common n a b ≡ r
common_low zero a b q r k h f e le = omega arith
common_low (suc n) zero b q r k h f e le = omega arith
common_low (suc n) (suc a) b q r zero h f e le = omega (arith, common_le n (suc a / 2) (b / 2))
common_low (suc n) (suc a) b q r (suc k) h f e le =
    let double : 2 ^ suc k ≡ 2 ^ k * 2 = pow-suc 2 k in
    let halved : common n (suc a / 2) (b / 2) ≡ r / 2 =
      common_low n (suc a / 2) (b / 2) q (r / 2) k (omega arith) (omega (arith, one-le-pow k 2))
        (omega (arith, double_pow q k)) (omega arith) in
    omega (arith, double_pow q k, one-le-pow k 2)

-- A mask of the `k` lowest bits leaves the remainder by `2 ^ k`.
pub bit_and_low : (a k : ℕ) → bit_and a (2 ^ k - 1) ≡ a % 2 ^ k
bit_and_low a k =
    let positive = one-le-pow k 2 in
    simp bit_and-bitwise (
      common_low a a (2 ^ k - 1) (a / 2 ^ k) (a % 2 ^ k) k (ground arith) refl (ground arith)
        (omega arith))
