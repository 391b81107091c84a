-- ===== src/Wire/RoundTrip.antt =====
-- Decoding the bytes that were written gives the number back.
use avacadovnc.Common.{ℕ, ◌≡◌, length, arith, refl}
use avacadovnc.Wire.{IsU16, IsU32, be16, be32, be_value}

pub be_value-be16 : (n : ℕ) → IsU16 n → be_value (be16 n) ≡ n
unfolding be_value be16
be_value-be16 n h = omega arith

pub be_value-be32 : (n : ℕ) → IsU32 n → be_value (be32 n) ≡ n
unfolding be_value be32
be_value-be32 n h = omega arith

pub length-be16 : (n : ℕ) → length (be16 n) ≡ 2
unfolding be16
length-be16 n = refl

pub length-be32 : (n : ℕ) → length (be32 n) ≡ 4
unfolding be32
length-be32 n = refl
