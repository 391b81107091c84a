-- ===== src/Ppm/Slices.antt =====
-- The parts of an array.
use avacadovnc.Common.{
  ℕ, zero, suc, ◌+◌, ◌*◌, ◌≤◌, ◌≡◌, refl, sym, ◌∙◌, ap, List, [], ◌∷◌, ◌++◌, length, get_or, take,
  drop, arith,
}
use native.Mathlib.Nat.{suc-mul}

-- A part of an array.
abbrev pub slice : List ℕ → ℕ → ℕ → List ℕ
slice xs i m = take m (drop i xs)

take_nil : (n : ℕ) → take {A = ℕ} n [] ≡ []
take_nil zero = refl
take_nil (suc n) = refl

drop_nil : (n : ℕ) → drop {A = ℕ} n [] ≡ []
drop_nil zero = refl
drop_nil (suc n) = refl

zero_plus : (b : ℕ) → 0 + b ≡ b
zero_plus b = omega arith

suc_plus : (a b : ℕ) → suc a + b ≡ suc (a + b)
suc_plus a b = omega arith

take-add : (a b : ℕ) (xs : List ℕ) → take (a + b) xs ≡ take a xs ++ take b (drop a xs)
take-add zero b xs = ap (λ (n : ℕ). take n xs) (zero_plus b)
take-add (suc a) b [] = take_nil (suc a + b) ∙ sym (take_nil b)
take-add (suc a) b (x ∷ xs) =
    ap (λ (n : ℕ). take n (x ∷ xs)) (suc_plus a b) ∙ ap (λ (l : List ℕ). x ∷ l) (take-add a b xs)

drop-add : (a b : ℕ) (xs : List ℕ) → drop (a + b) xs ≡ drop b (drop a xs)
drop-add zero b xs = ap (λ (n : ℕ). drop n xs) (zero_plus b)
drop-add (suc a) b [] = drop_nil (suc a + b) ∙ sym (drop_nil b)
drop-add (suc a) b (x ∷ xs) = ap (λ (n : ℕ). drop n (x ∷ xs)) (suc_plus a b) ∙ drop-add a b xs

pub slice-add : (xs : List ℕ) (i a b : ℕ) → slice xs i (a + b) ≡ slice xs i a ++ slice xs (i + a) b
slice-add xs i a b =
    take-add a b (drop i xs) ∙ ap (λ (l : List ℕ). slice xs i a ++ take b l) (sym (drop-add i a xs))

slice_three :
    (xs : List ℕ) (i : ℕ)
    → i + 3 ≤ length xs
    → slice xs i 3 ≡ get_or xs i 0 ∷ get_or xs (i + 1) 0 ∷ get_or xs (i + 2) 0 ∷ []
slice_three [] i h = ground arith
slice_three (x ∷ []) zero h = ground arith
slice_three (x ∷ y ∷ []) zero h = ground arith
slice_three (x ∷ y ∷ z ∷ xs) zero h = ground arith
slice_three (x ∷ xs) (suc i) h = ground (arith, slice_three xs i)

-- The first pixel of a part, and the others.
pub slice_pixels :
    (xs : List ℕ) (i n : ℕ)
    → i + 3 ≤ length xs
    → get_or xs i 0 ∷ get_or xs (i + 1) 0 ∷ get_or xs (i + 2) 0 ∷ slice xs (i + 3) (n * 3)
      ≡ slice xs i (suc n * 3)
slice_pixels xs i n h =
    ap (λ (l : List ℕ). l ++ slice xs (i + 3) (n * 3)) (sym (slice_three xs i h))
    ∙ sym (slice-add xs i 3 (n * 3))
    ∙ ap (slice xs i) (counted n)
  where
    counted : (n : ℕ) → 3 + n * 3 ≡ suc n * 3
    counted n = omega (arith, suc-mul n 3)
