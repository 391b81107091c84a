-- ===== src/Images/Points.antt =====
-- Where the bytes of a pixel are, and that two pixels have none in common.
use avacadovnc.Common.{
  ℕ, zero, suc, ◌+◌, ◌*◌, ◌-◌, ◌≤◌, ◌<◌, ◌≡◌, ◌⊎◌, refl, List, [], ◌∷◌, if◌then◌else◌, ◌&&◌, ◌==◌,
  ltb, get_or, set, length, arith, ap, inl, inr,
}
use native.Mathlib.Nat.{mul-le-mul_right, mul_comm, suc-mul}
use avacadovnc.Canvas.{Rgba}
use avacadovnc.Images.{byte_of, put_four}

get_or-set :
    (xs : List ℕ) (i j v d : ℕ)
    → get_or (set xs i v) j d ≡ (if i == j && ltb i (length xs) then v else get_or xs j d)
get_or-set [] i j v d = ground arith
get_or-set (x ∷ xs) zero zero v d = ground arith
get_or-set (x ∷ xs) zero (suc j) v d = ground arith
get_or-set (x ∷ xs) (suc i) zero v d = ground arith
get_or-set (x ∷ xs) (suc i) (suc j) v d = ground (arith, get_or-set xs i j v d)

pub length-set : (xs : List ℕ) (i v : ℕ) → length (set xs i v) ≡ length xs
length-set [] i v = refl
length-set (x ∷ xs) zero v = refl
length-set (x ∷ xs) (suc i) v = omega (arith, length-set xs i v)

-- The four bytes that were written, and any other byte.
pub byte_of-put_four :
    (i j : ℕ) (c : Rgba) (array : List ℕ)
    → i + 3 < length array
    → byte_of (put_four i c array) j ≡ (
        if i == j
        then c.red
        else if i + 1 == j
        then c.green
        else if i + 2 == j
        then c.blue
        else if i + 3 == j
        then c.alpha
        else byte_of array j)
byte_of-put_four i j c array h =
    let s1 : List ℕ = set array i c.red in
    let s2 : List ℕ = set s1 (i + 1) c.green in
    let s3 : List ℕ = set s2 (i + 2) c.blue in
    ground (
      arith,
      get_or-set s3 (i + 3) j c.alpha 0,
      get_or-set s2 (i + 2) j c.blue 0,
      get_or-set s1 (i + 1) j c.green 0,
      get_or-set array i j c.red 0,
      length-set s2 (i + 2) c.blue,
      length-set s1 (i + 1) c.green,
      length-set array i c.red,
    )

pub length-put_four :
    (i : ℕ) (c : Rgba) (array : List ℕ) → length (put_four i c array) ≡ length array
length-put_four i c array =
    let s1 : List ℕ = set array i c.red in
    let s2 : List ℕ = set s1 (i + 1) c.green in
    let s3 : List ℕ = set s2 (i + 2) c.blue in
    omega (
      arith,
      length-set s3 (i + 3) c.alpha,
      length-set s2 (i + 2) c.blue,
      length-set s1 (i + 1) c.green,
      length-set array i c.red,
    )

-- The bytes of a pixel stay before the end of its row, and rows follow each other.
pub offset-lt :
    (a b w h s size len : ℕ)
    → a < h
    → b < w
    → (h - 1) * s + size * w ≤ len
    → a * s + b * size + size ≤ len
offset-lt a b w h s size len ha hb fits =
    let rows : a * s ≤ (h - 1) * s = mul-le-mul_right s (omega arith) in
    let columns : suc b * size ≤ w * size = mul-le-mul_right size (omega arith) in
    let turned : w * size ≡ size * w = mul_comm w size in
    let one_more : suc b * size ≡ b * size + size = suc-mul b size in
    omega (arith, rows, columns, turned, one_more, fits)

pub offset-apart :
    (a b a' b' w s size : ℕ)
    → b < w
    → size * w ≤ s
    → (a < a') ⊎ ((a ≡ a') × (b < b'))
    → a * s + b * size + size ≤ a' * s + b' * size
offset-apart a b a' b' w s size hb wide (inl lower) =
    let rows : suc a * s ≤ a' * s = mul-le-mul_right s (omega arith) in
    let columns : suc b * size ≤ w * size = mul-le-mul_right size (omega arith) in
    let turned : w * size ≡ size * w = mul_comm w size in
    let one_more : suc b * size ≡ b * size + size = suc-mul b size in
    let one_row : suc a * s ≡ a * s + s = suc-mul a s in
    omega (arith, rows, columns, turned, one_more, one_row, wide)
offset-apart a b a' b' w s size hb wide (inr (row, left)) =
    let columns : suc b * size ≤ b' * size = mul-le-mul_right size (omega arith) in
    let one_more : suc b * size ≡ b * size + size = suc-mul b size in
    let same : a * s ≡ a' * s = ap (λ (t : ℕ). t * s) row in omega (arith, columns, one_more, same)
