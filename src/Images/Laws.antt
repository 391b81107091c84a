-- ===== src/Images/Laws.antt =====
-- An `Image` holds what was set, and nothing else changes.
use avacadovnc.Common.{
  ℕ, zero, suc, ◌+◌, ◌*◌, ◌-◌, ◌≤◌, ◌<◌, ◌≡◌, ◌⊎◌, refl, List, true, false, if◌then◌else◌, ◌&&◌,
  length, arith, inl, inr, ap, sym, ◌∙◌, Bool-cases, ℤ, eqb_ℤ, above, length-replicate,
}
use native.Mathlib.Nat.{suc-mul, mul_comm}
use avacadovnc.Outcome.{ok}
use avacadovnc.Canvas.{Rgba, transparent}
use avacadovnc.Images.{
  Area, Image, within, is_empty, dx, dy, pix_offset, byte_of, put_four, at, set_rgba, new_image,
}
use avacadovnc.Images.Points.{byte_of-put_four, length-put_four, offset-lt, offset-apart}

-- The slice lies in the array, and the rows of pixels of `size` bytes lie in the slice, one after the
-- other.
pub record IsImage (size : ℕ) (array : List ℕ) (p : Image) : Type 0 where
  pub in_array : p.start + p.len ≤ length array
  pub wide : is_empty p.rect ≡ false → size * dx p.rect ≤ p.stride
  pub long : is_empty p.rect ≡ false → (dy p.rect - 1) * p.stride + size * dx p.rect ≤ p.len

-- A point of the rectangle by its row and column.
abbrev row : Image → ℤ → ℕ
row p y = above y p.rect.min_y

abbrev column : Image → ℤ → ℕ
column p x = above x p.rect.min_x

within-row :
    (p : Image) (x y : ℤ)
    → within p.rect x y ≡ true
    → (is_empty p.rect ≡ false) × (row p y < dy p.rect) × (column p x < dx p.rect)
within-row p x y h = ground arith

pub offset_fits :
    (size : ℕ) (array : List ℕ) (p : Image) (x y : ℤ)
    → IsImage size array p
    → within p.rect x y ≡ true
    → pix_offset size p x y + size ≤ p.len
unfolding pix_offset
offset_fits size array p x y v h =
    let (some_points, low, left) = within-row p x y h in
    offset-lt (row p y) (column p x) (dx p.rect) (dy p.rect) p.stride size p.len low left
      (v.long some_points)

-- The order of the points, row by row.
abbrev Before : ℕ → ℕ → ℕ → ℕ → Type 0
Before a b a' b' = (a < a') ⊎ ((a ≡ a') × (b < b'))

order_of :
    (p : Image) (x y u w : ℤ)
    → within p.rect x y ≡ true
    → within p.rect u w ≡ true
    → (((eqb_ℤ u x && eqb_ℤ w y) ≡ true) × (row p y ≡ row p w) × (column p x ≡ column p u))
      ⊎ (((eqb_ℤ u x && eqb_ℤ w y) ≡ false)
          × (Before (row p y) (column p x) (row p w) (column p u)
              ⊎ Before (row p w) (column p u) (row p y) (column p x)))
order_of p x y u w h g = ground arith

-- Two points of the rectangle are one point, or their pixels are apart.
abbrev Apart : ℕ → ℕ → ℕ → Type 0
Apart size i j = (i + size ≤ j) ⊎ (j + size ≤ i)

offsets-Apart :
    (size : ℕ) (array : List ℕ) (p : Image) (x y u w : ℤ)
    → IsImage size array p
    → within p.rect x y ≡ true
    → within p.rect u w ≡ true
    → (((eqb_ℤ u x && eqb_ℤ w y) ≡ true) × (pix_offset size p x y ≡ pix_offset size p u w))
      ⊎ (((eqb_ℤ u x && eqb_ℤ w y) ≡ false)
          × Apart size (pix_offset size p x y) (pix_offset size p u w))
unfolding pix_offset
offsets-Apart size array p x y u w v h g =
    let (some_points, low, left) = within-row p x y h in
    let (_, low', left') = within-row p u w g in
    let wide = v.wide some_points in
    elim (order_of p x y u w h g) [
      | inl (same, rows, columns) ↦ inl (
        same,
        ap (λ (a : ℕ). a * p.stride + column p x * size) rows
            ∙ ap (λ (b : ℕ). row p w * p.stride + b * size) columns,
      )
      | inr (different, inl before) ↦ inr (
        different,
        inl (
            offset-apart (row p y) (column p x) (row p w) (column p u) (dx p.rect) p.stride size
              left wide before),
      )
      | inr (different, inr after) ↦ inr (
        different,
        inr (
            offset-apart (row p w) (column p u) (row p y) (column p x) (dx p.rect) p.stride size
              left' wide after),
      )
    ]

-- What `At` gives at a point of the rectangle.
abbrev pub pixel_of : List ℕ → ℕ → Rgba
pixel_of array i = record {
  red = byte_of array i;
  green = byte_of array (i + 1);
  blue = byte_of array (i + 2);
  alpha = byte_of array (i + 3);
}

pub at_within :
    (array : List ℕ) (p : Image) (x y : ℤ)
    → IsImage 4 array p
    → within p.rect x y ≡ true
    → at array p x y ≡ ok (pixel_of array (p.start + pix_offset 4 p x y))
unfolding at
at_within array p x y v h = ground (arith, offset_fits 4 array p x y v h)

pub at_outside :
    (array : List ℕ) (p : Image) (x y : ℤ)
    → within p.rect x y ≡ false
    → at array p x y ≡ ok transparent
unfolding at
at_outside array p x y h = rw h refl

pixel_of-put_four :
    (i j : ℕ) (c : Rgba) (array : List ℕ)
    → i + 3 < length array
    → (i ≡ j → pixel_of (put_four i c array) j ≡ c)
      × (Apart 4 i j → pixel_of (put_four i c array) j ≡ pixel_of array j)
pixel_of-put_four i j c array h =
    let at_0 = byte_of-put_four i j c array h in
    let at_1 = byte_of-put_four i (j + 1) c array h in
    let at_2 = byte_of-put_four i (j + 2) c array h in
    let at_3 = byte_of-put_four i (j + 3) c array h in
    (λ e. ground (arith, at_0, at_1, at_2, at_3), λ e. ground (arith, at_0, at_1, at_2, at_3))

-- The array after a write at a point of the rectangle.
abbrev written : Image → ℤ → ℤ → Rgba → List ℕ → List ℕ
written p x y c array = put_four (p.start + pix_offset 4 p x y) c array

written-IsImage :
    (array : List ℕ) (p : Image) (x y : ℤ) (c : Rgba)
    → IsImage 4 array p
    → IsImage 4 (written p x y c array) p
written-IsImage array p x y c v = record {
  in_array = omega (arith, v.in_array, length-put_four (p.start + pix_offset 4 p x y) c array);
  wide = v.wide;
  long = v.long;
}

at-written :
    (array : List ℕ) (p : Image) (x y u w : ℤ) (c : Rgba)
    → IsImage 4 array p
    → within p.rect x y ≡ true
    → at (written p x y c array) p u w ≡ (if eqb_ℤ u x && eqb_ℤ w y then ok c else at array p u w)
at-written array p x y u w c v h = elim (Bool-cases (within p.rect u w)) [
  | inl g ↦
      let i = p.start + pix_offset 4 p x y in
      let fits : i + 3 < length array = omega (arith, v.in_array, offset_fits 4 array p x y v h) in
      let (hit, miss) = pixel_of-put_four i (p.start + pix_offset 4 p u w) c array fits in
      rw
        (
          at_within (written p x y c array) p u w (written-IsImage array p x y c v) g,
          at_within array p u w v g,
        )
        (elim (offsets-Apart 4 array p x y u w v h g) [
          | inl (same, e) ↦ rw same (ap ok (hit (ap (λ (n : ℕ). p.start + n) e)))
          | inr (different, apart) ↦ rw different (ap ok (miss (omega (arith, apart))))
        ])
  | inr g ↦ rw (at_outside (written p x y c array) p u w g, at_outside array p u w g) (ground arith)
]

-- On an image whose rows lie one after the other in its slice of the array: `SetRGBA` does not panic,
-- the image stays one, and after it `At` gives the new colour at the point, if the point is in the
-- rectangle, and what it gave before at every other point.
pub at-set_rgba :
    (array : List ℕ) (p : Image) (x y : ℤ) (c : Rgba)
    → IsImage 4 array p
    → (after : List ℕ) × (set_rgba p x y c array ≡ ok after)
      × IsImage 4 after p
      × ((u w : ℤ)
          → at after p u w
            ≡ (if within p.rect x y && (eqb_ℤ u x && eqb_ℤ w y) then ok c else at array p u w))
unfolding set_rgba
at-set_rgba array p x y c v = elim (Bool-cases (within p.rect x y)) [
  | inl h ↦ (
    written p x y c array,
    ground (arith, offset_fits 4 array p x y v h),
    written-IsImage array p x y c v,
    λ u w. rw h (at-written array p x y u w c v h),
  )
  | inr h ↦ (array, rw h refl, v, λ u w. rw h refl)
]

some_rows : (w h : ℕ) → 1 ≤ h → (h - 1) * (4 * w) + 4 * w ≡ 4 * w * h
some_rows w zero e = omega arith
some_rows w (suc h) e =
    ap (λ (n : ℕ). n * (4 * w) + 4 * w) (minus_one h)
    ∙ sym (suc-mul h (4 * w))
    ∙ mul_comm (suc h) (4 * w)
  where
    minus_one : (h : ℕ) → suc h - 1 ≡ h
    minus_one h = omega arith

some_row : (r : Area) → is_empty r ≡ false → 1 ≤ dy r
some_row r e = ground arith

-- What `NewImage` gives is such an image.
pub new_image-IsImage : (r : Area) → IsImage 4 (new_image r).1 (new_image r).0
unfolding new_image
new_image-IsImage r = elim (Bool-cases (is_empty r)) [
  | inl e ↦
      simp e (record { in_array = omega arith; wide = λ f. ground arith; long = λ f. ground arith })
  | inr e ↦ simp e (record {
    in_array = omega (arith, length-replicate {A = ℕ} (4 * dx r * dy r) 0);
    wide = λ f. omega arith;
    long = λ f. omega (arith, some_rows (dx r) (dy r) (some_row r e));
  })
]
