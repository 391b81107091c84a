-- ===== src/Images/Opaque.antt =====
-- `Opaque` of an Image finds out whether all of its pixels are.
use avacadovnc.Common.{
  ℕ, ◌+◌, ◌*◌, ◌<◌, ◌≡◌, ◌≢◌, ◌⊎◌, refl, ◌∙◌, inl, inr, ap, List, true, false, arith, Bool-cases, ℤ,
  above,
}
use avacadovnc.Outcome.{ok}
use avacadovnc.Canvas.{Rgba}
use avacadovnc.Images.{Image, within, is_empty, dx, dy, pix_offset, byte_of, at, opaque}
use avacadovnc.Images.Laws.{IsImage, at_within, offset_fits, pixel_of}
use avacadovnc.Images.Grid.{above-shift, point_x, point_y, within-point}
use avacadovnc.Images.Scans.{ScanRows, place_in, rows_scan}

module _ (array : List ℕ) (p : Image) (v : IsImage 4 array p) where
  offset-point : (r k : ℕ) → pix_offset 4 p (point_x p k) (point_y p r) ≡ r * p.stride + k * 4
  unfolding pix_offset
  offset-point r k = rw (above-shift p.rect.min_y r, above-shift p.rect.min_x k) refl

  point_fits : (r k : ℕ) → r < dy p.rect → k < dx p.rect → 3 + r * p.stride + k * 4 < p.len
  point_fits r k h g = omega (
    arith,
    offset-point r k,
    offset_fits 4 array p (point_x p k) (point_y p r) v (within-point p r k h g),
  )

  at-point :
      (r k : ℕ)
      → r < dy p.rect
      → k < dx p.rect
      → at array p (point_x p k) (point_y p r)
        ≡ ok (pixel_of array (p.start + (r * p.stride + k * 4)))
  at-point r k h g =
      at_within array p (point_x p k) (point_y p r) v (within-point p r k h g)
      ∙ ap (λ (i : ℕ). ok (pixel_of array (p.start + i))) (offset-point r k)

  row-lt :
      (x y : ℤ)
      → within p.rect x y ≡ true
      → (above y p.rect.min_y < dy p.rect) × (above x p.rect.min_x < dx p.rect)
  row-lt x y h = ground arith

  alpha_place :
      (x y : ℤ)
      → p.start + pix_offset 4 p x y + 3
        ≡ place_in array p 4 (dx p.rect) 3 (above y p.rect.min_y) (above x p.rect.min_x)
  unfolding pix_offset
  alpha_place x y = omega arith

  alpha_point :
      (r k : ℕ) → place_in array p 4 (dx p.rect) 3 r k ≡ p.start + (r * p.stride + k * 4) + 3
  alpha_point r k = omega arith

  scanned :
      is_empty p.rect ≡ false
      → ScanRows array (opaque array p) (dy p.rect) (dx p.rect) (place_in array p 4 (dx p.rect) 3)
  unfolding opaque
  scanned e = simp e (rows_scan array p 4 (dx p.rect) (dy p.rect) 3 point_fits)

  no_point : is_empty p.rect ≡ true → (x y : ℤ) → within p.rect x y ≡ false
  no_point e x y = ground arith

  opaque_empty : is_empty p.rect ≡ true → opaque array p ≡ ok true
  unfolding opaque
  opaque_empty e = rw e refl

-- `At` gives a colour of full alpha at the point, or one of another alpha.
abbrev pub IsFull : List ℕ → Image → ℤ → ℤ → Type 0
IsFull array p x y = (c : Rgba) × (at array p x y ≡ ok c) × (c.alpha ≡ 255)

abbrev pub IsClear : List ℕ → Image → ℤ → ℤ → Type 0
IsClear array p x y = (c : Rgba) × (at array p x y ≡ ok c) × (c.alpha ≢ 255)

-- On an image whose rows lie one after the other in its slice of the array, `Opaque` does not panic: it
-- gives true, and `At` has full alpha at every point of the rectangle, or it gives false, and there is a
-- point of the rectangle at which `At` has another alpha.
pub opaque-at :
    (array : List ℕ) (p : Image)
    → IsImage 4 array p
    → ((opaque array p ≡ ok true) × ((x y : ℤ) → within p.rect x y ≡ true → IsFull array p x y))
      ⊎ ((opaque array p ≡ ok false)
          × ((x : ℤ) × (y : ℤ) × (within p.rect x y ≡ true) × IsClear array p x y))
opaque-at array p v = elim (Bool-cases (is_empty p.rect)) [
  | inl e ↦ inl (opaque_empty array p v e, λ x y h. cc (no_point array p v e x y))
  | inr e ↦ elim (scanned array p v e) [
    | inl (good, all) ↦ inl (
      good,
      λ x y h.
          let (high, low) = row-lt array p v x y h in
          (
            pixel_of array (p.start + pix_offset 4 p x y),
            at_within array p x y v h,
            ap (byte_of array) (alpha_place array p v x y)
                ∙ all (above y p.rect.min_y) (above x p.rect.min_x) high low,
          ),
    )
    | inr (bad, (r, k, high, low, odd)) ↦ inr (
      bad,
      (
        point_x p k,
        point_y p r,
        within-point p r k high low,
        (
          pixel_of array (p.start + (r * p.stride + k * 4)),
          at-point array p v r k high low,
          λ f. odd (ap (byte_of array) (alpha_point array p v r k) ∙ f),
        ),
      ),
    )
  ]
]
