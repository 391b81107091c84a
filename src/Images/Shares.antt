-- ===== src/Images/Shares.antt =====
-- A `SubImage` shows the pixels of its image, at the same points.
use avacadovnc.Common.{
  ℕ, ◌+◌, ◌*◌, ◌-◌, ◌≤◌, ◌≡◌, refl, sym, List, Bool, true, false, if◌then◌else◌, ◌&&◌, arith, inl,
  inr, ap, ◌∙◌, Bool-cases, ℤ, above, leb_ℤ,
}
use native.Mathlib.Nat.{add-mul, mul-le-mul_right, mul_comm}
use avacadovnc.Outcome.{Outcome, ok}
use avacadovnc.Canvas.{Rgba, transparent}
use avacadovnc.Images.{
  Area, Image, within, is_empty, zero_area, meet, dx, dy, pix_offset, at, sub_image,
}
use avacadovnc.Images.Laws.{IsImage, at_within, at_outside, offset_fits, pixel_of}
use avacadovnc.Images.Areas.{meet_points, within-empty, part_room}

-- Where the part begins, and the way from there to a point of it.
module _ (s : ℕ) (a b c : ℤ) (low : leb_ℤ a b ≡ true) (high : leb_ℤ b c ≡ true) where
  above-split : above c a ≡ above b a + above c b
  above-split = ground arith

  rows_split : above c a * s ≡ above b a * s + above c b * s
  rows_split = ap (λ (n : ℕ). n * s) above-split ∙ add-mul (above b a) (above c b) s

-- The part of the rectangle that `SubImage` shows.
abbrev part_of : Area → Image → Area
part_of r p = meet r p.rect

abbrev origin : ℕ → Area → Image → ℕ
origin size r p = pix_offset size p (part_of r p).min_x (part_of r p).min_y

abbrev shown : ℕ → Area → Image → Image
shown size r p = record {
  start = p.start + origin size r p;
  len = p.len - origin size r p;
  stride = p.stride;
  rect = part_of r p;
}

starts :
    (r s : Area) (x y : ℤ)
    → within (meet r s) x y ≡ true
    → ((leb_ℤ s.min_x (meet r s).min_x ≡ true) × (leb_ℤ (meet r s).min_x x ≡ true))
      × ((leb_ℤ s.min_y (meet r s).min_y ≡ true) × (leb_ℤ (meet r s).min_y y ≡ true))
starts r s x y h = ground arith

-- A point of the part lies as far after the first one as in the image.
offset-shown :
    (size : ℕ) (r : Area) (p : Image) (x y : ℤ)
    → within (part_of r p) x y ≡ true
    → pix_offset size p x y ≡ origin size r p + pix_offset size (shown size r p) x y
unfolding pix_offset
offset-shown size r p x y h =
    let ((low_x, high_x), (low_y, high_y)) = starts r p.rect x y h in
    let t : Area = part_of r p in
    omega (
      arith,
      rows_split p.stride p.rect.min_y t.min_y y low_y high_y,
      rows_split size p.rect.min_x t.min_x x low_x high_x,
    )

shown-IsImage :
    (size : ℕ) (array : List ℕ) (r : Area) (p : Image)
    → IsImage size array p
    → is_empty (part_of r p) ≡ false
    → IsImage size array (shown size r p)
unfolding pix_offset
shown-IsImage size array r p v h =
    let (some_points, here, wide, high) = part_room r p.rect h in
    let t : Area = part_of r p in
    let a = above t.min_y p.rect.min_y in
    let b = above t.min_x p.rect.min_x in
    let columns : (b + dx t) * size ≤ dx p.rect * size = mul-le-mul_right size wide in
    let rows : (a + (dy t - 1)) * p.stride ≤ (dy p.rect - 1) * p.stride =
      mul-le-mul_right p.stride high in
    let columns_sum : (b + dx t) * size ≡ b * size + dx t * size = add-mul b (dx t) size in
    let rows_sum : (a + (dy t - 1)) * p.stride ≡ a * p.stride + (dy t - 1) * p.stride =
      add-mul a (dy t - 1) p.stride in
    let turned : size * dx t ≡ dx t * size = mul_comm size (dx t) in
    let turned_all : size * dx p.rect ≡ dx p.rect * size = mul_comm size (dx p.rect) in
    let fits : pix_offset size p t.min_x t.min_y + size ≤ p.len =
      offset_fits size array p t.min_x t.min_y v here in
    let stride_room = v.wide some_points in
    let length_room = v.long some_points in
    record {
      in_array = omega (arith, v.in_array, fits);
      wide = λ e. omega (arith, columns, columns_sum, turned, turned_all, stride_room);
      long =
          λ e. omega (arith, rows, rows_sum, columns, columns_sum, turned, turned_all, length_room);
    }

nothing-IsImage :
    (size : ℕ) (array : List ℕ)
    → IsImage size array (record { start = 0; len = 0; stride = 0; rect = zero_area })
nothing-IsImage size array = record {
  in_array = omega arith;
  wide = λ e. omega arith;
  long = λ e. omega arith;
}

-- What `SubImage` gives.
sub_image-shown :
    (size : ℕ) (r : Area) (p : Image)
    → is_empty (part_of r p) ≡ false
    → sub_image size r p ≡ shown size r p
unfolding sub_image
sub_image-shown size r p e = rw e (rw e refl)

abbrev nothing : Image
nothing = record { start = 0; len = 0; stride = 0; rect = zero_area }

sub_image_nothing :
    (size : ℕ) (r : Area) (p : Image) → is_empty (part_of r p) ≡ true → sub_image size r p ≡ nothing
unfolding sub_image
sub_image_nothing size r p e = rw e refl

-- A choice between what is shown and what is not.
not_chosen :
    (a b : Bool) (o o' : Outcome Rgba)
    → (a && b) ≡ false
    → (b ≡ false → o ≡ o')
    → o' ≡ (if a then o else o')
not_chosen true true o o' h f = cc h
not_chosen true false o o' h f = sym (f refl)
not_chosen false b o o' h f = refl

chosen :
    (a b : Bool) (o o' : Outcome Rgba) → (a && b) ≡ true → (b ≡ true) × (o ≡ (if a then o else o'))
chosen a b o o' h = ground arith

module _ (array : List ℕ) (p : Image) (r : Area) (x y : ℤ) where
  not_shown :
      within (part_of r p) x y ≡ false
      → ok transparent ≡ (if within r x y then at array p x y else ok transparent)
  not_shown h =
      not_chosen (within r x y) (within p.rect x y) (at array p x y) (ok transparent)
        (sym (meet_points r p.rect x y) ∙ h) (at_outside array p x y)

  at-shown :
      IsImage 4 array p
      → is_empty (part_of r p) ≡ false
      → at array (shown 4 r p) x y ≡ (if within r x y then at array p x y else ok transparent)
  at-shown v e = elim (Bool-cases (within (part_of r p) x y)) [
    | inl g ↦
        let (here, same) =
          chosen (within r x y) (within p.rect x y) (at array p x y) (ok transparent)
            (sym (meet_points r p.rect x y) ∙ g) in
        let place : p.start + origin 4 r p + pix_offset 4 (shown 4 r p) x y
            ≡ p.start + pix_offset 4 p x y =
          omega (arith, offset-shown 4 r p x y g) in
        at_within array (shown 4 r p) x y (shown-IsImage 4 array r p v e) g
        ∙ ap (λ (i : ℕ). ok (pixel_of array i)) place
        ∙ sym (at_within array p x y v here)
        ∙ same
    | inr g ↦ at_outside array (shown 4 r p) x y g ∙ not_shown g
  ]

-- `SubImage` gives an image on the same array, whose rows lie one after the other as those of its image
-- do, and `At` gives on it what it gives on the image at every point of `r`, with no change of
-- coordinates, and the zero colour elsewhere.
pub at-sub_image :
    (array : List ℕ) (p : Image) (r : Area)
    → IsImage 4 array p
    → IsImage 4 array (sub_image 4 r p)
      × ((x y : ℤ)
          → at array (sub_image 4 r p) x y
            ≡ (if within r x y then at array p x y else ok transparent))
at-sub_image array p r v = elim (Bool-cases (is_empty (part_of r p))) [
  | inl e ↦ rw (sub_image_nothing 4 r p e) (
    nothing-IsImage 4 array,
    λ x y.
        at_outside array nothing x y (within-empty zero_area x y refl)
        ∙ not_shown array p r x y (within-empty (part_of r p) x y e),
  )
  | inr e ↦
      rw (sub_image-shown 4 r p e)
        (shown-IsImage 4 array r p v e, λ x y. at-shown array p r x y v e)
]
