-- ===== src/Ppm/Rows.antt =====
-- The file of an RGBImage, written row by row or at once.
use avacadovnc.Common.{
  ℕ, zero, suc, ◌+◌, ◌*◌, ◌-◌, ◌≤◌, ◌<◌, ◌≡◌, refl, sym, ◌∙◌, fun_ext, ap, List, [], ◌++◌, false,
  length, length-replicate, arith, lt→ltb, ℤ, shift,
}
use native.Mathlib.Nat.{suc-mul, mul_comm}
use avacadovnc.Ppm.Slices.{slice, slice-add, slice_pixels}
use avacadovnc.Outcome.{Outcome, ok, err, panic}
use avacadovnc.Canvas.{Rgba}
use avacadovnc.Images.{
  Area, Image, is_empty, dx, dy, pix_offset, rgb_at, new_rgb_image, AnyColor, rgba, byte_of,
}
use avacadovnc.Images.Laws.{IsImage, offset_fits}
use avacadovnc.Images.Grid.{above-shift, point_x, point_y, within-point}
use avacadovnc.Ppm.{
  rgb_image, any_image, ConvImage, Put, header, and_write, row_bytes, write_rows, encode_generic,
  pix_of, encode_rgb_image, encode_ppm,
}

-- A writer takes what it is given as one stream: two writes are one, and no byte is no write.
pub record IsStream {W : Type 0} (put : Put W) : Type 0 where
  pub nothing : (w : W) → put [] w ≡ (ok tt, w)
  pub appends : (bs cs : List ℕ) (w : W) → put (bs ++ cs) w ≡ and_write (put bs w) (put cs)

-- The rows of the image fill its slice of the array.
pub record IsWhole (array : List ℕ) (p : Image) : Type 0 where
  pub row_bytes : p.stride ≡ 3 * dx p.rect
  pub all_bytes : p.len ≡ dy p.rect * p.stride
  pub in_array : p.start + p.len ≤ length array

-- What `NewRGBImage` gives is such an image.
new_rgb_image-IsWhole : (r : Area) → IsWhole (new_rgb_image r).1 (new_rgb_image r).0
unfolding new_rgb_image
new_rgb_image-IsWhole r = record {
  row_bytes = refl;
  all_bytes = mul_comm (3 * dx r) (dy r);
  in_array = omega (arith, length-replicate {A = ℕ} (3 * dx r * dy r) 0);
}

-- `At` of an RGBImage as that of any image.
abbrev pub as_any : {A : Type 0} → Outcome Rgba → Outcome (AnyColor A)
as_any (ok c) = ok (rgba c)
as_any (err e) = err e
as_any (panic f) = panic f

last_row : (h s : ℕ) → 1 ≤ h → (h - 1) * s + s ≡ h * s
last_row zero s e = omega arith
last_row (suc h) s e = ap (λ (n : ℕ). n * s + s) (minus_one h) ∙ sym (suc-mul h s)
  where
    minus_one : (h : ℕ) → suc h - 1 ≡ h
    minus_one h = omega arith

some_row : (r : Area) → is_empty r ≡ false → 1 ≤ dy r
some_row r e = ground arith

whole-IsImage : (array : List ℕ) (p : Image) → IsWhole array p → IsImage 3 array p
whole-IsImage array p h = record {
  in_array = h.in_array;
  wide = λ e. omega (arith, h.row_bytes);
  long = λ e.
      omega (arith, last_row (dy p.rect) p.stride (some_row p.rect e), h.row_bytes, h.all_bytes);
}

abbrev color_of : List ℕ → ℕ → Rgba
color_of array i = record {
  red = byte_of array i;
  green = byte_of array (i + 1);
  blue = byte_of array (i + 2);
  alpha = 255;
}

shift-shift : (a : ℤ) (k : ℕ) → shift (shift a k) 1 ≡ shift a (suc k)
shift-shift a k = ground arith

shift_zero : (a : ℤ) → shift a 0 ≡ a
shift_zero a = ground arith

zero_times : (s : ℕ) → 0 ≡ 0 * s
zero_times s = omega arith

module _ (array : List ℕ) (p : Image) (h : IsWhole array p) where
  offset-point : (r k : ℕ) → pix_offset 3 p (point_x p k) (point_y p r) ≡ r * p.stride + k * 3
  unfolding pix_offset
  offset-point r k = rw (above-shift p.rect.min_y r, above-shift p.rect.min_x k) refl

  point_fits : (r k : ℕ) → r < dy p.rect → k < dx p.rect → r * p.stride + k * 3 + 3 ≤ p.len
  point_fits r k low left = omega (
    arith,
    offset-point r k,
    offset_fits 3 array p (point_x p k) (point_y p r) (whole-IsImage array p h)
        (within-point p r k low left),
  )

  rgb_at-point :
      (r k : ℕ)
      → r < dy p.rect
      → k < dx p.rect
      → rgb_at array p (point_x p k) (point_y p r)
        ≡ ok (color_of array (p.start + (r * p.stride + k * 3)))
  unfolding rgb_at
  rgb_at-point r k low left =
      rw (within-point p r k low left, offset-point r k)
        (rw (lt→ltb (r * p.stride + k * 3 + 2) p.len (omega (arith, point_fits r k low left))) refl)

  -- The pixels of a row, from a column on.
  row_slice :
      {A : Type 0} (convert : A → Rgba) (r n k : ℕ)
      → r < dy p.rect
      → k + n ≤ dx p.rect
      → row_bytes convert (λ x y. as_any (rgb_at array p x y)) (point_y p r) n (point_x p k)
        ≡ ok (slice array (p.start + (r * p.stride + k * 3)) (n * 3))
  unfolding row_bytes
  row_slice convert r zero k low room = refl
  row_slice convert r (suc n) k low room =
      let i = p.start + (r * p.stride + k * 3) in
      let left : k < dx p.rect = omega arith in
      let next_at : p.start + (r * p.stride + suc k * 3) ≡ i + 3 = omega (arith, suc-mul k 3) in
      let fits : i + 3 ≤ length array = omega (arith, h.in_array, point_fits r k low left) in
      rw
        (
          rgb_at-point r k low left,
          shift-shift p.rect.min_x k,
          row_slice convert r n (suc k) low (omega arith),
          next_at,
        )
        (ap ok (slice_pixels array i n fits))

  row_whole :
      {A : Type 0} (convert : A → Rgba) (r : ℕ)
      → r < dy p.rect
      → row_bytes convert
          (λ x y. as_any (rgb_at array p x y))
          (point_y p r)
          (dx p.rect)
          p.rect.min_x
        ≡ ok (slice array (p.start + r * p.stride) p.stride)
  row_whole convert r low =
      let first : p.start + (r * p.stride + 0 * 3) ≡ p.start + r * p.stride = omega arith in
      let wide : dx p.rect * 3 ≡ p.stride = omega (arith, h.row_bytes) in
      ap (row_bytes convert (λ x y. as_any (rgb_at array p x y)) (point_y p r) (dx p.rect))
        (sym (shift_zero p.rect.min_x))
      ∙ row_slice convert r (dx p.rect) 0 low (omega arith)
      ∙ ap (λ (i : ℕ). ok (slice array i (dx p.rect * 3))) first
      ∙ ap (λ (m : ℕ). ok (slice array (p.start + r * p.stride) m)) wide

  -- The rows from one on are written as one part of the array.
  write_slice :
      {A W : Type 0} (put : Put W) (convert : A → Rgba) (n r : ℕ) (w : W)
      → IsStream put
      → r + n ≤ dy p.rect
      → write_rows put convert (λ x y. as_any (rgb_at array p x y)) p.rect n (point_y p r) w
        ≡ put (slice array (p.start + r * p.stride) (n * p.stride)) w
  unfolding write_rows
  write_slice put convert zero r w stream room =
      sym (stream.nothing w)
      ∙ ap (λ (m : ℕ). put (slice array (p.start + r * p.stride) m) w) (zero_times p.stride)
  write_slice {W = W} put convert (suc n) r w stream room =
      let i = p.start + r * p.stride in
      let later : p.start + suc r * p.stride ≡ i + p.stride = omega (arith, suc-mul r p.stride) in
      let all : suc n * p.stride ≡ p.stride + n * p.stride = omega (arith, suc-mul n p.stride) in
      rw (row_whole convert r (omega arith), shift-shift p.rect.min_y r)
        (ap (and_write (put (slice array i p.stride) w))
            (fun_ext (λ (v : W). write_slice put convert n (suc r) v stream (omega arith)))
          ∙ ap
              (λ (j : ℕ).
                and_write (put (slice array i p.stride) w) (put (slice array j (n * p.stride))))
              later
          ∙ sym (
              stream.appends (slice array i p.stride) (slice array (i + p.stride) (n * p.stride)) w)
          ∙ ap (λ (l : List ℕ). put l w)
              (sym (slice-add array i p.stride (n * p.stride)) ∙ ap (slice array i) (sym all)))

  write_all :
      {A W : Type 0} (put : Put W) (convert : A → Rgba) (w : W)
      → IsStream put
      → write_rows put convert
          (λ x y. as_any (rgb_at array p x y))
          p.rect
          (dy p.rect)
          p.rect.min_y
          w
        ≡ put (pix_of array p) w
  write_all put convert w stream =
      let first : p.start + 0 * p.stride ≡ p.start = omega (arith, zero_times p.stride) in
      ap
        (λ (y : ℤ).
          write_rows put convert (λ x y. as_any (rgb_at array p x y)) p.rect (dy p.rect) y w)
        (sym (shift_zero p.rect.min_y))
      ∙ write_slice put convert (dy p.rect) 0 w stream (omega arith)
      ∙ ap (λ (j : ℕ). put (slice array j (dy p.rect * p.stride)) w) first
      ∙ ap (λ (m : ℕ). put (slice array p.start m) w) (sym h.all_bytes)

-- An RGBImage of which the rows fill its slice of the array is written as an image of any other type with
-- the same `At`: the same bytes in the same order, also where the writer fails, on a writer that takes its
-- bytes as one stream. The two write `Pix` at once, or a row after each `At` of its pixels.
pub encode_rgb_generic :
    {A W : Type 0} (put : Put W) (decimal : ℕ → List ℕ) (convert : A → Rgba) (array : List ℕ)
    (p : Image) (w : W) (old : ConvImage)
    → IsStream put
    → IsWhole array p
    → encode_ppm put decimal convert (rgb_image array p) w old
      ≡ encode_ppm put decimal convert (any_image (λ x y. as_any (rgb_at array p x y)) p.rect) w old
unfolding encode_ppm encode_generic encode_rgb_image
encode_rgb_generic {W = W} put decimal convert array p w old stream h =
    ap (λ (f : W → Outcome (Unit {0}) × W). (and_write (put (header decimal p.rect) w) f, old))
      (fun_ext (λ (v : W). sym (write_all array p h put convert v stream)))
