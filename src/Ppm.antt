-- ===== src/Ppm.antt =====
-- encoders/image-enc.go: the images as PPM files. The writer, what `%d` of fmt gives for a number, the
-- images of other types and the conversion of their colours are arguments. Rectangles are well formed:
-- no maximum is below its minimum. What a panic leaves in `convImage` is not kept.
pub mod Slices
pub mod Rows
pub mod Frames
use avacadovnc.Common.{
  ℕ, zero, suc, ◌+◌, ◌*◌, ◌%◌, List, [], ◌∷◌, ◌++◌, Option, none, some, length, replicate, set, ltb,
  ◌==◌, if◌then◌else◌, take, drop, ℤ, pos, shift, Bool,
}
use avacadovnc.Outcome.{Outcome, ok, err, panic, message, index_out_of_range}
use avacadovnc.Canvas.{Rgba}
use avacadovnc.Images.{Area, Image, dx, dy, AnyColor, converted}

-- The dynamic type of an image: nil, an RGBImage with its array, an image.RGBA with its `Pix`, or
-- another one with its `At`.
pub data AnyImage (A : Type 0) : Type 0 where
  nil_image : AnyImage A
  rgb_image : List ℕ → Image → AnyImage A
  rgba_image : List ℕ → Area → AnyImage A
  any_image : (ℤ → ℤ → Outcome (AnyColor A)) → Area → AnyImage A

-- `convImage`, which is nil at first.
abbrev pub ConvImage : Type 0
ConvImage = Option (List ℕ)

-- The call of a writer.
abbrev pub Put : Type 0 → Type 0
Put W = List ℕ → W → Outcome (Unit {0}) × W

abbrev pub header : (ℕ → List ℕ) → Area → List ℕ
header decimal r =
    80 ∷ 54 ∷ 10 ∷ (decimal (dx r) ++ 32 ∷ (decimal (dy r) ++ 10 ∷ (decimal 255 ++ 10 ∷ [])))

abbrev pub and_write :
    {W : Type 0} → Outcome (Unit {0}) × W → (W → Outcome (Unit {0}) × W) → Outcome (Unit {0}) × W
and_write (ok u, w) f = f w
and_write (err e, w) f = (err e, w)
and_write (panic p, w) f = (panic p, w)

abbrev bytes_before :
    {A : Type 0} → (A → Rgba) → Outcome (AnyColor A) → Outcome (List ℕ) → Outcome (List ℕ)
bytes_before convert (ok c) (ok bs) =
    let color = converted convert c in ok (color.red ∷ color.green ∷ color.blue ∷ bs)
bytes_before convert (ok c) o = o
bytes_before convert (err e) o = err e
bytes_before convert (panic p) o = panic p

-- The bytes of `n` pixels of a row, from `x` on.
row_bytes :
    {A : Type 0} → (A → Rgba) → (ℤ → ℤ → Outcome (AnyColor A)) → ℤ → ℕ → ℤ → Outcome (List ℕ)
row_bytes convert at y zero x = ok []
row_bytes convert at y (suc n) x =
    bytes_before convert (at x y) (row_bytes convert at y n (shift x 1))

abbrev put_row : {W : Type 0} → Put W → Outcome (List ℕ) → W → Outcome (Unit {0}) × W
put_row put (ok bs) w = put bs w
put_row put (err e) w = (err e, w)
put_row put (panic p) w = (panic p, w)

-- `n` rows, from `y` on.
write_rows :
    {A W : Type 0}
    → Put W
    → (A → Rgba)
    → (ℤ → ℤ → Outcome (AnyColor A))
    → Area
    → ℕ
    → ℤ
    → W
    → Outcome (Unit {0}) × W
unfolding row_bytes
write_rows put convert at r zero y w = (ok tt, w)
write_rows put convert at r (suc n) y w =
    and_write (put_row put (row_bytes convert at y (dx r) r.min_x) w)
      (write_rows put convert at r n (shift y 1))

encode_generic :
    {A W : Type 0}
    → Put W
    → (ℕ → List ℕ)
    → (A → Rgba)
    → (ℤ → ℤ → Outcome (AnyColor A))
    → Area
    → W
    → Outcome (Unit {0}) × W
unfolding write_rows
encode_generic put decimal convert at r w =
    and_write (put (header decimal r) w) (write_rows put convert at r (dy r) r.min_y)

-- The slice `img.Pix` of an RGBImage.
abbrev pub pix_of : List ℕ → Image → List ℕ
pix_of array p = take p.len (drop p.start array)

encode_rgb_image : {W : Type 0} → Put W → (ℕ → List ℕ) → List ℕ → Image → W → Outcome (Unit {0}) × W
encode_rgb_image put decimal array p w =
    and_write (put (header decimal p.rect) w) (put (pix_of array p))

-- The loop over the bytes of `Pix`, from byte `i` on: each fourth one is passed over.
conv_loop : ℕ → ℕ → List ℕ → List ℕ → Outcome (List ℕ)
conv_loop i count [] conv = ok conv
conv_loop i count (b ∷ bs) conv =
    let passed = conv_loop (suc i) count bs conv in
    let copied = conv_loop (suc i) (suc count) bs (set conv count b) in
    if i % 4 == 3
    then passed
    else (if ltb count (length conv) then copied else panic index_out_of_range)

abbrev pub conv_start : Area → ConvImage → List ℕ
conv_start r none = replicate (dy r * dx r * 3) 0
conv_start r (some conv) = conv

-- After the loop: the writer's result, and `convImage`.
abbrev pub put_conv :
    {W : Type 0} → Put W → W → ConvImage → Outcome (List ℕ) → (Outcome (Unit {0}) × W) × ConvImage
put_conv put w old (ok conv) = (put conv w, some conv)
put_conv put w old (err e) = ((err e, w), old)
put_conv put w old (panic p) = ((panic p, w), old)

abbrev pub after_header :
    {W : Type 0}
    → ConvImage
    → Outcome (Unit {0}) × W
    → (W → (Outcome (Unit {0}) × W) × ConvImage)
    → (Outcome (Unit {0}) × W) × ConvImage
after_header old (ok u, w) f = f w
after_header old (err e, w) f = ((err e, w), old)
after_header old (panic p, w) f = ((panic p, w), old)

encode_rgba :
    {W : Type 0}
    → Put W
    → (ℕ → List ℕ)
    → List ℕ
    → Area
    → W
    → ConvImage
    → (Outcome (Unit {0}) × W) × ConvImage
unfolding conv_loop
encode_rgba put decimal pix r w old =
    after_header old (put (header decimal r) w)
      (λ v. put_conv put v old (conv_loop 0 0 pix (conv_start r old)))

-- `encodePPM`
pub encode_ppm :
    {A W : Type 0}
    → Put W
    → (ℕ → List ℕ)
    → (A → Rgba)
    → AnyImage A
    → W
    → ConvImage
    → (Outcome (Unit {0}) × W) × ConvImage
unfolding encode_rgb_image encode_rgba encode_generic
encode_ppm put decimal convert nil_image w old = ((err (message "nil image"), w), old)
encode_ppm put decimal convert (rgb_image array p) w old =
    (encode_rgb_image put decimal array p w, old)
encode_ppm put decimal convert (rgba_image pix r) w old = encode_rgba put decimal pix r w old
encode_ppm put decimal convert (any_image at r) w old =
    (encode_generic put decimal convert at r w, old)
