-- ===== src/Images.antt =====
-- image.go and rgb-image.go: `Image` and `RGBImage`. `Pix` is a slice of an array of bytes, which other
-- images may share: an image is the place and the length of its slice, and the array is an argument
-- of its methods. Strides are not negative. What a panic leaves in the array is not kept.
pub mod Points
pub mod Laws
pub mod Areas
pub mod Shares
pub mod Grid
pub mod Scans
pub mod Opaque
pub mod Copies
use avacadovnc.Common.{
  ℕ, zero, suc, ◌+◌, ◌*◌, ◌-◌, List, [], ◌∷◌, Bool, true, false, if◌then◌else◌, ◌&&◌, ◌||◌, ◌==◌,
  ltb, get_or, set, replicate, ℤ, pos, negsuc, leb_ℤ, ltb_ℤ, above, shift, max_ℤ, min_ℤ,
}
use avacadovnc.Outcome.{Outcome, ok, err, panic, index_out_of_range, Fault}
use avacadovnc.Canvas.{Rgba, transparent}

-- image.Rectangle
pub record Area : Type 0 where
  pub min_x : ℤ
  pub min_y : ℤ
  pub max_x : ℤ
  pub max_y : ℤ

pub record Image : Type 0 where
  pub start : ℕ
  pub len : ℕ
  pub stride : ℕ
  pub rect : Area

-- `image.Point{x, y}.In(r)`, `r.Empty()`, `r.Dx()` and `r.Dy()` of a rectangle that is not empty.
abbrev pub within : Area → ℤ → ℤ → Bool
within r x y = (leb_ℤ r.min_x x && ltb_ℤ x r.max_x) && (leb_ℤ r.min_y y && ltb_ℤ y r.max_y)

abbrev pub is_empty : Area → Bool
is_empty r = leb_ℤ r.max_x r.min_x || leb_ℤ r.max_y r.min_y

abbrev pub dx : Area → ℕ
dx r = above r.max_x r.min_x

abbrev pub dy : Area → ℕ
dy r = above r.max_y r.min_y

abbrev pub zero_area : Area
zero_area = record { min_x = pos 0; min_y = pos 0; max_x = pos 0; max_y = pos 0 }

abbrev pub meet : Area → Area → Area
meet r s = record {
  min_x = max_ℤ r.min_x s.min_x;
  min_y = max_ℤ r.min_y s.min_y;
  max_x = min_ℤ r.max_x s.max_x;
  max_y = min_ℤ r.max_y s.max_y;
}

-- `r.Intersect(s)`: the zero rectangle where they do not meet.
abbrev intersect : Area → Area → Area
intersect r s = if is_empty (meet r s) then zero_area else meet r s

-- A new array, and the image on it.
pub new_image : Area → Image × List ℕ
new_image r = if is_empty r then (record { start = 0; len = 0; stride = 0; rect = r }, []) else (
  record { start = 0; len = 4 * dx r * dy r; stride = 4 * dx r; rect = r },
  replicate (4 * dx r * dy r) 0,
)

-- `NewRGBImage`, for a rectangle of which no maximum is below its minimum.
unfoldable pub new_rgb_image : Area → Image × List ℕ
new_rgb_image r = (
  record { start = 0; len = 3 * dx r * dy r; stride = 3 * dx r; rect = r },
  replicate (3 * dx r * dy r) 0,
)

-- `PixOffset` at a point of the rectangle, for pixels of `size` bytes.
unfoldable pub pix_offset : ℕ → Image → ℤ → ℤ → ℕ
pix_offset size p x y = above y p.rect.min_y * p.stride + above x p.rect.min_x * size

-- A byte of the array.
abbrev pub byte_of : List ℕ → ℕ → ℕ
byte_of array i = get_or array i 0

abbrev pub put_four : ℕ → Rgba → List ℕ → List ℕ
put_four i c array =
    set (set (set (set array i c.red) (i + 1) c.green) (i + 2) c.blue) (i + 3) c.alpha

abbrev put_three : ℕ → Rgba → List ℕ → List ℕ
put_three i c array = set (set (set array i c.red) (i + 1) c.green) (i + 2) c.blue

-- `At` of an Image.
pub at : List ℕ → Image → ℤ → ℤ → Outcome Rgba
at array p x y =
    if within p.rect x y
    then (let i = pix_offset 4 p x y in
        if ltb (i + 3) p.len
        then ok (record {
          red = byte_of array (p.start + i);
          green = byte_of array (p.start + i + 1);
          blue = byte_of array (p.start + i + 2);
          alpha = byte_of array (p.start + i + 3);
        })
        else panic index_out_of_range)
    else ok transparent

pub set_rgba : Image → ℤ → ℤ → Rgba → List ℕ → Outcome (List ℕ)
set_rgba p x y c array =
    if within p.rect x y
    then (let i = pix_offset 4 p x y in
        if ltb (i + 3) p.len then ok (put_four (p.start + i) c array) else panic index_out_of_range)
    else ok array

-- A colour of the image library: an RGBA, or another one, which is converted.
pub data AnyColor (A : Type 0) : Type 0 where
  rgba : Rgba → AnyColor A
  other : A → AnyColor A

abbrev pub converted : {A : Type 0} → (A → Rgba) → AnyColor A → Rgba
converted convert (rgba c) = c
converted convert (other a) = convert a

set_color : {A : Type 0} → (A → Rgba) → Image → ℤ → ℤ → AnyColor A → List ℕ → Outcome (List ℕ)
set_color convert p x y c array = set_rgba p x y (converted convert c) array

-- `SubImage`: the same array, from the first byte of the part on.
pub sub_image : ℕ → Area → Image → Image
sub_image size r p =
    let part = intersect r p.rect in
    if is_empty part
    then record { start = 0; len = 0; stride = 0; rect = zero_area }
    else (let i = pix_offset size p part.min_x part.min_y in
        record { start = p.start + i; len = p.len - i; stride = p.stride; rect = part })

-- The loop over the pixels of a row: every byte at `i`, `i + size`, ... is 0xff, for `n` of them.
unfoldable pub row_full : List ℕ → Image → ℕ → ℕ → ℕ → Outcome Bool
row_full array p size zero i = ok true
row_full array p size (suc n) i =
    let rest = row_full array p size n (i + size) in
    if ltb i p.len
    then (if byte_of array (p.start + i) == 255 then rest else ok false)
    else panic index_out_of_range

abbrev pub and_then : Outcome Bool → Outcome Bool → Outcome Bool
and_then (ok true) o = o
and_then (ok false) o = ok false
and_then (err e) o = err e
and_then (panic f) o = panic f

-- The loop over the rows.
unfoldable pub rows_full : List ℕ → Image → ℕ → ℕ → ℕ → ℕ → Outcome Bool
rows_full array p size zero n i = ok true
rows_full array p size (suc rows) n i =
    and_then (row_full array p size n i) (rows_full array p size rows n (i + p.stride))

-- `Opaque` of an Image looks at the alpha of every pixel.
pub opaque : List ℕ → Image → Outcome Bool
opaque array p = if is_empty p.rect then ok true else rows_full array p 4 (dy p.rect) (dx p.rect) 3

-- `RGBAt` and `At` of an RGBImage: the alpha is always full.
unfoldable pub rgb_at : List ℕ → Image → ℤ → ℤ → Outcome Rgba
rgb_at array p x y =
    if within p.rect x y
    then (let i = pix_offset 3 p x y in
        if ltb (i + 2) p.len
        then ok (record {
          red = byte_of array (p.start + i);
          green = byte_of array (p.start + i + 1);
          blue = byte_of array (p.start + i + 2);
          alpha = 255;
        })
        else panic index_out_of_range)
    else ok (record { red = 0; green = 0; blue = 0; alpha = 255 })

unfoldable set_rgb : Image → ℤ → ℤ → Rgba → List ℕ → Outcome (List ℕ)
set_rgb p x y c array =
    if within p.rect x y
    then (let i = pix_offset 3 p x y in
        if ltb (i + 2) p.len
        then ok (put_three (p.start + i) c array)
        else panic index_out_of_range)
    else ok array

-- `Opaque` of an RGBImage: from byte 3 of each row on, every third byte below the row's end.
unfoldable pub rgb_opaque : List ℕ → Image → Outcome Bool
rgb_opaque array p =
    if is_empty p.rect then ok true else rows_full array p 3 (dy p.rect) (dx p.rect - 1) 3

abbrev pub and_go : Outcome (List ℕ) → (List ℕ → Outcome (List ℕ)) → Outcome (List ℕ)
and_go (ok array) f = f array
and_go (err e) f = err e
and_go (panic p) f = panic p

-- draw.Draw with draw.Src into an Image, which is no type of the image library: each point of the rectangle,
-- row by row, is set to the colour of the source there. Here one row of `n` points.
pub draw_row :
    {A : Type 0} → (A → Rgba) → (ℤ → ℤ → AnyColor A) → Image → ℤ → ℕ → ℤ → List ℕ → Outcome (List ℕ)
unfolding set_color
draw_row convert source p y zero x array = ok array
draw_row convert source p y (suc n) x array =
    and_go (set_color convert p x y (source x y) array) (draw_row convert source p y n (shift x 1))

pub draw_rows :
    {A : Type 0} → (A → Rgba) → (ℤ → ℤ → AnyColor A) → Image → ℕ → ℤ → List ℕ → Outcome (List ℕ)
unfolding draw_row
draw_rows convert source p zero y array = ok array
draw_rows convert source p (suc n) y array =
    and_go (draw_row convert source p y (dx p.rect) p.rect.min_x array)
      (draw_rows convert source p n (shift y 1))

-- `NewFromImage` of a source with these bounds and colours.
pub new_from_image :
    {A : Type 0} → (A → Rgba) → (ℤ → ℤ → AnyColor A) → Area → Image × Outcome (List ℕ)
unfolding draw_rows
new_from_image convert source r =
    let m = new_image r in
    (m.0, if is_empty r then ok m.1 else draw_rows convert source m.0 (dy r) r.min_y m.1)

-- The methods of an RGBImage with three bytes for each pixel.
unfoldable rgb_pix_offset : Image → ℤ → ℤ → ℕ
rgb_pix_offset p x y = pix_offset 3 p x y

unfoldable rgb_sub_image : Area → Image → Image
rgb_sub_image r p = sub_image 3 r p

unfoldable set_rgb_color :
    {A : Type 0} → (A → Rgba) → Image → ℤ → ℤ → AnyColor A → List ℕ → Outcome (List ℕ)
unfolding set_rgb
set_rgb_color convert p x y c array = set_rgb p x y (converted convert c) array
