-- ===== src/Canvas.antt =====
-- `VncCanvas` of canvas.go over the image.RGBA and draw.Draw of the Go library. A canvas is its size,
-- the colour of each pixel, and the cursor that was set. The mutex is held for a whole method, so a
-- method is one step.
pub mod Fill
pub mod Copy
pub mod Bytes
use avacadovnc.Common.{
  ℕ, zero, suc, ◌+◌, ◌*◌, ◌-◌, ◌<◌, ◌≤◌, List, [], ◌∷◌, Bool, true, false, Option, none, some,
  length, ltb, leb, ◌==◌, if◌then◌else◌, ◌&&◌, get_or, replicate, ◌++◌, ◌/◌, ◌%◌, ◌^◌,
}
use avacadovnc.Wire.{u16}
use avacadovnc.Outcome.{Outcome, ok, err, panic, message, index_out_of_range}

-- `Rectangle` of encoding_types.go. The field `Enc` holds the decoder between two lines of
-- `Rectangle.Read` and is not kept here.
pub record Rectangle : Type 0 where
  pub x : ℕ
  pub y : ℕ
  pub width : ℕ
  pub height : ℕ
  pub enc_type : ℕ

-- color.RGBA
pub record Rgba : Type 0 where
  pub red : ℕ
  pub green : ℕ
  pub blue : ℕ
  pub alpha : ℕ

abbrev pub transparent : Rgba
transparent = record { red = 0; green = 0; blue = 0; alpha = 0 }

-- image.Rectangle
pub record Bounds : Type 0 where
  pub min_x : ℕ
  pub min_y : ℕ
  pub max_x : ℕ
  pub max_y : ℕ

-- image.Rect swaps the ends that are out of order.
abbrev image_rect : ℕ → ℕ → ℕ → ℕ → Bounds
image_rect x0 y0 x1 y1 = record {
  min_x = if ltb x1 x0 then x1 else x0;
  min_y = if ltb y1 y0 then y1 else y0;
  max_x = if ltb x1 x0 then x0 else x1;
  max_y = if ltb y1 y0 then y0 else y1;
}

-- `image.Point{x, y}.In(b)`
abbrev contains : Bounds → ℕ → ℕ → Bool
contains b x y = (leb b.min_x x && ltb x b.max_x) && (leb b.min_y y && ltb y b.max_y)

-- The cursor image and its mask, each as a function of the position.
pub record Cursor : Type 0 where
  pub width : ℕ
  pub height : ℕ
  pub colour : ℕ → ℕ → Rgba
  pub mask : ℕ → ℕ → ℕ

pub record Canvas : Type 0 where
  pub width : ℕ
  pub height : ℕ
  pub pixel : ℕ → ℕ → Rgba
  pub cursor : Option Cursor
  pub cursor_x : ℕ
  pub cursor_y : ℕ
  pub cursor_hot_x : ℕ
  pub cursor_hot_y : ℕ
  pub cursor_shown : Bool

unfoldable pub new_vnc_canvas : ℕ → ℕ → Canvas
new_vnc_canvas width height = record {
  width = width;
  height = height;
  pixel = λ x y. transparent;
  cursor = none;
  cursor_x = 0;
  cursor_y = 0;
  cursor_hot_x = 0;
  cursor_hot_y = 0;
  cursor_shown = false;
}

-- The points of the image.
abbrev pub on_canvas : Canvas → ℕ → ℕ → Bool
on_canvas c x y = ltb x c.width && ltb y c.height

-- `image.Rect(int(rect.X), int(rect.Y), int(rect.X+rect.Width), int(rect.Y+rect.Height))`: the sums
-- are uint16 and wrap before they are converted.
unfoldable pub rect_bounds : Rectangle → Bounds
rect_bounds rect = image_rect rect.x rect.y (u16 (rect.x + rect.width)) (u16 (rect.y + rect.height))

-- draw.Draw of an image.Uniform with draw.Src, clipped to the canvas.
unfoldable fill_colour : Rgba → Rectangle → Canvas → Canvas
unfolding rect_bounds
fill_colour col rect c = record c {
  pixel = λ x y. if on_canvas c x y && contains (rect_bounds rect) x y then col else c.pixel x y;
}

-- The colour of the first bytes, in the order blue, green, red.
pub fill_rgba : List ℕ → Rgba
fill_rgba (b ∷ g ∷ r ∷ []) = record { red = r; green = g; blue = b; alpha = 255 }
fill_rgba (b ∷ g ∷ r ∷ a ∷ []) = record { red = r; green = g; blue = b; alpha = a }
fill_rgba (b ∷ g ∷ r ∷ _ ∷ _ ∷ _) = record { red = r; green = g; blue = b; alpha = 255 }
fill_rgba _ = record { red = 0; green = 0; blue = 0; alpha = 255 }

pub fill : List ℕ → Rectangle → Canvas → Canvas
unfolding fill_colour fill_rgba
fill colour_bytes rect c = fill_colour (fill_rgba colour_bytes) rect c

-- What draw.Draw changes: the target bounds, the canvas, and the image laid at the target's corner.
abbrev pub drawn : Canvas → Bounds → ℕ → ℕ → ℕ → ℕ → Bool
drawn c r w h x y =
    (on_canvas c x y && contains r x y) && (ltb (x - r.min_x) w && ltb (y - r.min_y) h)

-- The number of columns or rows that are drawn, from the target's corner on.
abbrev pub clip : ℕ → ℕ → ℕ → ℕ → ℕ
clip lo hi limit size =
    let end = if ltb limit hi then limit else hi in if ltb size (end - lo) then size else end - lo

-- The four bytes of the image from offset `i` on.
abbrev pub rgba_at : List ℕ → ℕ → Rgba
rgba_at pix i = record {
  red = get_or pix i 0;
  green = get_or pix (i + 1) 0;
  blue = get_or pix (i + 2) 0;
  alpha = get_or pix (i + 3) 0;
}

-- The last row that draw.Draw copies is sliced out of the bytes, whose capacity is their length: the
-- slice panics if they are too short.
pub too_short : List ℕ → Rectangle → Bounds → Canvas → Bool
too_short pix rect r c =
    let dx = clip r.min_x r.max_x c.width rect.width in
    let dy = clip r.min_y r.max_y c.height rect.height in
    (ltb 0 dx && ltb 0 dy) && ltb (length pix) (((dy - 1) * rect.width + dx) * 4)

-- draw.Draw of the bytes as an image.RGBA with stride 4 * width.
unfoldable pub draw_bytes_at : List ℕ → Rectangle → Bounds → Canvas → Outcome Canvas
draw_bytes_at pix rect r c =
    if too_short pix rect r c
    then panic index_out_of_range
    else ok (record c {
      pixel = λ x y.
          if drawn c r rect.width rect.height x y
          then rgba_at pix (((y - r.min_y) * rect.width + (x - r.min_x)) * 4)
          else c.pixel x y;
    })

unfoldable pub draw_bytes : List ℕ → Rectangle → Canvas → Outcome Canvas
draw_bytes pix rect c = draw_bytes_at pix rect (rect_bounds rect) c

-- draw.Draw of any other image, of the given size and colours.
unfoldable pub draw : (ℕ → ℕ → Rgba) → ℕ → ℕ → Rectangle → Canvas → Canvas
draw at w h rect c =
    let r = rect_bounds rect in
    record c {
      pixel = λ x y. if drawn c r w h x y then at (x - r.min_x) (y - r.min_y) else c.pixel x y;
    }

-- The colour of the palette at an offset, with full alpha; the three reads panic out of range.
unfoldable pub palette_colour : List ℕ → ℕ → Outcome (List ℕ)
palette_colour palette offset =
    if ltb (offset + 2) (length palette)
    then ok (
        get_or palette offset 0
        ∷ get_or palette (offset + 1) 0
        ∷ get_or palette (offset + 2) 0
        ∷ 255
        ∷ [])
    else panic index_out_of_range

abbrev then_pixels : Outcome (List ℕ) → Outcome (List ℕ) → Outcome (List ℕ)
then_pixels (ok p) (ok ps) = ok (p ++ ps)
then_pixels (ok p) (err e) = err e
then_pixels (ok p) (panic f) = panic f
then_pixels (err e) _ = err e
then_pixels (panic f) _ = panic f

-- Eight bits for each index, for the places that are left; an index beyond them panics, and the places
-- with no index stay zero.
unfoldable pub byte_indexed : ℕ → List ℕ → List ℕ → ℕ → Outcome (List ℕ)
unfolding palette_colour
byte_indexed room [] palette bpp = ok (replicate (room * 4) 0)
byte_indexed zero (i ∷ is) palette bpp = panic index_out_of_range
byte_indexed (suc room) (i ∷ is) palette bpp =
    then_pixels (palette_colour palette (i * bpp)) (byte_indexed room is palette bpp)

-- One bit for each index, counted through the whole rectangle from pixel `i` on.
unfoldable pub bit_indexed : ℕ → ℕ → List ℕ → List ℕ → ℕ → Outcome (List ℕ)
unfolding palette_colour
bit_indexed zero i indexed palette bpp = ok []
bit_indexed (suc room) i indexed palette bpp =
    let rest = bit_indexed room (suc i) indexed palette bpp in
    if ltb (i / 8) (length indexed)
    then then_pixels (palette_colour palette (get_or indexed (i / 8) 0 / 2 ^ (7 - i % 8) % 2 * bpp))
        rest
    else panic index_out_of_range

abbrev draw_decoded : Outcome (List ℕ) → Rectangle → Canvas → Outcome Canvas
draw_decoded (ok pix) rect c = draw_bytes pix rect c
draw_decoded (err e) rect c = err e
draw_decoded (panic f) rect c = panic f

-- `len(paletteData) / 256`
abbrev pub palette_step : List ℕ → ℕ
palette_step palette = length palette / 256

unfoldable pub draw_palette : List ℕ → List ℕ → ℕ → Rectangle → Canvas → Outcome Canvas
draw_palette indexed palette bits rect c =
    let size = rect.width * rect.height in
    let step = palette_step palette in
    if bits == 8
    then draw_decoded (byte_indexed size indexed palette step) rect c
    else if bits == 1
    then draw_decoded (bit_indexed size 0 indexed palette step) rect c
    else err (message "unsupported bitsPerIndex for palette")

-- draw.Draw from the canvas to itself: clipped to the canvas on both sides, and every pixel is read
-- before the copy overwrites it. The sums are of Go's `int` and do not wrap.
pub copy : ℕ → ℕ → ℕ → ℕ → ℕ → ℕ → Canvas → Canvas
copy src_x src_y dst_x dst_y size_x size_y c = record c {
  pixel = λ x y.
      let from_x = x - dst_x + src_x in
      let from_y = y - dst_y + src_y in
      if (on_canvas c x y
          && contains (image_rect dst_x dst_y (dst_x + size_x) (dst_y + size_y)) x y)
        && (ltb from_x c.width && ltb from_y c.height)
      then c.pixel from_x from_y
      else c.pixel x y;
}

unfoldable pub set_cursor : Cursor → ℕ → ℕ → Canvas → Canvas
set_cursor cur hot_x hot_y c = record c {
  cursor = some cur;
  cursor_hot_x = hot_x;
  cursor_hot_y = hot_y;
}

unfoldable pub move_cursor : ℕ → ℕ → Canvas → Canvas
move_cursor x y c = record c { cursor_x = x; cursor_y = y }

unfoldable pub remove_cursor : Canvas → Canvas
remove_cursor c = record c { cursor_shown = false }

-- The cursor's place on the canvas: its corner is at the position less the hot spot, which may be to
-- the left of the canvas or above it.
abbrev under_cursor : Canvas → Cursor → ℕ → ℕ → Bool
under_cursor c cur x y =
    (leb c.cursor_x (x + c.cursor_hot_x) && ltb (x + c.cursor_hot_x) (c.cursor_x + cur.width))
    && (leb c.cursor_y (y + c.cursor_hot_y) && ltb (y + c.cursor_hot_y) (c.cursor_y + cur.height))

-- draw.DrawMask with draw.Over: `blend colour mask old` is the library's arithmetic for one pixel.
abbrev stamp : (Rgba → ℕ → Rgba → Rgba) → Cursor → Canvas → Canvas
stamp blend cur c = record c {
  pixel = λ x y.
      let from_x = x + c.cursor_hot_x - c.cursor_x in
      let from_y = y + c.cursor_hot_y - c.cursor_y in
      if on_canvas c x y && under_cursor c cur x y
      then blend (cur.colour from_x from_y) (cur.mask from_x from_y) (c.pixel x y)
      else c.pixel x y;
  cursor_shown = true;
}

unfoldable pub paint_cursor : (Rgba → ℕ → Rgba → Rgba) → Canvas → Canvas
paint_cursor blend c = elim c.cursor [
  | none ↦ c
  | some cur ↦ if c.cursor_shown then c else stamp blend cur c
]
