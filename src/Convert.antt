-- ===== src/Convert.antt =====
-- `ReadPixel` and `PixelToRGBA` of encoding_util.go.
pub mod Laws
pub mod Digits
pub mod Colours
use avacadovnc.Common.{
  ℕ, ◌+◌, ◌*◌, ◌/◌, ◌^◌, List, Option, none, some, get_elem?, ◌==◌, if◌then◌else◌, Bool, true,
  false,
}
use avacadovnc.Wire.{be_value, le_value, byte}
use avacadovnc.Outcome.{Outcome, ok, err, panic, message}
use avacadovnc.Pixel.{PixelFormat, ByteOrder}
use avacadovnc.Canvas.{Rgba}
use avacadovnc.Conn.{Conn, M, Color, return, fail, or_wrap, resume, wrapped, ◌>>=◌, read_full}
use Prim.Native.Nat.{bit_and}

-- `pixelOrder`: a big-endian flag other than 0 is read as big-endian.
pub pixel_order : PixelFormat → ByteOrder
pixel_order pf = if pf.big_endian == 0 then ByteOrder.little_endian else ByteOrder.big_endian

pub value_in : ByteOrder → List ℕ → ℕ
value_in ByteOrder.big_endian bs = be_value bs
value_in ByteOrder.little_endian bs = le_value bs

pub read_pixel : PixelFormat → M ℕ
read_pixel pf =
    if pf.bpp == 8
    then (do
      bs ← or_wrap "failed to read 8-bit pixel" (read_full 1)
      return (value_in (pixel_order pf) bs))
    else if pf.bpp == 16
    then (do
      bs ← or_wrap "failed to read 16-bit pixel" (read_full 2)
      return (value_in (pixel_order pf) bs))
    else if pf.bpp == 32
    then (do
      bs ← or_wrap "failed to read 32-bit pixel" (read_full 4)
      return (value_in (pixel_order pf) bs))
    else fail (message "unsupported BPP")

-- `uint8(float64(v) * 255.0 / float64(max))` for `v` up to `max`: the numbers are small enough that the
-- quotient of float64 has the same whole part. For `max` 0 it is a NaN, whose conversion Go leaves to
-- the machine: `nan` is its result.
abbrev scaled : ℕ → ℕ → ℕ → ℕ
scaled nan v max_value = if max_value == 0 then byte nan else byte (v * 255 / max_value)

abbrev channel : ℕ → ℕ → ℕ → ℕ → ℕ
channel nan pixel shift max_value = scaled nan (bit_and (pixel / 2 ^ shift) max_value) max_value

abbrev entry_colour : Option Color → Rgba
entry_colour none = record { red = 0; green = 0; blue = 0; alpha = 255 }
entry_colour (some col) = record {
  red = byte col.red;
  green = byte col.green;
  blue = byte col.blue;
  alpha = 255;
}

-- An entry of the colour map, black where there is no map or no entry.
unfoldable mapped : Option (List Color) → ℕ → Rgba
mapped none pixel = entry_colour none
mapped (some cm) pixel = entry_colour (get_elem? cm pixel)

pub pixel_to_rgba : ℕ → ℕ → PixelFormat → Option (List Color) → Rgba
unfolding mapped
pixel_to_rgba nan pixel pf cm = if pf.true_color == 0 then mapped cm pixel else record {
  red = channel nan pixel pf.red_shift pf.red_max;
  green = channel nan pixel pf.green_shift pf.green_max;
  blue = channel nan pixel pf.blue_shift pf.blue_max;
  alpha = 255;
}
