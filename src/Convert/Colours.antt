-- ===== src/Convert/Colours.antt =====
-- What the channels of `PixelToRGBA` are.
use Prim.Native.Nat.{bit_and}
use avacadovnc.Common.{
  ℕ, suc, ◌+◌, ◌*◌, ◌/◌, ◌%◌, ◌^◌, ◌≤◌, ◌<◌, ◌≡◌, ◌≢◌, ◌⊎◌, inr, List, ◌++◌, Option, ◌==◌,
  if◌then◌else◌, refl, ap, sym, ◌∙◌, arith,
}
use native.Mathlib.Nat.{div-le_of_le-mul, div-mul-le_self, lt-div-mul-add}
use avacadovnc.Outcome.{ok}
use avacadovnc.Pixel.{PixelFormat}
use avacadovnc.Canvas.{Rgba}
use avacadovnc.Conn.{Conn, M, Color, return, ◌>>=◌}
use avacadovnc.Convert.{pixel_to_rgba, read_pixel, channel}
use avacadovnc.Convert.Digits.{bit_and_le, bit_and_low}
use avacadovnc.Convert.Laws.{low_first, high_first, read_pixel_given}

-- `shown` is the whole part of 255 times the share that the masked bits of the pixel have in `max_value`.
pub record IsShare (pixel shift max_value shown : ℕ) : Type 0 where
  pub byte_sized : shown ≤ 255
  pub least : shown * max_value ≤ bit_and (pixel / 2 ^ shift) max_value * 255
  pub most : bit_and (pixel / 2 ^ shift) max_value * 255 < suc shown * max_value

channel-IsShare :
    (nan pixel shift m : ℕ) → m ≢ 0 → IsShare pixel shift m (channel nan pixel shift m)
channel-IsShare nan pixel shift m positive =
    let v = bit_and (pixel / 2 ^ shift) m in
    let masked : v ≤ m = bit_and_le (pixel / 2 ^ shift) m in
    let some_max : 0 < m = omega arith in
    let below : v * 255 / m ≤ 255 = div-le_of_le-mul m (omega (arith, masked)) in
    let exact : channel nan pixel shift m ≡ v * 255 / m = ground (arith, below) in
    rw exact (record {
      byte_sized = below;
      least = div-mul-le_self (v * 255) m;
      most = omega (arith, lt-div-mul-add {a = v * 255} some_max);
    })

abbrev channels : ℕ → ℕ → PixelFormat → Rgba
channels nan pixel pf = record {
  red = channel nan pixel pf.red_shift pf.red_max;
  green = channel nan pixel pf.green_shift pf.green_max;
  blue = channel nan pixel pf.blue_shift pf.blue_max;
  alpha = 255;
}

pixel_to_rgba-channels :
    (nan pixel : ℕ) (pf : PixelFormat) (cm : Option (List Color))
    → pf.true_color ≢ 0
    → pixel_to_rgba nan pixel pf cm ≡ channels nan pixel pf
unfolding pixel_to_rgba
pixel_to_rgba-channels nan pixel pf cm t = ground arith

-- In a true-colour format with no maximum of 0, each channel that PixelToRGBA gives is at most 255 and is
-- the whole part of 255 times the share of the masked bits of the pixel in their maximum; alpha is 255.
pub true_colour_bounds :
    (nan pixel : ℕ) (pf : PixelFormat) (cm : Option (List Color))
    → pf.true_color ≢ 0
    → pf.red_max ≢ 0
    → pf.green_max ≢ 0
    → pf.blue_max ≢ 0
    → let col = pixel_to_rgba nan pixel pf cm in
      IsShare pixel pf.red_shift pf.red_max col.red
      × (IsShare pixel pf.green_shift pf.green_max col.green
          × (IsShare pixel pf.blue_shift pf.blue_max col.blue × (col.alpha ≡ 255)))
true_colour_bounds nan pixel pf cm t r g b = rw (pixel_to_rgba-channels nan pixel pf cm t) (
  channel-IsShare nan pixel pf.red_shift pf.red_max r,
  (
    channel-IsShare nan pixel pf.green_shift pf.green_max g,
    (channel-IsShare nan pixel pf.blue_shift pf.blue_max b, refl),
  ),
)

-- The pixel of a colour in a format whose channels are bytes.
abbrev packed : PixelFormat → Rgba → ℕ
packed pf k = k.red * 2 ^ pf.red_shift + k.green * 2 ^ pf.green_shift + k.blue * 2 ^ pf.blue_shift

-- 32 bits with a byte for each channel, red either highest or lowest.
pub record IsByteFormat (pf : PixelFormat) : Type 0 where
  pub bits : pf.bpp ≡ 32
  pub direct : pf.true_color ≢ 0
  pub red_byte : pf.red_max ≡ 255
  pub green_byte : pf.green_max ≡ 255
  pub blue_byte : pf.blue_max ≡ 255
  pub middle : pf.green_shift ≡ 8
  pub outer :
      ((pf.red_shift ≡ 16) × (pf.blue_shift ≡ 0)) ⊎ ((pf.red_shift ≡ 0) × (pf.blue_shift ≡ 16))

pub record IsOpaque (k : Rgba) : Type 0 where
  pub red_fits : k.red < 256
  pub green_fits : k.green < 256
  pub blue_fits : k.blue < 256
  pub full : k.alpha ≡ 255

channel_byte :
    (nan pixel shift v : ℕ) → pixel / 2 ^ shift % 256 ≡ v → channel nan pixel shift 255 ≡ v
channel_byte nan pixel shift v e = ground (arith, bit_and_low (pixel / 2 ^ shift) 8)

pixel_to_rgba-packed :
    (nan : ℕ) (pf : PixelFormat) (cm : Option (List Color)) (k : Rgba)
    → IsByteFormat pf
    → IsOpaque k
    → pixel_to_rgba nan (packed pf k) pf cm ≡ k
pixel_to_rgba-packed nan pf cm k f o =
    let red : channel nan (packed pf k) pf.red_shift 255 ≡ k.red =
      channel_byte nan (packed pf k) pf.red_shift k.red (ground (arith, f.outer)) in
    let green : channel nan (packed pf k) pf.green_shift 255 ≡ k.green =
      channel_byte nan (packed pf k) pf.green_shift k.green (ground (arith, f.outer)) in
    let blue : channel nan (packed pf k) pf.blue_shift 255 ≡ k.blue =
      channel_byte nan (packed pf k) pf.blue_shift k.blue (ground (arith, f.outer)) in
    pixel_to_rgba-channels nan (packed pf k) pf cm f.direct ∙ ground (arith, red, green, blue)

packed-IsU32 :
    (pf : PixelFormat) (k : Rgba) → IsByteFormat pf → IsOpaque k → packed pf k < 4294967296
packed-IsU32 pf k f o = ground (arith, f.outer)

-- The bytes of a pixel of so many bits, in the order that the format asks for.
abbrev ordered : PixelFormat → ℕ → ℕ → List ℕ
ordered pf bits p = if pf.big_endian == 0 then low_first bits p else high_first bits p

-- `ReadPixel`, and the colour of what it reads.
abbrev pub read_colour : ℕ → PixelFormat → Option (List Color) → M Rgba
read_colour nan pf cm = read_pixel pf >>= λ p. return (pixel_to_rgba nan p pf cm)

-- In a true-colour format of 32 bits with a byte for each channel, green in the middle and red above or
-- below: a colour of full alpha, packed at the format's shifts and written in the format's order, is
-- read by ReadPixel and made by PixelToRGBA into the same colour; what follows is left.
pub read_pixel_colour :
    (nan : ℕ) (pf : PixelFormat) (cm : Option (List Color)) (k : Rgba) (rest : List ℕ) (c : Conn)
    → IsByteFormat pf
    → IsOpaque k
    → c.input ≡ ordered pf 32 (packed pf k) ++ rest
    → read_colour nan pf cm c ≡ (ok k, record c { input = rest })
read_pixel_colour nan pf cm k rest c f o inp =
    let sized = ap (λ (bits : ℕ). ordered pf bits (packed pf k) ++ rest) (sym f.bits) in
    let pixel =
      read_pixel_given pf (packed pf k) rest c (inr (inr (f.bits, packed-IsU32 pf k f o)))
        (inp ∙ sized) in
    rw (pixel, pixel_to_rgba-packed nan pf cm k f o) refl
