-- ===== src/Tests/Pixels.antt =====
-- Pixels at concrete inputs.
use avacadovnc.Common.{◌≡◌, refl, [], ◌∷◌, arith, inl, none}
use avacadovnc.Outcome.{ok}
use avacadovnc.Pixel.{PixelFormat, default_pixel_format}
use avacadovnc.Canvas.{Rgba}
use avacadovnc.Convert.{pixel_to_rgba}
use avacadovnc.Convert.Colours.{
  IsShare, true_colour_bounds, IsByteFormat, IsOpaque, read_colour, read_pixel_colour,
}
use avacadovnc.Tests.Data.{client_of}

-- 16 bits: 5 for red, 6 for green and 5 for blue.
abbrev five_six_five : PixelFormat
five_six_five = record default_pixel_format {
  bpp = 16;
  depth = 16;
  red_max = 31;
  green_max = 63;
  blue_max = 31;
  red_shift = 11;
  green_shift = 5;
  blue_shift = 0;
}

true_colour_bounds_example :
    let col = pixel_to_rgba 0 64544 five_six_five none in
    IsShare 64544 11 31 col.red
    × (IsShare 64544 5 63 col.green × (IsShare 64544 0 31 col.blue × (col.alpha ≡ 255)))
true_colour_bounds_example =
    true_colour_bounds 0 64544 five_six_five none (λ e. omega arith) (λ e. omega arith)
      (λ e. omega arith) (λ e. omega arith)

abbrev orange : Rgba
orange = record { red = 255; green = 130; blue = 7; alpha = 255 }

default-IsByteFormat : IsByteFormat default_pixel_format
default-IsByteFormat = record {
  bits = refl;
  direct = λ e. omega arith;
  red_byte = refl;
  green_byte = refl;
  blue_byte = refl;
  middle = refl;
  outer = inl (refl, refl);
}

orange-IsOpaque : IsOpaque orange
orange-IsOpaque = record {
  red_fits = omega arith;
  green_fits = omega arith;
  blue_fits = omega arith;
  full = refl;
}

read_pixel_colour_example :
    read_colour 0 default_pixel_format none (client_of (7 ∷ 130 ∷ 255 ∷ 0 ∷ 9 ∷ []))
    ≡ (ok orange, client_of (9 ∷ []))
read_pixel_colour_example =
    read_pixel_colour 0 default_pixel_format none orange (9 ∷ [])
      (client_of (7 ∷ 130 ∷ 255 ∷ 0 ∷ 9 ∷ [])) default-IsByteFormat orange-IsOpaque refl
