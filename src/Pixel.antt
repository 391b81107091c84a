-- ===== src/Pixel.antt =====
-- `PixelFormat` of encoding_types.go (lines 253 to 372): its wire form and its constructors.
pub mod Laws
pub mod Pool
use avacadovnc.Common.{
  ℕ, ◌+◌, ◌*◌, ◌-◌, List, [], ◌∷◌, ◌++◌, Bool, true, false, Option, none, some, length, ltb,
}
use avacadovnc.Common.{◌==◌, if◌then◌else◌, ◌||◌, take}
use avacadovnc.Wire.{IsU8, IsU16, be16, be_value}
use avacadovnc.Outcome.{Outcome, ok, err, panic, message, unexpected_eof, eof}

pub record PixelFormat : Type 0 where
  pub bpp : ℕ
  pub depth : ℕ
  pub big_endian : ℕ
  pub true_color : ℕ
  pub red_max : ℕ
  pub green_max : ℕ
  pub blue_max : ℕ
  pub red_shift : ℕ
  pub green_shift : ℕ
  pub blue_shift : ℕ

-- The fields are in the range of their Go types.
pub record IsPixelFormat (pf : PixelFormat) : Type 0 where
  pub bpp_u8 : IsU8 pf.bpp
  pub depth_u8 : IsU8 pf.depth
  pub big_endian_u8 : IsU8 pf.big_endian
  pub true_color_u8 : IsU8 pf.true_color
  pub red_max_u16 : IsU16 pf.red_max
  pub green_max_u16 : IsU16 pf.green_max
  pub blue_max_u16 : IsU16 pf.blue_max
  pub red_shift_u8 : IsU8 pf.red_shift
  pub green_shift_u8 : IsU8 pf.green_shift
  pub blue_shift_u8 : IsU8 pf.blue_shift

abbrev pub zero_format : PixelFormat
zero_format = record {
  bpp = 0;
  depth = 0;
  big_endian = 0;
  true_color = 0;
  red_max = 0;
  green_max = 0;
  blue_max = 0;
  red_shift = 0;
  green_shift = 0;
  blue_shift = 0;
}

abbrev pub default_pixel_format : PixelFormat
default_pixel_format = record {
  bpp = 32;
  depth = 24;
  big_endian = 0;
  true_color = 1;
  red_max = 255;
  green_max = 255;
  blue_max = 255;
  red_shift = 16;
  green_shift = 8;
  blue_shift = 0;
}

abbrev pixel_format_len : ℕ
pixel_format_len = 16

-- binary.Write of the struct: the three bytes of padding are zero.
unfoldable pub encode_format : PixelFormat → List ℕ
unfolding be16
encode_format pf =
    pf.bpp
    ∷ pf.depth
    ∷ pf.big_endian
    ∷ pf.true_color
    ∷ (be16 pf.red_max
        ++ (be16 pf.green_max
            ++ (be16 pf.blue_max
                ++ (pf.red_shift ∷ pf.green_shift ∷ pf.blue_shift ∷ 0 ∷ 0 ∷ 0 ∷ []))))

-- binary.Read of the struct, from its 16 bytes; the padding is skipped.
unfoldable pub decode_format : List ℕ → PixelFormat
unfolding be_value
decode_format (b ∷ d ∷ e ∷ t ∷ r1 ∷ r0 ∷ g1 ∷ g0 ∷ b1 ∷ b0 ∷ rs ∷ gs ∷ bs ∷ pad) = record {
  bpp = b;
  depth = d;
  big_endian = e;
  true_color = t;
  red_max = be_value (r1 ∷ r0 ∷ []);
  green_max = be_value (g1 ∷ g0 ∷ []);
  blue_max = be_value (b1 ∷ b0 ∷ []);
  red_shift = rs;
  green_shift = gs;
  blue_shift = bs;
}
decode_format _ = zero_format

unfoldable new_pixel_format : ℕ → PixelFormat
new_pixel_format bpp =
    let base : PixelFormat = record {
      bpp = bpp;
      depth = 0;
      big_endian = 0;
      true_color = 1;
      red_max = 255;
      green_max = 255;
      blue_max = 255;
      red_shift = 0;
      green_shift = 0;
      blue_shift = 0;
    } in
    if bpp == 8
    then record base { true_color = 0; depth = 8 }
    else if bpp == 16
    then record base { depth = 16; green_shift = 4; blue_shift = 8 }
    else if bpp == 32
    then record base { depth = 24; red_shift = 16; green_shift = 8 }
    else base

unfoldable new_pixel_format_aten : PixelFormat
new_pixel_format_aten = record {
  bpp = 16;
  depth = 15;
  big_endian = 0;
  true_color = 1;
  red_max = 31;
  green_max = 31;
  blue_max = 31;
  red_shift = 10;
  green_shift = 5;
  blue_shift = 0;
}

-- `case 8, 16, 32`
abbrev is_pixel_size : ℕ → Bool
is_pixel_size n = n == 8 || (n == 16 || n == 32)

pub marshal : PixelFormat → Outcome (List ℕ)
marshal pf =
    if is_pixel_size pf.bpp
    then (if ltb pf.depth pf.bpp
        then err (message "Invalid Depth value; cannot be < BPP")
        else (if is_pixel_size pf.depth
            then ok (encode_format pf)
            else err (message "Invalid Depth value; must be 8, 16, or 32")))
    else err (message "Invalid BPP value; must be 8, 16, or 32")

-- `binary.Read(buf, binary.BigEndian, &pf)` on the bytes of a buffer.
unfoldable read_format : List ℕ → Outcome PixelFormat
read_format bytes =
    if length bytes == 0
    then err eof
    else if ltb (length bytes) pixel_format_len
    then err unexpected_eof
    else ok (decode_format (take pixel_format_len bytes))

-- `Unmarshal` has a value receiver: it decodes into its own copy of `pf`, which ends with the
-- call. The result is the caller's `pf` afterwards, and the error.
unfoldable unmarshal : PixelFormat → List ℕ → PixelFormat × Outcome (Unit {0})
unmarshal pf bytes =
    (pf, elim (read_format bytes) [ ok local ↦ ok tt | err e ↦ err e | panic p ↦ panic p ])

-- `order`: a big-endian flag other than 1 is read as little-endian.
pub data ByteOrder : Type 0 where
  big_endian little_endian : ByteOrder

unfoldable pub order : PixelFormat → ByteOrder
order pf = if pf.big_endian == 1 then ByteOrder.big_endian else ByteOrder.little_endian
