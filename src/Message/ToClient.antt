-- ===== src/Message/ToClient.antt =====
-- The messages of a server other than the framebuffer update (encoding_types.go, lines 629 to 837).
pub mod Laws
use avacadovnc.Common.{
  ℕ, zero, suc, ◌+◌, ◌/◌, ◌^◌, ◌<◌, List, [], ◌∷◌, ◌++◌, Bool, true, false, Option, none, some,
  length, ltb, ◌==◌, if◌then◌else◌, get_elem?, set, replicate, ◌||◌,
}
use Prim.Native.Nat.{bit_and}
use avacadovnc.Wire.{be16, be32, be_value, le_value, u16, u32}
use avacadovnc.Outcome.{Outcome, ok, err, panic, nil_dereference, index_out_of_range}
use avacadovnc.Pixel.{PixelFormat, ByteOrder, order}
use avacadovnc.Conn.{
  Conn, M, Color, return, crash, done, gets, resume, ◌>>=◌, ◌>>◌, read_full, read_u16, read_u32,
  write, flush, binary_invalid,
}
use avacadovnc.Conn.Access.{zero_color, set_color_map}

-- `ServerCutTextMessage`.
pub record CutText : Type 0 where
  pub length_field : ℕ
  pub text : List ℕ

unfoldable bell_write : M (Unit {0})
unfolding write flush
bell_write = do write (2 ∷ []); flush

-- Only the text is set: the field `Length` keeps what it was.
unfoldable pub cut_text_read : CutText → M CutText
cut_text_read m = do
  padding ← read_full 3
  n ← read_u32
  text ← read_full n
  return (record m { text = text })

-- `m.Length` after the code has raised it to the length of the text.
abbrev length_of : CutText → ℕ
length_of m =
    if ltb m.length_field (u32 (length m.text)) then u32 (length m.text) else m.length_field

-- The result is the message as the call leaves it.
pub cut_text_write : CutText → M CutText
cut_text_write m = do
  write (3 ∷ [])
  write (0 ∷ [])
  write (be32 (length_of m))
  write m.text
  flush
  return (record m { length_field = length_of m })

-- `Color`, with the pixel format and the colour map that it points to, each of which may be nil.
pub record ColorRef : Type 0 where
  pub pf : Option PixelFormat
  pub cm : Option (List Color)
  pub colour : Color

-- The bytes of a pixel in the order of the format.
abbrev in_order : PixelFormat → List ℕ → ℕ
in_order pf bs = elim (order pf) [
  | ByteOrder.big_endian ↦ be_value bs
  | ByteOrder.little_endian ↦ le_value bs
]

-- A format of another size reads nothing, and the pixel is 0.
unfoldable read_pixel_of : PixelFormat → M ℕ
read_pixel_of pf =
    if pf.bpp == 8
    then (do bs ← read_full 1; return (in_order pf bs))
    else if pf.bpp == 16
    then (do bs ← read_full 2; return (in_order pf bs))
    else if pf.bpp == 32
    then (do bs ← read_full 4; return (in_order pf bs))
    else return 0

-- `uint16((pixel >> shift) & uint32(max))`
abbrev component : ℕ → ℕ → ℕ → ℕ
component pixel shift max_value = u16 (bit_and (pixel / 2 ^ shift) max_value)

unfoldable looked_up : Option (List Color) → ℕ → M Color
looked_up none pixel = crash nil_dereference
looked_up (some cm) pixel = elim (get_elem? cm pixel) [
  | none ↦ crash index_out_of_range
  | some col ↦ return (record col { cm_index = pixel })
]

unfoldable color_read_as : PixelFormat → ColorRef → M Color
color_read_as pf clr = do
  pixel ← read_pixel_of pf
  if pf.true_color == 0
      then looked_up clr.cm pixel
      else return (record {
        cm_index = clr.colour.cm_index;
        red = component pixel pf.red_shift pf.red_max;
        green = component pixel pf.green_shift pf.green_max;
        blue = component pixel pf.blue_shift pf.blue_max;
      })

-- `clr.pf.order()` dereferences the pixel format before anything is read.
pub color_read : ColorRef → M Color
color_read clr = elim clr.pf [ none ↦ crash nil_dereference | some pf ↦ color_read_as pf clr ]

pub record ColorMapEntries : Type 0 where
  pub first_color : ℕ
  pub colors_num : ℕ
  pub colors : List Color

-- The entries that `make` gives: no pixel format and no colour map.
abbrev made_color : ColorRef
made_color = record { pf = none; cm = none; colour = zero_color }

-- An assignment to an entry of the array of 256 colours.
unfoldable assign : List Color → ℕ → Color → M (List Color)
assign cm i col = if ltb i 256 then return (set cm i col) else crash index_out_of_range

pub read_entries : ℕ → ℕ → ℕ → List Color → List Color → M (List Color × List Color)
read_entries zero first i cm out = return (cm, out)
read_entries (suc n) first i cm out = do
  col ← color_read made_color
  cm' ← assign cm (u16 (first + i)) col
  read_entries n first (suc i) cm' (out ++ (col ∷ []))

pub color_map_read : M ColorMapEntries
color_map_read = do
  pad ← read_full 1
  first ← read_u16
  num ← read_u16
  cm ← gets (λ c. c.color_map)
  (cm', colors) ← read_entries num first 0 cm []
  set_color_map cm'
  return (record { first_color = first; colors_num = num; colors = colors })

-- `Color` holds pointers: binary.Write refuses it.
pub write_colors : List Color → M (Unit {0})
write_colors [] = done
write_colors (col ∷ cols) = binary_invalid {A = Unit {0}} >> write_colors cols

abbrev pub colors_num_of : ColorMapEntries → ℕ
colors_num_of m =
    if ltb m.colors_num (u16 (length m.colors)) then u16 (length m.colors) else m.colors_num

-- The result is the message as the call leaves it.
pub color_map_write : ColorMapEntries → M ColorMapEntries
color_map_write m = do
  write (1 ∷ [])
  write (0 ∷ [])
  write (be16 m.first_color)
  write (be16 (colors_num_of m))
  write_colors m.colors
  flush
  return (record m { colors_num = colors_num_of m })
