-- ===== src/Decode/Hextile.antt =====
-- encoding_hextile.go: tiles of 16 by 16. The two loops over the tiles take fuel: `loop_rounds` rounds
-- are enough where the last tile ends at 65520 or before.
pub mod Loops
pub mod Tiles
pub mod Spots
pub mod Draws
use avacadovnc.Common.{
  ℕ, zero, suc, ◌+◌, ◌-◌, ◌*◌, ◌/◌, ◌%◌, ◌^◌, List, [], ◌∷◌, ◌++◌, Bool, true, false, Option, none,
  some, ◌==◌, ltb, if◌then◌else◌, String,
}
use avacadovnc.Wire.{u16}
use avacadovnc.Outcome.{Outcome, ok, err, panic, message, out_of_fuel}
use avacadovnc.Canvas.{Canvas, Rectangle, fill}
use avacadovnc.Conn.{
  Conn, M, return, fail, crash, done, gets, or_wrap, resume, wrapped, ◌>>=◌, ◌>>◌, read_full,
  read_u8,
}
use avacadovnc.Conn.Access.{is_client}
use avacadovnc.Decode.Plain.{paint, paint_on, bytes_per_pixel, raw_read}

-- The background and the foreground, kept from tile to tile; `none` is a nil slice.
pub record Colours : Type 0 where
  pub background : Option (List ℕ)
  pub foreground : Option (List ℕ)

-- `mask & (1 << k) != 0`
abbrev bit_set : ℕ → ℕ → Bool
bit_set k mask = mask / 2 ^ k % 2 == 1

abbrev rectangle : ℕ → ℕ → ℕ → ℕ → Rectangle
rectangle x y w h = record { x = x; y = y; width = w; height = h; enc_type = 0 }

-- Fill with a colour that may be nil.
abbrev fill_if : Option (List ℕ) → Rectangle → M (Unit {0})
fill_if none rect = done
fill_if (some colour) rect = paint (λ k. ok (fill colour rect k))

-- The tile at (x, y): its size is cut at the far edges of the rectangle; all sums are uint16.
pub tile_at : Rectangle → ℕ → ℕ → Rectangle
tile_at rect x y =
    let right = u16 (rect.x + rect.width) in
    let bottom = u16 (rect.y + rect.height) in
    rectangle x y (if ltb right (u16 (x + 16)) then u16 (right + 65536 - x) else 16)
      (if ltb bottom (u16 (y + 16)) then u16 (bottom + 65536 - y) else 16)

-- The place of a sub-rectangle in its tile, from its two bytes of geometry.
sub_rect_at : Rectangle → List ℕ → Rectangle
sub_rect_at tile (xy ∷ wh ∷ _) =
    rectangle (u16 (tile.x + xy / 16 % 16)) (u16 (tile.y + xy % 16)) (wh / 16 % 16 + 1)
      (wh % 16 + 1)
sub_rect_at tile _ = tile

-- The colour of a sub-rectangle: its own if the mask says so, or the foreground.
pub sub_rect_colour : ℕ → ℕ → Option (List ℕ) → M (Option (List ℕ))
sub_rect_colour mask bpp foreground =
    if bit_set 4 mask
    then (do
      colour ← or_wrap "hextile: failed to read sub-rect color" (read_full bpp)
      return (some colour))
    else return foreground

pub tile_sub_rect : ℕ → ℕ → Option (List ℕ) → Rectangle → M (Unit {0})
tile_sub_rect mask bpp foreground tile = do
  colour ← sub_rect_colour mask bpp foreground
  geometry ← or_wrap "hextile: failed to read sub-rect geometry" (read_full 2)
  fill_if colour (sub_rect_at tile geometry)

pub tile_sub_rects : ℕ → ℕ → ℕ → Option (List ℕ) → Rectangle → M (Unit {0})
tile_sub_rects zero mask bpp foreground tile = done
tile_sub_rects (suc n) mask bpp foreground tile =
    tile_sub_rect mask bpp foreground tile >> tile_sub_rects n mask bpp foreground tile

-- A colour that the mask announces, or the one that was kept.
pub announced : Bool → String → ℕ → Option (List ℕ) → M (Option (List ℕ))
announced true text bpp kept = do colour ← or_wrap text (read_full bpp); return (some colour)
announced false text bpp kept = return kept

-- What follows the mask of a tile that is not raw.
pub tile_body : ℕ → ℕ → Colours → Rectangle → M Colours
tile_body mask bpp colours tile = do
  background ←
      announced (bit_set 1 mask) "hextile: failed to read background color" bpp colours.background
  foreground ←
      announced (bit_set 2 mask) "hextile: failed to read foreground color" bpp colours.foreground
  if bit_set 3 mask
      then (do
        n ← or_wrap "hextile: failed to read number of sub-rects" read_u8
        fill_if background tile
        tile_sub_rects n mask bpp foreground tile)
      else fill_if background tile
  return (record { background = background; foreground = foreground })

-- A raw tile is read by the raw decoder, and keeps the colours.
pub tile_of_mask : ℕ → ℕ → Colours → Rectangle → M Colours
tile_of_mask mask bpp colours tile =
    if bit_set 0 mask
    then (or_wrap "hextile: raw sub-encoding failed" (raw_read tile) >> return colours)
    else tile_body mask bpp colours tile

pub tile_read : ℕ → Colours → Rectangle → M Colours
tile_read bpp colours tile = do
  mask ← or_wrap "hextile: failed to read sub-encoding mask" read_u8
  tile_of_mask mask bpp colours tile

-- `for x := rect.X; x < rect.X+rect.Width; x += 16`
pub tiles_of_row : ℕ → ℕ → Rectangle → ℕ → ℕ → Colours → M Colours
tiles_of_row zero bpp rect x y colours = crash out_of_fuel
tiles_of_row (suc fuel) bpp rect x y colours =
    if ltb x (u16 (rect.x + rect.width))
    then (tile_read bpp colours (tile_at rect x y) >>= λ kept.
        tiles_of_row fuel bpp rect (u16 (x + 16)) y kept)
    else return colours

-- `for y := rect.Y; y < rect.Y+rect.Height; y += 16`
pub tile_rows : ℕ → ℕ → ℕ → Rectangle → ℕ → Colours → M (Unit {0})
tile_rows zero width_fuel bpp rect y colours = crash out_of_fuel
tile_rows (suc fuel) width_fuel bpp rect y colours =
    if ltb y (u16 (rect.y + rect.height))
    then (tiles_of_row width_fuel bpp rect rect.x y colours >>= λ kept.
        tile_rows fuel width_fuel bpp rect (u16 (y + 16)) kept)
    else done

-- More than 65520 / 16.
pub loop_rounds : ℕ
loop_rounds = 4096

pub hextile_read : Rectangle → M (Unit {0})
hextile_read rect = do
  for_client ← gets is_client
  bpp ← gets bytes_per_pixel
  if for_client
      then (if bpp == 0
          then fail (message "hextile: bytes per pixel is zero")
          else tile_rows loop_rounds loop_rounds bpp rect rect.y
              (record { background = none; foreground = none }))
      else fail (message "hextile: connection is not a client connection")
