-- ===== src/Decode/Hextile/Tiles.antt =====
-- What a Hextile rectangle asks for, without its bytes: rows of tiles of 16 by 16, cut at the far edges. `draw_rows`
-- is what they do to the canvas, and `rows_bytes` the layout in which the decoder takes them: a colour, and each pixel of a raw
-- tile, has as many bytes as `BPP` of the format says.
use avacadovnc.Common.{
  ℕ, ◌+◌, ◌-◌, ◌*◌, ◌<◌, ◌≤◌, ◌≡◌, ◌≢◌, List, [], ◌∷◌, ◌++◌, length, Option, none, some, All, ltb,
  if◌then◌else◌,
}
use avacadovnc.Canvas.{Canvas, Rectangle, fill}
use avacadovnc.Canvas.Bytes.{blit}

-- A rectangle inside of a tile: its colour, its place and its size.
pub record Spot : Type 0 where
  pub colour : List ℕ
  pub dx : ℕ
  pub dy : ℕ
  pub width : ℕ
  pub height : ℕ

pub data Tile : Type 0 where
  -- the pixels
  raw_tile : List ℕ → Tile
  -- one colour, which is the background from here on
  plain_tile : List ℕ → Tile
  -- the background of the tiles before
  same_tile : Tile
  -- a new background, and rectangles of other colours on it
  spotted_tile : List ℕ → List Spot → Tile

abbrev pub area_of : ℕ → ℕ → ℕ → ℕ → Rectangle
area_of x y w h = record { x = x; y = y; width = w; height = h; enc_type = 0 }

-- At most 16, and no more than is left.
abbrev cut : ℕ → ℕ
cut left = if ltb left 16 then left else 16

-- The tile at a place of the rectangle.
abbrev pub tile_area : Rectangle → ℕ → ℕ → Rectangle
tile_area r x y = area_of x y (cut (r.x + r.width - x)) (cut (r.y + r.height - y))

abbrev pub draw_spots : List Spot → Rectangle → Canvas → Canvas
draw_spots [] t k = k
draw_spots (s ∷ ss) t k =
    draw_spots ss t (fill s.colour (area_of (t.x + s.dx) (t.y + s.dy) s.width s.height) k)

abbrev fill_known : Option (List ℕ) → Rectangle → Canvas → Canvas
fill_known none t k = k
fill_known (some colour) t k = fill colour t k

-- A tile on the canvas, given the background so far.
abbrev pub draw_tile : Tile → Rectangle → Option (List ℕ) → Canvas → Canvas
draw_tile (raw_tile bytes) t known k = blit bytes t k
draw_tile (plain_tile colour) t known k = fill colour t k
draw_tile same_tile t known k = fill_known known t k
draw_tile (spotted_tile colour spots) t known k = draw_spots spots t (fill colour t k)

abbrev pub known_after : Tile → Option (List ℕ) → Option (List ℕ)
known_after (raw_tile bytes) known = known
known_after (plain_tile colour) known = some colour
known_after same_tile known = known
known_after (spotted_tile colour spots) known = some colour

-- A row of tiles from a place on: the canvas and the background after it.
abbrev pub draw_row :
    List Tile → Rectangle → ℕ → ℕ → Option (List ℕ) → Canvas → Option (List ℕ) × Canvas
draw_row [] r x y known k = (known, k)
draw_row (t ∷ ts) r x y known k =
    draw_row ts r (x + 16) y (known_after t known) (draw_tile t (tile_area r x y) known k)

abbrev pub draw_rows : List (List Tile) → Rectangle → ℕ → Option (List ℕ) × Canvas → Canvas
draw_rows [] r y (known, k) = k
draw_rows (row ∷ rows) r y (known, k) = draw_rows rows r (y + 16) (draw_row row r r.x y known k)

-- The place and the size, each in four bits.
abbrev pub geometry : Spot → List ℕ
geometry s = (s.dx * 16 + s.dy) ∷ ((s.width - 1) * 16 + (s.height - 1)) ∷ []

abbrev pub spot_bytes : Spot → List ℕ
spot_bytes s = s.colour ++ geometry s

abbrev pub spots_bytes : List Spot → List ℕ
spots_bytes [] = []
spots_bytes (s ∷ ss) = spot_bytes s ++ spots_bytes ss

-- The mask, and what it announces: 1 is raw, 2 a background, 8 and 16 rectangles with colours.
abbrev pub tile_bytes : Tile → List ℕ
tile_bytes (raw_tile bytes) = 1 ∷ bytes
tile_bytes (plain_tile colour) = 2 ∷ colour
tile_bytes same_tile = 0 ∷ []
tile_bytes (spotted_tile colour spots) = 26 ∷ (colour ++ length spots ∷ spots_bytes spots)

abbrev pub row_bytes : List Tile → List ℕ
row_bytes [] = []
row_bytes (t ∷ ts) = tile_bytes t ++ row_bytes ts

abbrev pub rows_bytes : List (List Tile) → List ℕ
rows_bytes [] = []
rows_bytes (row ∷ rows) = row_bytes row ++ rows_bytes rows

pub record IsSpot (bpp : ℕ) (s : Spot) : Type 0 where
  pub coloured : length s.colour ≡ bpp
  pub dx_fits : s.dx < 16
  pub dy_fits : s.dy < 16
  pub some_width : s.width ≢ 0
  pub some_height : s.height ≢ 0
  pub width_fits : s.width < 17
  pub height_fits : s.height < 17

-- The data has the size that the decoder will read, for pixels of `bpp` bytes.
abbrev pub IsTile : ℕ → Rectangle → Tile → Type 0
IsTile bpp t (raw_tile bytes) = length bytes ≡ t.width * t.height * bpp
IsTile bpp t (plain_tile colour) = length colour ≡ bpp
IsTile bpp t same_tile = Unit {0}
IsTile bpp t (spotted_tile colour spots) =
    (length colour ≡ bpp) × (length spots < 256) × All (IsSpot bpp) spots

-- The tiles of a row reach its end, and none begins there or behind it.
abbrev pub IsRow : ℕ → Rectangle → ℕ → ℕ → List Tile → Type 0
IsRow bpp r x y [] = r.x + r.width ≤ x
IsRow bpp r x y (t ∷ ts) =
    (x < r.x + r.width) × IsTile bpp (tile_area r x y) t × IsRow bpp r (x + 16) y ts

abbrev pub AreRows : ℕ → Rectangle → ℕ → List (List Tile) → Type 0
AreRows bpp r y [] = r.y + r.height ≤ y
AreRows bpp r y (row ∷ rows) =
    (y < r.y + r.height) × IsRow bpp r r.x y row × AreRows bpp r (y + 16) rows
