-- ===== src/FileReader/Jobs.antt =====
-- What an update asks for, without its bytes: rectangles of pixels, copies, one-coloured rectangles,
-- places of the pointer and rows of tiles. `apply` is what each does to the canvas, and `job_data` its bytes as the decoders take
-- them: a colour and a pixel have as many bytes as `BPP` of the format says.
use avacadovnc.Common.{◌+◌, ◌≤◌, none, ℕ, ◌*◌, ◌≡◌, ◌≢◌, List, [], ◌∷◌, ◌++◌, length}
use avacadovnc.Wire.{IsU16, be16, be32}
use avacadovnc.Canvas.{Canvas, Rectangle, copy, fill, move_cursor}
use avacadovnc.Canvas.Fill.{Fits}
use avacadovnc.Canvas.Bytes.{blit}
use avacadovnc.Decode.Hextile.Tiles.{Tile, draw_rows, rows_bytes, AreRows}

pub data Job : Type 0 where
  raw_pixels : List ℕ → Job
  copy_from : ℕ → ℕ → Job
  one_colour : List ℕ → Job
  point_here : Job
  tiles : List (List Tile) → Job

-- A rectangle, and what it asks for.
abbrev pub Placed : Type 0
Placed = Rectangle × Job

abbrev pub apply : Placed → Canvas → Canvas
apply (r, raw_pixels bytes) k = blit bytes r k
apply (r, copy_from x y) k = copy x y r.x r.y r.width r.height k
apply (r, one_colour colour) k = fill colour r k
apply (r, point_here) k = move_cursor r.x r.y k
apply (r, tiles rows) k = draw_rows rows r r.y (none, k)

abbrev pub apply_all : List Placed → Canvas → Canvas
apply_all [] k = k
apply_all (p ∷ ps) k = apply_all ps (apply p k)

-- The types of raw, copy-rect, RRE, pointer-position and Hextile rectangles, and their data.
abbrev pub job_type : Job → ℕ
job_type (raw_pixels bytes) = 0
job_type (copy_from x y) = 1
job_type (one_colour colour) = 2
job_type point_here = 4294967038
job_type (tiles rows) = 5

abbrev pub job_data : Job → List ℕ
job_data (raw_pixels bytes) = bytes
job_data (copy_from x y) = be16 x ++ be16 y
job_data (one_colour colour) = be32 0 ++ colour
job_data point_here = []
job_data (tiles rows) = rows_bytes rows

abbrev pub field_bytes : Rectangle → List ℕ
field_bytes r = be16 r.x ++ (be16 r.y ++ (be16 r.width ++ be16 r.height))

abbrev pub placed_bytes : Placed → List ℕ
placed_bytes (r, j) = field_bytes r ++ (be32 (job_type j) ++ job_data j)

abbrev pub placed_all : List Placed → List ℕ
placed_all [] = []
placed_all (p ∷ ps) = placed_bytes p ++ placed_all ps

abbrev pub update_bytes : List Placed → List ℕ
update_bytes ps = 0 ∷ (be16 (length ps) ++ placed_all ps)

-- The data has the size that the decoder will read, for pixels of `bpp` bytes each.
abbrev pub IsJob : ℕ → Rectangle → Job → Type 0
IsJob bpp r (raw_pixels bytes) =
    Fits r × (r.width * r.height ≢ 0) × (length bytes ≡ r.width * r.height * bpp)
IsJob bpp r (copy_from x y) = IsU16 x × IsU16 y
IsJob bpp r (one_colour colour) = length colour ≡ bpp
IsJob bpp r point_here = Unit {0}
IsJob bpp r (tiles rows) =
    (r.x + r.width ≤ 65520) × (r.y + r.height ≤ 65520) × AreRows bpp r r.y rows

pub record IsPlaced (bpp : ℕ) (p : Placed) : Type 0 where
  pub x_u16 : IsU16 p.0.x
  pub y_u16 : IsU16 p.0.y
  pub width_u16 : IsU16 p.0.width
  pub height_u16 : IsU16 p.0.height
  pub no_type : p.0.enc_type ≡ 0
  pub job : IsJob bpp p.0 p.1
