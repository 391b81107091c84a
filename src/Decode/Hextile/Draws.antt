-- ===== src/Decode/Hextile/Draws.antt =====
-- The Hextile decoder draws its tiles.
use avacadovnc.Common.{
  ℕ, zero, suc, ◌+◌, ◌*◌, ◌<◌, ◌≤◌, ◌≡◌, ◌∙◌, refl, List, [], ◌∷◌, ◌++◌, none, some, true, ltb,
  arith, append_assoc,
}
use avacadovnc.Wire.{u16}
use avacadovnc.Outcome.{ok}
use avacadovnc.Canvas.{Canvas, Rectangle}
use avacadovnc.Conn.{Conn}
use avacadovnc.Conn.Access.{is_client}
use avacadovnc.Decode.Hextile.{
  Colours, tile_at, tile_read, tiles_of_row, tile_rows, loop_rounds, hextile_read,
}
use avacadovnc.Decode.Hextile.Tiles.{
  Tile, tile_area, draw_tile, draw_row, draw_rows, tile_bytes, row_bytes, rows_bytes, IsTile, IsRow,
  AreRows,
}
use avacadovnc.Decode.Hextile.Spots.{
  onward, IsViewer, onward-IsViewer, kept, tile_at-cut, tile_drawn,
}

module _ (bpp : ℕ) (r : Rectangle) (pixels : 4 ≤ bpp) (fx : r.x + r.width ≤ 65520)
    (fy : r.y + r.height ≤ 65520) where
  -- The tile that the decoder takes at a place of the rectangle.
  tile_at_drawn :
      (tile : Tile) (x y : ℕ) (colours : Colours) (rest : List ℕ) (c : Conn) (k : Canvas)
      → x < r.x + r.width
      → y < r.y + r.height
      → IsViewer c k
      → c.pixel_format.bpp ≡ bpp
      → IsTile bpp (tile_area r x y) tile
      → c.input ≡ tile_bytes tile ++ rest
      → tile_read bpp colours (tile_at r x y) c ≡ (
        ok (kept tile colours),
        onward c rest (draw_tile tile (tile_area r x y) colours.background k),
      )
  tile_at_drawn tile x y colours rest c k hx hy h e v inp = rw (tile_at-cut r x y hx hy fx fy) (
      tile_drawn bpp (tile_area r x y) (omega arith) (omega arith) (λ z. ground arith)
        (λ z. ground arith) (ground arith) (ground arith) pixels tile colours rest c k h e v inp)

  row_drawn :
      (fuel y : ℕ) (ts : List Tile) (x : ℕ) (colours : Colours) (rest : List ℕ) (c : Conn)
      (k : Canvas)
      → y < r.y + r.height
      → x < r.x + r.width + 16
      → r.x + r.width + 16 ≤ x + 16 * fuel
      → IsViewer c k
      → c.pixel_format.bpp ≡ bpp
      → IsRow bpp r x y ts
      → c.input ≡ row_bytes ts ++ rest
      → let end = draw_row ts r x y colours.background k in
        tiles_of_row fuel bpp r x y colours c
        ≡ (ok (record colours { background = end.0 }), onward c rest end.1)
  unfolding tiles_of_row
  row_drawn zero y ts x colours rest c k hy near enough h e v inp = absurd (omega arith)
  row_drawn (suc fuel) y [] x colours rest c k hy near enough h e v inp =
      ground (arith, h.canvas, inp)
  row_drawn (suc fuel) y (t ∷ ts) x colours rest c k hy near enough h e (hx, v, vs) inp =
      let after : List ℕ = row_bytes ts ++ rest in
      let k' : Canvas = draw_tile t (tile_area r x y) colours.background k in
      let more : ltb x (u16 (r.x + r.width)) ≡ true = ground arith in
      let step : u16 (x + 16) ≡ x + 16 = omega arith in
      let one =
        tile_at_drawn t x y colours after c k hx hy h e v
          (inp ∙ append_assoc (tile_bytes t) (row_bytes ts) rest) in
      let others =
        row_drawn fuel y ts (x + 16) (kept t colours) rest (onward c after k') k' hy (omega arith)
          (omega arith) (onward-IsViewer c k k' after h) e vs refl in
      rw (more, one, step) others

  rows_drawn :
      (fuel width_fuel : ℕ) (rows : List (List Tile)) (y : ℕ) (colours : Colours) (rest : List ℕ)
      (c : Conn) (k : Canvas)
      → y < r.y + r.height + 16
      → r.y + r.height + 16 ≤ y + 16 * fuel
      → r.width + 16 ≤ 16 * width_fuel
      → IsViewer c k
      → c.pixel_format.bpp ≡ bpp
      → AreRows bpp r y rows
      → c.input ≡ rows_bytes rows ++ rest
      → tile_rows fuel width_fuel bpp r y colours c
        ≡ (ok tt, onward c rest (draw_rows rows r y (colours.background, k)))
  unfolding tile_rows
  rows_drawn zero width_fuel rows y colours rest c k near enough wide h e v inp =
      absurd (omega arith)
  rows_drawn (suc fuel) width_fuel [] y colours rest c k near enough wide h e v inp =
      ground (arith, h.canvas, inp)
  rows_drawn (suc fuel) width_fuel (row ∷ rows) y colours rest c k near enough wide h e (hy, v, vs)
        inp =
      let after : List ℕ = rows_bytes rows ++ rest in
      let end = draw_row row r r.x y colours.background k in
      let more : ltb y (u16 (r.y + r.height)) ≡ true = ground arith in
      let step : u16 (y + 16) ≡ y + 16 = omega arith in
      let one =
        row_drawn width_fuel y row r.x colours after c k hy (omega arith) (omega arith) h e v
          (inp ∙ append_assoc (row_bytes row) (rows_bytes rows) rest) in
      let others =
        rows_drawn fuel width_fuel rows (y + 16) (record colours { background = end.0 }) rest
          (onward c after end.1) end.1 (omega arith) (omega arith) wide
          (onward-IsViewer c k end.1 after h) e vs refl in
      rw (more, one, step) others

rounds : loop_rounds ≡ 4096
rounds = unfold loop_rounds in refl

-- On a client with a canvas and a format whose `BPP` is at least four, for a rectangle that ends at 65520 or
-- before in both directions, and tiles in the layout that the decoder expects, in which each colour and each
-- pixel of a raw tile has `BPP` bytes (32 for a format of 32 bits, eight times what the protocol sends): the
-- decoder takes the tiles row by row, each raw, of one colour, of the background of the tiles before, or of a
-- background with rectangles of other colours on it. It fills with the first bytes of a colour, draws the first
-- four bytes for each pixel of a raw tile's data in row order, each tile at its place, in their order, does
-- nothing else to the canvas, and leaves the rest of the stream.
pub hextile_read_draws :
    (r : Rectangle) (rows : List (List Tile)) (rest : List ℕ) (c : Conn) (k : Canvas)
    → is_client c ≡ true
    → c.canvas ≡ some k
    → 4 ≤ c.pixel_format.bpp
    → r.x + r.width ≤ 65520
    → r.y + r.height ≤ 65520
    → AreRows c.pixel_format.bpp r r.y rows
    → c.input ≡ rows_bytes rows ++ rest
    → hextile_read r c ≡ (ok tt, onward c rest (draw_rows rows r r.y (none, k)))
unfolding hextile_read
hextile_read_draws r rows rest c k isc hk pixels fx fy v inp =
    let blank : Colours = record { background = none; foreground = none } in
    let loop =
      rows_drawn c.pixel_format.bpp r pixels fx fy loop_rounds loop_rounds rows r.y blank rest c k
        (omega arith) (omega (arith, rounds)) (omega (arith, rounds))
        (record { a_client = isc; canvas = hk }) refl v inp in
    ground (arith, loop)
