-- ===== src/Decode/Hextile/Spots.antt =====
-- The Hextile decoder draws one tile.
use native.Mathlib.Nat.{suc-mul}
use avacadovnc.Common.{
  ℕ, zero, suc, ◌+◌, ◌*◌, ◌<◌, ◌≤◌, ◌≡◌, ◌≢◌, ◌∙◌, refl, ap, List, [], ◌∷◌, ◌++◌, length, Option,
  some, All, true, arith, append_assoc,
}
use avacadovnc.Outcome.{ok}
use avacadovnc.Canvas.{Canvas, Rectangle, fill}
use avacadovnc.Conn.{Conn}
use avacadovnc.Conn.Access.{is_client}
use avacadovnc.Conn.Reads.{read_full_given, read_u8_given}
use avacadovnc.Decode.Plain.Laws.{raw_read_draws}
use avacadovnc.Decode.Hextile.{
  Colours, tile_at, sub_rect_at, sub_rect_colour, tile_sub_rect, tile_sub_rects, announced,
  tile_body, tile_of_mask, tile_read,
}
use avacadovnc.Decode.Hextile.Tiles.{
  Spot, Tile, raw_tile, plain_tile, same_tile, spotted_tile, area_of, tile_area, draw_spots,
  draw_tile, known_after, geometry, spot_bytes, spots_bytes, tile_bytes, IsSpot, IsTile,
}

-- The connection after a part of the stream and of the drawing.
abbrev pub onward : Conn → List ℕ → Canvas → Conn
onward c rest k = record c { input = rest; canvas = some k }

-- Without a wrap the tile of the code is the one that is cut at the edges.
pub tile_at-cut :
    (r : Rectangle) (x y : ℕ)
    → x < r.x + r.width
    → y < r.y + r.height
    → r.x + r.width ≤ 65520
    → r.y + r.height ≤ 65520
    → tile_at r x y ≡ tile_area r x y
unfolding tile_at
tile_at-cut r x y hx hy fx fy = ground arith

spot_area :
    (bpp : ℕ) (t : Rectangle) (s : Spot)
    → IsSpot bpp s
    → t.x < 65520
    → t.y < 65520
    → sub_rect_at t (geometry s) ≡ area_of (t.x + s.dx) (t.y + s.dy) s.width s.height
unfolding sub_rect_at
spot_area bpp t s v hx hy =
    ground (arith, v.dx_fits, v.dy_fits, v.width_fits, v.height_fits, v.some_width, v.some_height)

-- A client with a canvas.
pub record IsViewer (c : Conn) (k : Canvas) : Type 0 where
  pub a_client : is_client c ≡ true
  pub canvas : c.canvas ≡ some k

pub onward-IsViewer :
    (c : Conn) (k k' : Canvas) (rest : List ℕ) → IsViewer c k → IsViewer (onward c rest k') k'
onward-IsViewer c k k' rest h = record { a_client = h.a_client; canvas = refl }

module _ (bpp : ℕ) (t : Rectangle) (hx : t.x < 65520) (hy : t.y < 65520) where
  spot_read :
      (fg : Option (List ℕ)) (s : Spot) (rest : List ℕ) (c : Conn) (k : Canvas)
      → IsViewer c k
      → IsSpot bpp s
      → c.input ≡ spot_bytes s ++ rest
      → tile_sub_rect 26 bpp fg t c ≡ (
        ok tt,
        onward c rest (fill s.colour (area_of (t.x + s.dx) (t.y + s.dy) s.width s.height) k),
      )
  unfolding tile_sub_rect sub_rect_colour
  spot_read fg s rest c k h v inp =
      let after : List ℕ = geometry s ++ rest in
      ground (
        arith,
        h.a_client,
        h.canvas,
        read_full_given bpp s.colour after c (inp ∙ append_assoc s.colour (geometry s) rest)
            v.coloured,
        read_full_given 2 (geometry s) rest (record c { input = after }) refl refl,
        spot_area bpp t s v hx hy,
      )

  spots_read :
      (fg : Option (List ℕ)) (ss : List Spot) (rest : List ℕ) (c : Conn) (k : Canvas)
      → IsViewer c k
      → All (IsSpot bpp) ss
      → c.input ≡ spots_bytes ss ++ rest
      → tile_sub_rects (length ss) 26 bpp fg t c ≡ (ok tt, onward c rest (draw_spots ss t k))
  unfolding tile_sub_rects
  spots_read fg [] rest c k h v inp = ap (λ (d : Conn). (ok tt, d)) (ground (arith, h.canvas, inp))
  spots_read fg (s ∷ ss) rest c k h (v, vs) inp =
      let after : List ℕ = spots_bytes ss ++ rest in
      let k' : Canvas = fill s.colour (area_of (t.x + s.dx) (t.y + s.dy) s.width s.height) k in
      rw (spot_read fg s after c k h v (inp ∙ append_assoc (spot_bytes s) (spots_bytes ss) rest))
        (spots_read fg ss rest (onward c after k') k' (onward-IsViewer c k k' after h) vs refl)

some_area : (w h : ℕ) → w ≢ 0 → h ≢ 0 → w * h ≢ 0
some_area zero h p q = absurd (p refl)
some_area (suc w) h p q = λ e. q (omega (arith, suc-mul w h))

-- What the decoder has of a tile: its colours, and the connection.
abbrev pub kept : Tile → Colours → Colours
kept t colours = record colours { background = known_after t colours.background }

module _ (bpp : ℕ) (t : Rectangle) (hx : t.x < 65520) (hy : t.y < 65520) (some_width : t.width ≢ 0)
    (some_height : t.height ≢ 0) (fx : t.x + t.width < 65536) (fy : t.y + t.height < 65536)
    (pixels : 4 ≤ bpp) where
  pub tile_drawn :
      (tile : Tile) (colours : Colours) (rest : List ℕ) (c : Conn) (k : Canvas)
      → IsViewer c k
      → c.pixel_format.bpp ≡ bpp
      → IsTile bpp t tile
      → c.input ≡ tile_bytes tile ++ rest
      → tile_read bpp colours t c
        ≡ (ok (kept tile colours), onward c rest (draw_tile tile t colours.background k))
  unfolding tile_read tile_of_mask tile_body announced
  tile_drawn (raw_tile bytes) colours rest c k h e len inp =
      let sized : length bytes ≡ t.width * t.height * c.pixel_format.bpp = rw e len in
      let plenty : 4 ≤ c.pixel_format.bpp = rw e pixels in
      let c1 : Conn = record c { input = bytes ++ rest } in
      ground (
        arith,
        read_u8_given 1 (bytes ++ rest) c inp,
        raw_read_draws t c1 k bytes rest h.a_client h.canvas plenty (fx, fy)
            (some_area t.width t.height some_width some_height) sized refl,
      )
  tile_drawn (plain_tile colour) colours rest c k h e len inp = ground (
    arith,
    h.a_client,
    h.canvas,
    read_u8_given 2 (colour ++ rest) c inp,
    read_full_given bpp colour rest (record c { input = colour ++ rest }) refl len,
  )
  tile_drawn same_tile colours rest c k h e u inp =
      ground (arith, h.a_client, h.canvas, read_u8_given 0 rest c inp)
  tile_drawn (spotted_tile colour spots) colours rest c k h e (len, few, vs) inp =
      let i3 : List ℕ = spots_bytes spots ++ rest in
      let i2 : List ℕ = length spots ∷ i3 in
      let i1 : List ℕ = colour ++ i2 in
      let plain : c.input ≡ 26 ∷ i1 =
        inp
        ∙ ap (λ (l : List ℕ). 26 ∷ l)
            (append_assoc colour (length spots ∷ spots_bytes spots) rest) in
      let c3 : Conn = onward c i3 (fill colour t k) in
      ground (
        arith,
        h.a_client,
        h.canvas,
        read_u8_given 26 i1 c plain,
        read_full_given bpp colour i2 (record c { input = i1 }) refl len,
        read_u8_given (length spots) i3 (record c { input = i2 }) refl,
        spots_read bpp t hx hy colours.foreground spots rest c3 (fill colour t k)
            (onward-IsViewer c k (fill colour t k) i3 h) vs refl,
      )
