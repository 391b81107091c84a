-- ===== src/Decode/Hextile/Loops.antt =====
-- When the loops of the Hextile decoder end.
use avacadovnc.Common.{
  ℕ, zero, suc, ◌+◌, ◌%◌, ◌*◌, ◌<◌, ◌≤◌, ◌≡◌, List, Bool, true, false, Option, none, arith, refl,
  ltb, String, Bool-cases, inl, inr,
}
use avacadovnc.Wire.{u16}
use avacadovnc.Outcome.{panic, out_of_fuel}
use avacadovnc.Canvas.{Rectangle, draw_bytes, draw_bytes_at}
use avacadovnc.Conn.{Conn, read_full, read_u8}
use avacadovnc.Conn.Rules.{Halts, resume-Halts, read_u8-Halts}
use avacadovnc.Decode.Plain.{raw_read}
use avacadovnc.Decode.Hextile.{
  Colours, tile_at, sub_rect_colour, tile_sub_rect, tile_sub_rects, announced, tile_body, tile_read,
  tile_of_mask, tiles_of_row, tile_rows, loop_rounds, hextile_read,
}

raw_read-Halts : (r : Rectangle) (c : Conn) → Halts (raw_read r c)
unfolding raw_read read_full draw_bytes draw_bytes_at
raw_read-Halts r c = ground arith

sub_rect_colour-Halts :
    (mask bpp : ℕ) (fg : Option (List ℕ)) (c : Conn) → Halts (sub_rect_colour mask bpp fg c)
unfolding sub_rect_colour read_full
sub_rect_colour-Halts mask bpp fg c = ground arith

tile_sub_rect-Halts :
    (mask bpp : ℕ) (fg : Option (List ℕ)) (t : Rectangle) (c : Conn)
    → Halts (tile_sub_rect mask bpp fg t c)
unfolding tile_sub_rect read_full
tile_sub_rect-Halts mask bpp fg t c = grind (arith, sub_rect_colour-Halts)

tile_sub_rects-Halts :
    (n mask bpp : ℕ) (fg : Option (List ℕ)) (t : Rectangle) (c : Conn)
    → Halts (tile_sub_rects n mask bpp fg t c)
unfolding tile_sub_rects
tile_sub_rects-Halts zero mask bpp fg t c = ground arith
tile_sub_rects-Halts (suc n) mask bpp fg t c = ground (
  arith,
  tile_sub_rect-Halts mask bpp fg t c,
  tile_sub_rects-Halts n mask bpp fg t (tile_sub_rect mask bpp fg t c).1,
)

announced-Halts :
    (b : Bool) (text : String) (bpp : ℕ) (kept : Option (List ℕ)) (c : Conn)
    → Halts (announced b text bpp kept c)
unfolding announced read_full
announced-Halts true text bpp kept c = ground arith
announced-Halts false text bpp kept c = ground arith

tile_body-Halts :
    (mask bpp : ℕ) (colours : Colours) (t : Rectangle) (c : Conn)
    → Halts (tile_body mask bpp colours t c)
unfolding tile_body read_u8 read_full
tile_body-Halts mask bpp colours t c = grind (arith, announced-Halts, tile_sub_rects-Halts)

tile_of_mask-Halts :
    (mask bpp : ℕ) (colours : Colours) (t : Rectangle) (c : Conn)
    → Halts (tile_of_mask mask bpp colours t c)
unfolding tile_of_mask
tile_of_mask-Halts mask bpp colours t c =
    ground (arith, raw_read-Halts t c, tile_body-Halts mask bpp colours t c)

tile_read-Halts :
    (bpp : ℕ) (colours : Colours) (t : Rectangle) (c : Conn) → Halts (tile_read bpp colours t c)
unfolding tile_read
tile_read-Halts bpp colours t c = grind (arith, read_u8-Halts, tile_of_mask-Halts)

-- With no wrap on the way to the end of the row, `fuel` rounds from `x` on are enough.
tiles_of_row-Halts :
    (fuel bpp : ℕ) (r : Rectangle) (x y : ℕ) (colours : Colours) (c : Conn)
    → r.x + r.width ≤ 65520
    → x < r.x + r.width + 16
    → r.x + r.width + 16 ≤ x + 16 * fuel
    → Halts (tiles_of_row fuel bpp r x y colours c)
unfolding tiles_of_row
tiles_of_row-Halts zero bpp r x y colours c fit near enough = absurd (omega arith)
tiles_of_row-Halts (suc fuel) bpp r x y colours c fit near enough =
    elim (Bool-cases (ltb x (u16 (r.x + r.width)))) [
      | inl more ↦ rw more (
          resume-Halts (tile_read bpp colours (tile_at r x y) c)
            (λ kept. tiles_of_row fuel bpp r (u16 (x + 16)) y kept)
            (tile_read-Halts bpp colours (tile_at r x y) c)
            (λ kept c1.
              tiles_of_row-Halts fuel bpp r (u16 (x + 16)) y kept c1 fit (ground arith)
                (ground arith)))
      | inr stop ↦ rw stop (λ p. cc)
    ]

tile_rows-Halts :
    (fuel width_fuel bpp : ℕ) (r : Rectangle) (y : ℕ) (colours : Colours) (c : Conn)
    → r.x + r.width ≤ 65520
    → r.width + 16 ≤ 16 * width_fuel
    → r.y + r.height ≤ 65520
    → y < r.y + r.height + 16
    → r.y + r.height + 16 ≤ y + 16 * fuel
    → Halts (tile_rows fuel width_fuel bpp r y colours c)
unfolding tile_rows
tile_rows-Halts zero width_fuel bpp r y colours c fit wide fit_y near enough = absurd (omega arith)
tile_rows-Halts (suc fuel) width_fuel bpp r y colours c fit wide fit_y near enough =
    elim (Bool-cases (ltb y (u16 (r.y + r.height)))) [
      | inl more ↦ rw more (
          resume-Halts (tiles_of_row width_fuel bpp r r.x y colours c)
            (λ kept. tile_rows fuel width_fuel bpp r (u16 (y + 16)) kept)
            (tiles_of_row-Halts width_fuel bpp r r.x y colours c fit (omega arith) (omega arith))
            (λ kept c1.
              tile_rows-Halts fuel width_fuel bpp r (u16 (y + 16)) kept c1 fit wide fit_y
                (ground arith) (ground arith)))
      | inr stop ↦ rw stop (λ p. cc)
    ]

-- For a rectangle that ends at 65520 or before in both directions, the decoder ends on every stream:
-- the rounds of its loops are enough.
pub hextile_read-Halts :
    (r : Rectangle) (c : Conn)
    → r.x + r.width ≤ 65520
    → r.y + r.height ≤ 65520
    → Halts (hextile_read r c)
unfolding hextile_read
hextile_read-Halts r c fit fit_y = ground (
  arith,
  rounds_enough,
  tile_rows-Halts loop_rounds loop_rounds c.pixel_format.bpp r r.y
      (record { background = none; foreground = none }) c fit,
)
  where
    rounds_enough : loop_rounds ≡ 4096
    rounds_enough = unfold loop_rounds in refl

rows_forever :
    (fuel width_fuel bpp : ℕ) (r : Rectangle) (y : ℕ) (colours : Colours) (c : Conn)
    → r.width ≡ 0
    → r.x < 65536
    → 65520 + r.y % 16 < r.y + r.height
    → r.y + r.height < 65536
    → y < 65536
    → y % 16 ≡ r.y % 16
    → tile_rows fuel (suc width_fuel) bpp r y colours c ≡ (panic out_of_fuel, c)
unfolding tile_rows tiles_of_row
rows_forever zero width_fuel bpp r y colours c flat hx far near hy mult = refl
rows_forever (suc fuel) width_fuel bpp r y colours c flat hx far near hy mult =
    ground (arith, rows_forever fuel width_fuel bpp r (u16 (y + 16)) colours c)

-- For a rectangle of no width that ends below 65536, but so near that the last step of 16 before its
-- end wraps around: whatever number of rounds the outer loop is given, it uses them all up and has
-- read nothing.
tile_rows_spins :
    (fuel width_fuel bpp : ℕ) (r : Rectangle) (colours : Colours) (c : Conn)
    → r.width ≡ 0
    → r.x < 65536
    → 65520 + r.y % 16 < r.y + r.height
    → r.y + r.height < 65536
    → tile_rows fuel (suc width_fuel) bpp r r.y colours c ≡ (panic out_of_fuel, c)
tile_rows_spins fuel width_fuel bpp r colours c flat hx far near =
    rows_forever fuel width_fuel bpp r r.y colours c flat hx far near (omega arith) refl
