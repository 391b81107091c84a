-- ===== src/Decode/Zrle/Loops.antt =====
-- When the loops over the tiles of a ZRLE rectangle end, and what a tile takes from the reader.
use avacadovnc.Common.{
  ℕ, zero, suc, ◌+◌, ◌-◌, ◌*◌, ◌%◌, ◌<◌, ◌≤◌, String, ◌≡◌, ◌≢◌, List, [], ◌∷◌, ◌++◌, Bool, true,
  false, Bool-cases, inl, inr, ltb, arith, refl, length, length-append, append_assoc, ◌∙◌, take,
  drop, take-append-drop, length-take, sym, ap,
}
use avacadovnc.Wire.{u16}
use avacadovnc.Outcome.{Outcome, ok, err, panic, Error, out_of_fuel}
use avacadovnc.Canvas.{Rectangle}
use avacadovnc.Conn.{Stream}
use avacadovnc.Decode.Inflate.{stream_full}
use avacadovnc.Decode.Zrle.Tiles.{
  S, after, labelled, stream_u8, tile_row, decode_tile, read_palette, tile, tiles_of_row, tile_rows,
  run_length, min,
}

-- The call ends: no loop of the model ran out of rounds.
abbrev Halts : {A : Type 0} → Outcome A × Stream → Type 0
Halts r = r.0 ≢ panic out_of_fuel

after-Halts :
    {A B : Type 0} (r : Outcome A × Stream) (f : A → S B)
    → Halts r
    → ((a : A) (s : Stream) → Halts (f a s))
    → Halts (after r f)
after-Halts (ok a, s) f h k = k a s
after-Halts (err e, s) f h k = λ p. cc
after-Halts (panic p, s) f h k = λ q. h (cc)

labelled-Halts :
    {A : Type 0} (text : String) (r : Outcome A × Stream) → Halts r → Halts (labelled text r)
labelled-Halts text (ok a, s) h = λ p. cc
labelled-Halts text (err e, s) h = λ p. cc
labelled-Halts text (panic q, s) h = λ p. h (cc)

stream_full-Halts : (n : ℕ) (s : Stream) → Halts (stream_full n s)
unfolding stream_full
stream_full-Halts n s = ground arith

stream_u8-Halts : (s : Stream) → Halts (stream_u8 s)
unfolding stream_u8
stream_u8-Halts s = ground arith

run_length_pos :
    (is_rle : Bool) (val : ℕ) → (1 ≤ run_length is_rle val) × (run_length is_rle val ≤ 128)
run_length_pos true val = ground arith
run_length_pos false val = omega arith

tile_row-Halts :
    (fuel w j : ℕ) (is_rle : Bool) (s : Stream)
    → w ≤ 16
    → j < w + 128
    → 0 < fuel
    → w < j + fuel
    → Halts (tile_row fuel w j is_rle s)
unfolding tile_row
tile_row-Halts zero w j is_rle s small near pos enough = absurd (omega arith)
tile_row-Halts (suc fuel) w j is_rle s small near pos enough = elim (Bool-cases (ltb j w)) [
  | inl more ↦ rw more (
      after-Halts (labelled "zrle: failed to read tile data" (stream_u8 s))
        (λ val. tile_row fuel w (u16 (j + run_length is_rle val)) is_rle)
        (labelled-Halts _ (stream_u8 s) (stream_u8-Halts s))
        (λ val s1.
          tile_row-Halts fuel w (u16 (j + run_length is_rle val)) is_rle s1 small
            (ground (arith, run_length_pos is_rle val)) (ground arith)
            (ground (arith, run_length_pos is_rle val))))
  | inr stop ↦ rw stop (λ p. cc)
]

decode_tile-Halts :
    (w h : ℕ) (is_rle : Bool) (s : Stream) → w ≤ 16 → Halts (decode_tile w h is_rle s)
unfolding decode_tile
decode_tile-Halts w zero is_rle s small = λ p. cc
decode_tile-Halts w (suc h) is_rle s small =
    after-Halts (tile_row (suc w) w 0 is_rle s) (λ _. decode_tile w h is_rle)
      (tile_row-Halts (suc w) w 0 is_rle s small (omega arith) (omega arith) (omega arith))
      (λ _ s1. decode_tile-Halts w h is_rle s1 small)

read_palette-Halts : (n bpp : ℕ) (s : Stream) → Halts (read_palette n bpp s)
unfolding read_palette
read_palette-Halts zero bpp s = λ p. cc
read_palette-Halts (suc n) bpp s =
    after-Halts (labelled "zrle: failed to read palette color" (stream_full bpp s))
      (λ _. read_palette n bpp) (labelled-Halts _ (stream_full bpp s) (stream_full-Halts bpp s))
      (λ _ s1. read_palette-Halts n bpp s1)

tile-Halts : (bpp w h : ℕ) (s : Stream) → w ≤ 16 → Halts (tile bpp w h s)
unfolding tile
tile-Halts bpp w h s small =
    after-Halts (labelled "zrle: failed to read sub-encoding" (stream_u8 s)) (λ sub. after_read sub)
      (labelled-Halts _ (stream_u8 s) (stream_u8-Halts s))
      (λ sub s1.
        after-Halts (read_palette (sub % 128) bpp s1) (λ _. decode_tile w h (ltb 127 sub))
          (read_palette-Halts (sub % 128) bpp s1)
          (λ _ s2. decode_tile-Halts w h (ltb 127 sub) s2 small))
  where
    after_read : ℕ → S (Unit {0})
    after_read sub s1 = after (read_palette (sub % 128) bpp s1) (λ _. decode_tile w h (ltb 127 sub))

tiles_of_row-Halts :
    (fuel bpp : ℕ) (r : Rectangle) (x y : ℕ) (s : Stream)
    → r.width < 65536
    → x ≤ r.width
    → r.width + 16 ≤ x + 16 * fuel
    → Halts (tiles_of_row fuel bpp r x y s)
unfolding tiles_of_row
tiles_of_row-Halts zero bpp r x y s hw hx enough = absurd (omega arith)
tiles_of_row-Halts (suc fuel) bpp r x y s hw hx enough = elim (Bool-cases (ltb x r.width)) [
  | inl more ↦ rw more (
      after-Halts (tile bpp (min 16 (r.width - x)) (min 16 (r.height - y)) s)
        (λ _. tiles_of_row fuel bpp r (u16 (x + min 16 (r.width - x))) y)
        (tile-Halts bpp (min 16 (r.width - x)) (min 16 (r.height - y)) s (ground arith))
        (λ _ s1.
          tiles_of_row-Halts fuel bpp r (u16 (x + min 16 (r.width - x))) y s1 hw (ground arith)
            (ground arith)))
  | inr stop ↦ rw stop (λ p. cc)
]

-- For a rectangle of at most 65520 rows the loops over its tiles end on every content of the zlib
-- reader, if the fuel of each loop covers its side of the rectangle with one round to spare.
tile_rows-Halts :
    (fuel width_fuel bpp : ℕ) (r : Rectangle) (y : ℕ) (s : Stream)
    → r.width < 65536
    → r.width + 16 ≤ 16 * width_fuel
    → r.height ≤ 65520
    → y < r.height + 16
    → r.height + 16 ≤ y + 16 * fuel
    → Halts (tile_rows fuel width_fuel bpp r y s)
unfolding tile_rows
tile_rows-Halts zero width_fuel bpp r y s hw wide hh near enough = absurd (omega arith)
tile_rows-Halts (suc fuel) width_fuel bpp r y s hw wide hh near enough =
    elim (Bool-cases (ltb y r.height)) [
      | inl more ↦ rw more (
          after-Halts (tiles_of_row width_fuel bpp r 0 y s)
            (λ _. tile_rows fuel width_fuel bpp r (u16 (y + 16)))
            (tiles_of_row-Halts width_fuel bpp r 0 y s hw (omega arith) (omega arith))
            (λ _ s1.
              tile_rows-Halts fuel width_fuel bpp r (u16 (y + 16)) s1 hw wide hh (ground arith)
                (ground arith)))
      | inr stop ↦ rw stop (λ p. cc)
    ]

-- A tile without runs takes one byte for each of its pixels, and leaves the rest to the next tile.
tile_row_plain :
    (fuel w j : ℕ) (row rest : List ℕ) (e : Error)
    → w ≤ 16
    → length row + j ≡ w
    → length row < fuel
    → tile_row fuel w j false (row ++ rest, e) ≡ (ok tt, (rest, e))
unfolding tile_row stream_u8 stream_full
tile_row_plain zero w j row rest e small len enough = absurd (omega arith)
tile_row_plain (suc fuel) w j [] rest e small len enough = ground arith
tile_row_plain (suc fuel) w j (b ∷ row) rest e small len enough =
    ground (arith, tile_row_plain fuel w (u16 (j + 1)) row rest e small)

-- A tile of at most 16 columns without runs takes width * height bytes from the reader, one for each
-- pixel, and leaves the rest to the next tile.
decode_tile_plain :
    (w h : ℕ) (pixels rest : List ℕ) (e : Error)
    → w ≤ 16
    → length pixels ≡ h * w
    → decode_tile w h false (pixels ++ rest, e) ≡ (ok tt, (rest, e))
unfolding decode_tile
decode_tile_plain w zero [] rest e small len = refl
decode_tile_plain w zero (b ∷ bs) rest e small len = absurd (omega arith)
decode_tile_plain w (suc h) pixels rest e small len =
    let row : List ℕ = take w pixels in
    let others : List ℕ = drop w pixels in
    let split : pixels ≡ row ++ others = sym (take-append-drop w pixels) in
    let first : length row ≡ w = length-take w pixels (omega arith) in
    let next : length others ≡ h * w = omega (arith, length-append row others, ap length split) in
    let joined : pixels ++ rest ≡ row ++ (others ++ rest) =
      ap (λ (l : List ℕ). l ++ rest) split ∙ append_assoc row others rest in
    ground (
      arith,
      joined,
      tile_row_plain (suc w) w 0 row (others ++ rest) e small,
      decode_tile_plain w h others rest e small next,
    )
