-- ===== src/Decode/Zrle/Tiles.antt =====
-- The tiles of encoding_zrle.go. They are read from the zlib reader alone: a call on it is a function
-- of the bytes that it still yields. The loops over the tiles take fuel.
use avacadovnc.Common.{ℕ, zero, suc, ◌+◌, ◌-◌, ◌%◌, Bool, ltb, if◌then◌else◌, ◌&&◌, String}
use avacadovnc.Wire.{u16, be_value}
use avacadovnc.Outcome.{wrap, Outcome, ok, err, panic, out_of_fuel}
use avacadovnc.Canvas.{Rectangle}
use avacadovnc.Conn.{Stream}
use avacadovnc.Decode.Inflate.{stream_full}

-- A call on the zlib reader.
abbrev pub S : Type 0 → Type 0
S A = Stream → Outcome A × Stream

abbrev pub after : {A B : Type 0} → Outcome A × Stream → (A → S B) → Outcome B × Stream
after (ok a, s) f = f a s
after (err e, s) f = (err e, s)
after (panic p, s) f = (panic p, s)

infixl 5 ◌>>=◌ ◌>>◌
abbrev ◌>>=◌ : {A B : Type 0} → S A → (A → S B) → S B
◌>>=◌ m f s = after (m s) f

abbrev ◌>>◌ : {A B : Type 0} → S A → S B → S B
m >> k = m >>= λ _. k

-- `if err != nil { return fmt.Errorf("text: %w", err) }`
abbrev pub labelled : {A : Type 0} → String → Outcome A × Stream → Outcome A × Stream
labelled text (ok a, s) = (ok a, s)
labelled text (err e, s) = (err (wrap text e), s)
labelled text (panic p, s) = (panic p, s)

abbrev or_label : {A : Type 0} → String → S A → S A
or_label text m s = labelled text (m s)

-- `binary.Read` of a uint8.
unfoldable pub stream_u8 : S ℕ
unfolding stream_full be_value
stream_u8 = do bs ← stream_full 1; λ s. (ok (be_value bs), s)

-- How far one byte of a tile reaches: a run, or one pixel.
abbrev pub run_length : Bool → ℕ → ℕ
run_length is_rle val = if is_rle && ltb 127 val then val % 128 + 1 else 1

-- The pixels of a row from `j` on.
unfoldable pub tile_row : ℕ → ℕ → ℕ → Bool → S (Unit {0})
tile_row zero w j is_rle = λ s. (panic out_of_fuel, s)
tile_row (suc fuel) w j is_rle =
    if ltb j w
    then (or_label "zrle: failed to read tile data" stream_u8 >>= λ val.
        tile_row fuel w (u16 (j + run_length is_rle val)) is_rle)
    else λ s. (ok tt, s)

-- `decodeTile`: every row of the tile is read and dropped. A byte moves on by one pixel at least, so
-- `w + 1` rounds are enough for a row.
unfoldable pub decode_tile : ℕ → ℕ → Bool → S (Unit {0})
decode_tile w zero is_rle = λ s. (ok tt, s)
decode_tile w (suc h) is_rle = tile_row (suc w) w 0 is_rle >> decode_tile w h is_rle

-- The colours of the palette are read and not used.
unfoldable pub read_palette : ℕ → ℕ → S (Unit {0})
read_palette zero bpp = λ s. (ok tt, s)
read_palette (suc n) bpp =
    or_label "zrle: failed to read palette color" (stream_full bpp) >> read_palette n bpp

unfoldable pub tile : ℕ → ℕ → ℕ → S (Unit {0})
tile bpp w h = do
  sub_encoding ← or_label "zrle: failed to read sub-encoding" stream_u8
  read_palette (sub_encoding % 128) bpp
  decode_tile w h (ltb 127 sub_encoding)

abbrev pub min : ℕ → ℕ → ℕ
min a b = if ltb a b then a else b

-- `for x := uint16(0); x < rect.Width;`
unfoldable pub tiles_of_row : ℕ → ℕ → Rectangle → ℕ → ℕ → S (Unit {0})
tiles_of_row zero bpp rect x y = λ s. (panic out_of_fuel, s)
tiles_of_row (suc fuel) bpp rect x y =
    if ltb x rect.width
    then (tile bpp (min 16 (rect.width - x)) (min 16 (rect.height - y))
        >> tiles_of_row fuel bpp rect (u16 (x + min 16 (rect.width - x))) y)
    else λ s. (ok tt, s)

-- `for y := uint16(0); y < rect.Height;`
unfoldable pub tile_rows : ℕ → ℕ → ℕ → Rectangle → ℕ → S (Unit {0})
tile_rows zero width_fuel bpp rect y = λ s. (panic out_of_fuel, s)
tile_rows (suc fuel) width_fuel bpp rect y =
    if ltb y rect.height
    then (tiles_of_row width_fuel bpp rect 0 y >> tile_rows fuel width_fuel bpp rect (u16 (y + 16)))
    else λ s. (ok tt, s)
