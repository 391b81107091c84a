-- ===== src/Tests/Cursors.antt =====
-- A cursor, a converted image and pooled buffers at concrete inputs.
use avacadovnc.Common.{
  ℕ, ◌≡◌, refl, List, [], ◌∷◌, ◌++◌, none, some, arith, inl, inr, ℤ, pos, if◌then◌else◌, ◌==◌,
}
use avacadovnc.Wire.{be16}
use avacadovnc.Outcome.{ok}
use avacadovnc.Pixel.{PixelFormat, default_pixel_format, encode_format}
use avacadovnc.Pixel.Laws.{marshal_ok_iff}
use avacadovnc.Pixel.Pool.{Buffers, Pick, marshal_pooled, marshal_overwrites}
use avacadovnc.Canvas.{Cursor, Rgba, set_cursor}
use avacadovnc.Decode.Cursors.{xcursor_read}
use avacadovnc.Decode.Cursors.Picture.{Entry, palette_bytes, IsShown, xcursor_read_square}
use avacadovnc.Images.{Area, AnyColor, other}
use avacadovnc.Tests.Data.{screen, rect_of, viewer_of}

-- Red and blue.
abbrev palette : List Entry
palette = (65535, (0, 0)) ∷ (0, (0, 65535)) ∷ []

-- The fourth pixel has no place in the palette.
abbrev picture : List ℕ
picture = 0 ∷ 1 ∷ 1 ∷ 5 ∷ []

abbrev mask : List ℕ
mask = 0 ∷ 0 ∷ 1 ∷ 0 ∷ []

abbrev cursor_bytes : List ℕ
cursor_bytes = be16 2 ++ (palette_bytes palette ++ (picture ++ (mask ++ 7 ∷ [])))

xcursor_read_square_example :
    (cur : Cursor) × IsShown 2 palette picture mask cur
    × (xcursor_read (rect_of 1 0 2 2) (viewer_of cursor_bytes)
        ≡ (ok tt, record (viewer_of (7 ∷ [])) { canvas = some (set_cursor cur 1 0 screen) }))
xcursor_read_square_example =
    xcursor_read_square (rect_of 1 0 2 2) 2 palette picture mask (7 ∷ []) (viewer_of cursor_bytes)
      screen refl refl refl refl (omega arith) (omega arith)
      ((omega arith, (omega arith, omega arith)), ((omega arith, (omega arith, omega arith)), tt))
      refl refl refl

abbrev eight_bits : PixelFormat
eight_bits = record default_pixel_format { bpp = 8; depth = 8 }

abbrev sixteen_bits : PixelFormat
sixteen_bits = record default_pixel_format { bpp = 16; depth = 16 }

abbrev empty_pool : Buffers
empty_pool = record { fresh = 0; content = λ b. []; pooled = [] }

abbrev last_put : Pick
last_put [] = none
last_put (b ∷ bs) = some (b, bs)

marshal_overwrites_example :
    (a b : ℕ) × (others : List ℕ) × (let one = marshal_pooled last_put eight_bits empty_pool in
      let two = marshal_pooled last_put sixteen_bits one.1 in
      (one.0 ≡ ok a)
      × (two.0 ≡ ok b)
      × (one.1.content a ≡ encode_format eight_bits)
      × (one.1.pooled ≡ a ∷ others)
      × (two.1.content b ≡ encode_format sixteen_bits)
      × (two.1.content a
          ≡ (if a == b then encode_format sixteen_bits else encode_format eight_bits)))
marshal_overwrites_example =
    marshal_overwrites last_put eight_bits sixteen_bits (encode_format eight_bits)
      (encode_format sixteen_bits) empty_pool
      ((marshal_ok_iff eight_bits (encode_format eight_bits)).1
        (refl, inl refl, inl refl, omega arith))
      ((marshal_ok_iff sixteen_bits (encode_format sixteen_bits)).1
        (refl, inr (inl refl), inr (inl refl), omega arith))

abbrev bounds : Area
bounds = record { min_x = pos 1; min_y = pos 1; max_x = pos 3; max_y = pos 2 }

-- A source of grey levels.
abbrev grey : ℕ → Rgba
grey n = record { red = n; green = n; blue = n; alpha = 255 }

abbrev level : ℤ → ℤ → AnyColor ℕ
level x y = other 100
