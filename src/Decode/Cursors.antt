-- ===== src/Decode/Cursors.antt =====
-- encoding_cursor.go and encoding_xcursor.go. The number of pixels is a uint16 product.
pub mod Picture
use avacadovnc.Common.{
  ℕ, zero, suc, ◌+◌, ◌-◌, ◌*◌, ◌/◌, ◌%◌, ◌^◌, List, [], ◌∷◌, Option, none, some, ◌==◌, ltb,
  if◌then◌else◌, ◌&&◌, get_or, get_elem?,
}
use avacadovnc.Wire.{u16}
use avacadovnc.Outcome.{ok, message}
use avacadovnc.Canvas.{Rectangle, Rgba, Cursor, transparent, set_cursor}
use avacadovnc.Conn.{M, return, fail, gets, or_wrap, ◌>>=◌, read_full, read_u16}
use avacadovnc.Decode.Plain.{paint, bytes_per_pixel}

abbrev num_pixels : Rectangle → ℕ
num_pixels rect = u16 (rect.width * rect.height)

abbrev mask_row : ℕ → ℕ
mask_row width = (width + 7) / 8

-- The colours of the cursor, blue first, where a pixel has four bytes; and its mask, a bit for each
-- pixel. The loop of the code sets the first `num_pixels` places in row order.
unfoldable cursor_of : ℕ → List ℕ → List ℕ → Rectangle → Cursor
cursor_of bpp bitmap bitmask rect = record {
  width = rect.width;
  height = rect.height;
  colour = λ x y.
      let i = y * rect.width + x in
      if ltb x rect.width && (ltb i (num_pixels rect) && bpp == 4)
      then record {
        red = get_or bitmap (i * 4 + 2) 0;
        green = get_or bitmap (i * 4 + 1) 0;
        blue = get_or bitmap (i * 4) 0;
        alpha = 255;
      }
      else transparent;
  mask = λ x y.
      if (ltb x rect.width && ltb (y * rect.width + x) (num_pixels rect))
        && get_or bitmask (y * mask_row rect.width + x / 8) 0 / 2 ^ (7 - x % 8) % 2 == 1
      then 255
      else 0;
}

unfoldable pub cursor_read : Rectangle → M (Unit {0})
unfolding cursor_of
cursor_read rect = do
  bpp ← gets bytes_per_pixel
  if bpp == 0 then fail (message "cursor encoding: bytes per pixel is zero") else (do
    bitmap ← or_wrap "cursor encoding: failed to read bitmap" (read_full (num_pixels rect * bpp))
    bitmask ←
        or_wrap "cursor encoding: failed to read bitmask"
          (read_full (mask_row rect.width * rect.height))
    paint (λ k. ok (set_cursor (cursor_of bpp bitmap bitmask rect) rect.x rect.y k)))

-- A palette entry keeps the high byte of each component.
read_entry : M Rgba
read_entry = do
  r ← read_u16
  g ← read_u16
  b ← read_u16
  return (record { red = r / 256; green = g / 256; blue = b / 256; alpha = 255 })

read_palette : ℕ → M (List Rgba)
unfolding read_entry
read_palette zero = return []
read_palette (suc n) = do entry ← read_entry; rest ← read_palette n; return (entry ∷ rest)

-- The image and its mask after a write at one place; a write outside of them is dropped.
abbrev put {ℓ} : {A : Type ℓ} → ℕ → ℕ → A → (ℕ → ℕ → A) → ℕ → ℕ → A
put x y v f a b = if a == x && b == y then v else f a b

abbrev pub put_value {ℓ} : {A : Type ℓ} → Option A → ℕ → ℕ → (ℕ → ℕ → A) → ℕ → ℕ → A
put_value none x y f = f
put_value (some v) x y f = put x y v f

-- The loop over the pixels, for the image and for the mask: the column is `i % Width`, and the row is
-- `i / Height`. A byte that is no place of the palette changes nothing.
pub xcursor_loop {ℓ} :
    {A : Type ℓ} → (ℕ → Option A) → Rectangle → ℕ → List ℕ → (ℕ → ℕ → A) → ℕ → ℕ → A
xcursor_loop value rect i [] f = f
xcursor_loop value rect i (p ∷ ps) f =
    xcursor_loop value rect (suc i) ps (put_value (value p) (i % rect.width) (i / rect.height) f)

-- The mask has the red of the palette entry.
abbrev pub reds : List Rgba → ℕ → Option ℕ
reds palette p = elim (get_elem? palette p) [ none ↦ none | some col ↦ some col.red ]

xcursor_of : List Rgba → List ℕ → List ℕ → Rectangle → Cursor
unfolding xcursor_loop
xcursor_of palette packed bitmask rect = record {
  width = rect.width;
  height = rect.height;
  colour = λ x y.
      if ltb x rect.width && ltb y rect.height
      then xcursor_loop (get_elem? palette) rect 0 packed (λ a b. transparent) x y
      else transparent;
  mask = λ x y.
      if ltb x rect.width && ltb y rect.height
      then xcursor_loop (reds palette) rect 0 bitmask (λ a b. 0) x y
      else 0;
}

pub xcursor_read : Rectangle → M (Unit {0})
unfolding read_palette xcursor_of
xcursor_read rect = do
  n ← or_wrap "xcursor: failed to read number of colors" read_u16
  palette ← read_palette n
  packed ← or_wrap "xcursor: failed to read packed pixels" (read_full (num_pixels rect))
  bitmask ← or_wrap "xcursor: failed to read bitmask" (read_full (num_pixels rect))
  paint (λ k. ok (set_cursor (xcursor_of palette packed bitmask rect) rect.x rect.y k))
