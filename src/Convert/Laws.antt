-- ===== src/Convert/Laws.antt =====
-- A pixel that was written in the order of its format is read back.
use avacadovnc.Common.{
  ℕ, ◌<◌, ◌/◌, ◌≡◌, ◌⊎◌, ◌↔◌, List, [], ◌∷◌, ◌++◌, arith, ◌==◌, if◌then◌else◌, inl, inr,
}
use avacadovnc.Wire.{byte, be_value, le_value}
use avacadovnc.Outcome.{ok}
use avacadovnc.Pixel.{PixelFormat, order}
use avacadovnc.Conn.{Conn}
use avacadovnc.Conn.Reads.{read_full_given}
use avacadovnc.Convert.{read_pixel, pixel_order, value_in}

-- The bytes of a pixel, lowest first and highest first.
abbrev pub low_first : ℕ → ℕ → List ℕ
low_first bpp p =
    if bpp == 8
    then byte p ∷ []
    else if bpp == 16
    then byte p ∷ byte (p / 256) ∷ []
    else byte p ∷ byte (p / 256) ∷ byte (p / 65536) ∷ byte (p / 16777216) ∷ []

abbrev pub high_first : ℕ → ℕ → List ℕ
high_first bpp p =
    if bpp == 8
    then byte p ∷ []
    else if bpp == 16
    then byte (p / 256) ∷ byte p ∷ []
    else byte (p / 16777216) ∷ byte (p / 65536) ∷ byte (p / 256) ∷ byte p ∷ []

-- The pixel fits the size of the format, which is one of the three.
abbrev FitsFormat : ℕ → ℕ → Type 0
FitsFormat bpp p =
    ((bpp ≡ 8) × (p < 256)) ⊎ (((bpp ≡ 16) × (p < 65536)) ⊎ ((bpp ≡ 32) × (p < 4294967296)))

module _ (pf : PixelFormat) (p : ℕ) (rest : List ℕ) (c : Conn) where
  -- For a pixel that fits a format of 8, 16 or 32 bits: written lowest byte first if the format's
  -- big-endian flag is 0, and highest byte first for every other flag, it is read back, and what
  -- follows is left.
  pub read_pixel_given :
      FitsFormat pf.bpp p
      → c.input ≡ (if pf.big_endian == 0 then low_first pf.bpp p else high_first pf.bpp p) ++ rest
      → read_pixel pf c ≡ (ok p, record c { input = rest })
  unfolding read_pixel pixel_order value_in be_value le_value
  read_pixel_given (inl (size, small)) inp = ground (arith, read_full_given 1 (byte p ∷ []) rest c)
  read_pixel_given (inr (inl (size, small))) inp = ground (
    arith,
    read_full_given 2 (byte p ∷ byte (p / 256) ∷ []) rest c,
    read_full_given 2 (byte (p / 256) ∷ byte p ∷ []) rest c,
  )
  read_pixel_given (inr (inr (size, small))) inp =
      ground (
        arith,
        read_full_given 4 (low_first 32 p) rest c,
        read_full_given 4 (high_first 32 p) rest c,
      )

-- The two readers of the big-endian flag agree exactly on the flags 0 and 1.
pixel_order-order : (pf : PixelFormat) → (pixel_order pf ≡ order pf) ↔ (pf.big_endian < 2)
unfolding pixel_order order
pixel_order-order pf = (λ h. ground arith, λ h. ground arith)
