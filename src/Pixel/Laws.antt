-- ===== src/Pixel/Laws.antt =====
-- The wire form of a pixel format reads back, and what `Marshal` accepts.
use avacadovnc.Common.{ℕ, ◌≤◌, ◌≡◌, List, length, arith, refl, ◌⊎◌, ◌↔◌}
use avacadovnc.Outcome.{ok}
use avacadovnc.Pixel.{PixelFormat, IsPixelFormat, encode_format, decode_format, marshal}

pub length-encode_format : (pf : PixelFormat) → length (encode_format pf) ≡ 16
unfolding encode_format
length-encode_format pf = refl

-- Reading a written pixel format gives it back.
pub decode_format-encode_format :
    (pf : PixelFormat) → IsPixelFormat pf → decode_format (encode_format pf) ≡ pf
unfolding encode_format decode_format
decode_format-encode_format pf h = ground arith

-- `Marshal` accepts exactly the formats whose size and depth are 8, 16 or 32 with the depth at
-- least the size, and what it returns is the wire form; every other format is an error.
pub marshal_ok_iff :
    (pf : PixelFormat) (bytes : List ℕ)
    → (marshal pf ≡ ok bytes) ↔ (
        (bytes ≡ encode_format pf)
        × ((pf.bpp ≡ 8) ⊎ ((pf.bpp ≡ 16) ⊎ (pf.bpp ≡ 32)))
        × ((pf.depth ≡ 8) ⊎ ((pf.depth ≡ 16) ⊎ (pf.depth ≡ 32)))
        × (pf.bpp ≤ pf.depth))
unfolding marshal
marshal_ok_iff pf bytes = (λ h. ground arith, λ h. ground arith)
