-- ===== src/Decode/Tight/Streams.antt =====
-- The control byte of Tight, its four zlib streams, and its palettes.
use avacadovnc.Common.{
  ℕ, zero, suc, ◌+◌, ◌*◌, ◌/◌, ◌%◌, ◌^◌, ◌<◌, ◌≤◌, ◌≡◌, ◌⊎◌, List, [], ◌∷◌, ◌++◌, Option, none,
  length, arith, refl, if◌then◌else◌, ◌==◌, get_or, inl, inr,
}
use native.Mathlib.Nat.{add-zero}
use avacadovnc.Outcome.{ok}
use avacadovnc.Canvas.{bit_indexed, palette_colour, palette_step}
use avacadovnc.Conn.{Stream}
use avacadovnc.Decode.Tight.{palette, basic_copy, method_of, reset_from}

-- No control byte makes the decoder use the fourth stream: the bits of the stream are among those of
-- the filter, and the filters that are left are for streams 0 to 2.
stream_of_method :
    (control id : ℕ)
    → control < 256
    → (method_of control ≡ palette id) ⊎ (method_of control ≡ basic_copy id)
    → id < 3
unfolding method_of
stream_of_method control id byte (inl e) = ground arith
stream_of_method control id byte (inr e) = ground arith

-- A stream is reset if its bit of the control byte is set, and kept if not.
get_or-reset_from :
    (control k : ℕ) (zs : List (Option Stream)) (j : ℕ)
    → get_or (reset_from control k zs) j none
      ≡ (if control / 2 ^ (k + j) % 2 == 1 then none else get_or zs j none)
unfolding reset_from
get_or-reset_from control k [] j = ground arith
get_or-reset_from control k (z ∷ zs) zero = rw add-zero
get_or-reset_from control k (z ∷ zs) (suc j) =
    rw (suc_shift k j) (get_or-reset_from control (suc k) zs j)
  where
    suc_shift : (a b : ℕ) → a + suc b ≡ suc a + b
    suc_shift a b = omega arith

-- So many pixels of one colour.
abbrev plain_pixels : ℕ → List ℕ → List ℕ
plain_pixels zero pixel = []
plain_pixels (suc n) pixel = pixel ++ plain_pixels n pixel

-- A palette of fewer than 256 bytes, and that is every palette of two colours in a format of up to 127
-- bytes for each pixel: whatever the one-bit indices say, every pixel gets the first colour.
bit_indexed_plain :
    (room i r g b : ℕ) (indexed more : List ℕ)
    → length (r ∷ g ∷ b ∷ more) < 256
    → i + room ≤ 8 * length indexed
    → bit_indexed room i indexed (r ∷ g ∷ b ∷ more) (palette_step (r ∷ g ∷ b ∷ more))
      ≡ ok (plain_pixels room (r ∷ g ∷ b ∷ 255 ∷ []))
unfolding bit_indexed palette_colour
bit_indexed_plain zero i r g b indexed more small long = refl
bit_indexed_plain (suc room) i r g b indexed more small long =
    ground (arith, no_step, bit_indexed_plain room (suc i) r g b indexed more small)
  where
    no_step : palette_step (r ∷ g ∷ b ∷ more) ≡ 0
    no_step = omega arith
