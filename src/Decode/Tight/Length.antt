-- ===== src/Decode/Tight/Length.antt =====
-- The compact length in front of the data of Tight and TightPNG.
use avacadovnc.Common.{
  ℕ, ◌+◌, ◌*◌, ◌/◌, ◌%◌, ◌<◌, ◌≡◌, List, [], ◌∷◌, ◌++◌, length, arith, refl, ltb, if◌then◌else◌,
}
use avacadovnc.Outcome.{ok}
use avacadovnc.Conn.{Conn}
use avacadovnc.Conn.Reads.{read_full_given, read_u8_given}
use avacadovnc.Decode.Tight.{LengthTexts, read_compressed_data, read_second, read_third, read_bytes}

-- The length as the Tight protocol writes it: seven bits, seven bits and eight bits, lowest first,
-- with the top bit of the first two bytes set where another byte follows.
pub compact_length : ℕ → List ℕ
compact_length n =
    if ltb n 128
    then n ∷ []
    else if ltb n 16384
    then (n % 128 + 128) ∷ (n / 128) ∷ []
    else (n % 128 + 128) ∷ (n / 128 % 128 + 128) ∷ (n / 16384) ∷ []

read_bytes_given :
    (texts : LengthTexts) (bytes rest : List ℕ) (c : Conn)
    → c.input ≡ bytes ++ rest
    → read_bytes texts (length bytes) c ≡ (ok bytes, record c { input = rest })
unfolding read_bytes
read_bytes_given texts [] rest c inp = ground arith
read_bytes_given texts (b ∷ bs) rest c inp =
    ground (arith, read_full_given (length (b ∷ bs)) (b ∷ bs) rest c inp refl)

module _ (texts : LengthTexts) (bytes rest : List ℕ) (c : Conn) where
  one_byte :
      length bytes < 128
      → c.input ≡ length bytes ∷ (bytes ++ rest)
      → read_compressed_data texts c ≡ (ok bytes, record c { input = rest })
  unfolding read_compressed_data
  one_byte small inp = ground (
    arith,
    read_u8_given (length bytes) (bytes ++ rest) c inp,
    read_bytes_given texts bytes rest (record c { input = bytes ++ rest }) refl,
  )

  two_bytes :
      length bytes < 16384
      → c.input ≡ (length bytes % 128 + 128) ∷ (length bytes / 128) ∷ (bytes ++ rest)
      → read_compressed_data texts c ≡ (ok bytes, record c { input = rest })
  unfolding read_compressed_data read_second
  two_bytes small inp =
      let whole : (length bytes % 128 + 128) % 128 + length bytes / 128 % 128 * 128 ≡ length bytes =
        omega arith in
      let i1 : List ℕ = (length bytes / 128) ∷ (bytes ++ rest) in
      ground (
        arith,
        whole,
        read_u8_given (length bytes % 128 + 128) i1 c inp,
        read_u8_given (length bytes / 128) (bytes ++ rest) (record c { input = i1 }) refl,
        read_bytes_given texts bytes rest (record c { input = bytes ++ rest }) refl,
      )

  three_bytes :
      length bytes < 4194304
      → c.input
        ≡ (length bytes % 128 + 128)
          ∷ (length bytes / 128 % 128 + 128)
          ∷ (length bytes / 16384)
          ∷ (bytes ++ rest)
      → read_compressed_data texts c ≡ (ok bytes, record c { input = rest })
  unfolding read_compressed_data read_second read_third
  three_bytes small inp =
      let n = length bytes in
      let whole : ((n % 128 + 128) % 128 + (n / 128 % 128 + 128) % 128 * 128) + n / 16384 * 16384
          ≡ n =
        omega arith in
      let i2 : List ℕ = (n / 16384) ∷ (bytes ++ rest) in
      let i1 : List ℕ = (n / 128 % 128 + 128) ∷ i2 in
      ground (
        arith,
        whole,
        read_u8_given (n % 128 + 128) i1 c inp,
        read_u8_given (n / 128 % 128 + 128) i2 (record c { input = i1 }) refl,
        read_u8_given (n / 16384) (bytes ++ rest) (record c { input = i2 }) refl,
        read_bytes_given texts bytes rest (record c { input = bytes ++ rest }) refl,
      )

-- Data of fewer than 4194304 bytes behind its compact length is read whole, and what follows is left;
-- so it is for the empty data.
pub read_compressed_data-compact_length :
    (texts : LengthTexts) (bytes rest : List ℕ) (c : Conn)
    → length bytes < 4194304
    → c.input ≡ compact_length (length bytes) ++ (bytes ++ rest)
    → read_compressed_data texts c ≡ (ok bytes, record c { input = rest })
unfolding compact_length
read_compressed_data-compact_length texts bytes rest c small inp = ground (
  arith,
  one_byte texts bytes rest c,
  two_bytes texts bytes rest c,
  three_bytes texts bytes rest c,
)
