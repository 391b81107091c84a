-- ===== src/Conn/Reads.antt =====
-- What `io.ReadFull` and binary.Read do on input that begins with the bytes wanted.
use avacadovnc.Common.{
  ℕ, ◌<◌, ◌≡◌, List, [], ◌++◌, length, arith, take-append, drop-append, length-append, ltb, le→ltb,
  false, lt→ltb, ◌∷◌, if◌then◌else◌, ◌==◌,
}
use avacadovnc.Outcome.{ok, err, eof, unexpected_eof}
use avacadovnc.Wire.{IsU16, IsU32, be16, be32}
use avacadovnc.Conn.{Conn, read_full, read_u8, read_u16, read_u32}

-- The input of the connection begins with `bs`, of the wanted length.
pub read_full_given :
    (n : ℕ) (bs rest : List ℕ) (c : Conn)
    → c.input ≡ bs ++ rest
    → length bs ≡ n
    → read_full n c ≡ (ok bs, record c { input = rest })
unfolding read_full
read_full_given n bs rest c inp h =
    let long : ltb (length (bs ++ rest)) n ≡ false =
      le→ltb _ _ (omega (arith, length-append bs rest)) in
    rw (inp, long, take-append n bs rest h, drop-append n bs rest h)

pub read_u8_given :
    (n : ℕ) (rest : List ℕ) (c : Conn)
    → c.input ≡ n ∷ rest
    → read_u8 c ≡ (ok n, record c { input = rest })
unfolding read_u8
read_u8_given n rest c inp = ground arith

pub read_u16_given :
    (n : ℕ) (rest : List ℕ) (c : Conn)
    → c.input ≡ be16 n ++ rest
    → IsU16 n
    → read_u16 c ≡ (ok n, record c { input = rest })
unfolding read_u16 be16
read_u16_given n rest c inp h = ground arith

pub read_u32_given :
    (n : ℕ) (rest : List ℕ) (c : Conn)
    → c.input ≡ be32 n ++ rest
    → IsU32 n
    → read_u32 c ≡ (ok n, record c { input = rest })
unfolding read_u32 be32
read_u32_given n rest c inp h = ground arith

-- On input that is too short nothing is left, and the error tells an empty input from a cut one.
pub read_full_short :
    (n : ℕ) (c : Conn)
    → length c.input < n
    → read_full n c
      ≡ (err (if length c.input == 0 then eof else unexpected_eof), record c { input = [] })
unfolding read_full
read_full_short n c h = rw (lt→ltb _ _ h)
