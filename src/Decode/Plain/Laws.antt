-- ===== src/Decode/Plain/Laws.antt =====
-- What the decoders without a loop take from the stream, and what they draw.
use avacadovnc.Common.{
  ℕ, ◌*◌, ◌≤◌, ◌≡◌, ◌≢◌, List, [], ◌++◌, true, some, length, arith, refl, if◌then◌else◌, ◌∙◌, sym,
  append_assoc, length-append,
}
use native.Mathlib.Nat.{mul-le-mul_left}
use avacadovnc.Wire.{IsU16, IsU32, be16, be32}
use avacadovnc.Outcome.{ok, err, wrap, unexpected_eof}
use avacadovnc.Canvas.{Canvas, Rectangle, copy}
use avacadovnc.Canvas.Fill.{Fits}
use avacadovnc.Canvas.Bytes.{blit, draw_bytes-blit, blit-append}
use avacadovnc.Conn.{Conn}
use avacadovnc.Conn.Access.{set_desktop_name, is_client}
use avacadovnc.Conn.Reads.{read_full_given, read_full_short, read_u16_given, read_u32_given}
use avacadovnc.Decode.Plain.{raw_read, copy_rect_read, desktop_name_read}

enough : (w h b : ℕ) → 4 ≤ b → w * h * 4 ≤ w * h * b
enough w h b p = mul-le-mul_left (w * h) p

-- On a client with a canvas, a pixel format whose `bpp` is at least four, and a rectangle that is not
-- empty and whose far corner is below 65536: the decoder takes width * height * bpp bytes, draws the
-- first width * height * 4 of them in row order, and leaves the rest of the stream.
pub raw_read_draws :
    (r : Rectangle) (c : Conn) (k : Canvas) (bytes rest : List ℕ)
    → is_client c ≡ true
    → c.canvas ≡ some k
    → 4 ≤ c.pixel_format.bpp
    → Fits r
    → r.width * r.height ≢ 0
    → length bytes ≡ r.width * r.height * c.pixel_format.bpp
    → c.input ≡ bytes ++ rest
    → raw_read r c ≡ (ok tt, record c { input = rest; canvas = some (blit bytes r k) })
unfolding raw_read
raw_read_draws r c k bytes rest isc hk hb f ne len inp = ground (
  arith,
  read_full_given (r.width * r.height * c.pixel_format.bpp) bytes rest c inp len,
  draw_bytes-blit bytes r k f,
  enough r.width r.height c.pixel_format.bpp hb,
)

raw_read_starves :
    (r : Rectangle) (c : Conn)
    → c.pixel_format.bpp ≡ 32
    → r.width * r.height ≢ 0
    → length c.input ≡ r.width * r.height * 4
    → raw_read r c
      ≡ (err (wrap "raw: failed to read pixel data" unexpected_eof), record c { input = [] })
unfolding raw_read
raw_read_starves r c hb ne len = ground (arith, read_full_short (r.width * r.height * 32) c)

-- A client with a canvas and a format of 32 bits, and a rectangle that is not empty and whose far corner
-- is below 65536. The payload of the protocol is four bytes for each pixel. The decoder draws it in row
-- order, but takes 28 bytes more for each pixel out of what follows in the stream, and drops them; if
-- nothing follows the payload, it draws nothing and fails at the end of the stream.
pub raw_read_swallows :
    (r : Rectangle) (c : Conn) (k : Canvas) (payload : List ℕ)
    → is_client c ≡ true
    → c.canvas ≡ some k
    → c.pixel_format.bpp ≡ 32
    → Fits r
    → r.width * r.height ≢ 0
    → length payload ≡ r.width * r.height * 4
    → ((following rest : List ℕ)
        → length following ≡ r.width * r.height * 28
        → raw_read r (record c { input = payload ++ (following ++ rest) })
          ≡ (ok tt, record c { input = rest; canvas = some (blit payload r k) }))
      × (raw_read r (record c { input = payload })
          ≡ (err (wrap "raw: failed to read pixel data" unexpected_eof), record c { input = [] }))
raw_read_swallows r c k payload isc hk hb f ne len = (
  λ following rest more.
      raw_read_draws r (record c { input = payload ++ (following ++ rest) }) k
        (payload ++ following) rest isc hk (rw hb (omega arith)) f ne
        (rw hb (omega (arith, length-append payload following)))
        (sym (append_assoc payload following rest))
      ∙ rw (blit-append payload following r k len) refl,
  raw_read_starves r (record c { input = payload }) hb ne len,
)

-- On a client with a canvas the decoder takes four bytes, the source position, and leaves the rest
-- of the stream; it copies the rectangle from there.
pub copy_rect_read_copies :
    (r : Rectangle) (c : Conn) (k : Canvas) (src_x src_y : ℕ) (rest : List ℕ)
    → is_client c ≡ true
    → c.canvas ≡ some k
    → IsU16 src_x
    → IsU16 src_y
    → c.input ≡ be16 src_x ++ (be16 src_y ++ rest)
    → copy_rect_read r c ≡ (
      ok tt,
      record c { input = rest; canvas = some (copy src_x src_y r.x r.y r.width r.height k) },
    )
unfolding copy_rect_read
copy_rect_read_copies r c k src_x src_y rest isc hk hx hy inp = ground (
  arith,
  read_u16_given src_x (be16 src_y ++ rest) c inp hx,
  read_u16_given src_y rest (record c { input = be16 src_y ++ rest }) refl hy,
)

-- On a client the decoder takes the length and the name, and leaves the rest of the stream; the name
-- is the connection's desktop name from then on. A server keeps its own name.
desktop_name_read_sets :
    (r : Rectangle) (c : Conn) (name rest : List ℕ)
    → IsU32 (length name)
    → c.input ≡ be32 (length name) ++ (name ++ rest)
    → desktop_name_read r c ≡ (
      ok tt,
      record c { input = rest; desktop_name = if is_client c then name else c.desktop_name },
    )
unfolding desktop_name_read set_desktop_name
desktop_name_read_sets r c name rest h inp = ground (
  arith,
  read_u32_given (length name) (name ++ rest) c inp h,
  read_full_given (length name) name rest (record c { input = name ++ rest }) refl refl,
)
