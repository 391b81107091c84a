-- ===== src/Decode/Inflate/Laws.antt =====
-- What the zlib decoder takes from the stream, and what it draws.
use avacadovnc.Common.{
  ℕ, ◌*◌, ◌≤◌, ◌≡◌, ◌≢◌, List, ◌++◌, true, Option, none, some, length, arith, refl, ltb,
  length-append, take-append, drop-append, le→ltb, false, set, [], ◌∷◌, ◌<◌,
}
use native.Mathlib.Nat.{mul-le-mul_left}
use avacadovnc.Wire.{IsU32, be32}
use avacadovnc.Outcome.{ok, err, Error, eof, unexpected_eof, wrap}
use avacadovnc.Canvas.{Canvas, Rectangle}
use avacadovnc.Canvas.Fill.{Fits}
use avacadovnc.Canvas.Bytes.{blit, draw_bytes-blit}
use avacadovnc.Conn.{Conn, Stream, zlib}
use avacadovnc.Conn.Access.{is_client, put_encoding}
use avacadovnc.Conn.Reads.{read_full_given, read_u32_given}
use avacadovnc.Decode.Inflate.{
  Codecs, OpenTexts, zlib_texts, stream_full, short_error, open_stream, zlib_pixels, zlib_body,
  zlib_read,
}

stream_full_given :
    (n : ℕ) (bs rest : List ℕ) (e : Error)
    → length bs ≡ n
    → stream_full n (bs ++ rest, e) ≡ (ok bs, (rest, e))
unfolding stream_full
stream_full_given n bs rest e h =
    let long : ltb (length (bs ++ rest)) n ≡ false =
      le→ltb _ _ (omega (arith, length-append bs rest)) in
    rw (long, take-append n bs rest h, drop-append n bs rest h)

open_stream_fresh :
    (texts : OpenTexts) (cod : Codecs) (old : Option Stream) (bytes : List ℕ) (s : Stream)
    → cod.inflate bytes ≡ some s
    → open_stream texts cod old bytes ≡ (ok s, some s)
unfolding open_stream
open_stream_fresh texts cod none bytes s h = ground arith
open_stream_fresh texts cod (some o) bytes s h = ground arith

-- On a client with a canvas and a format whose `bpp` is at least four, for a rectangle whose far corner is
-- below 65536 and data that inflates on its own to at least width * height * bpp bytes: the decoder
-- takes the length and the data and leaves the rest of the stream, draws the first width * height * 4 of the inflated bytes, and
-- keeps a reader with what it did not use. The reader of the rectangle before plays no part.
zlib_read_draws :
    (cod : Codecs) (i : ℕ) (old : Option Stream) (r : Rectangle) (c : Conn) (k : Canvas)
    (packed rest pixels more : List ℕ) (e : Error)
    → is_client c ≡ true
    → c.canvas ≡ some k
    → 4 ≤ c.pixel_format.bpp
    → Fits r
    → IsU32 (length packed)
    → length packed ≢ 0
    → c.input ≡ be32 (length packed) ++ (packed ++ rest)
    → cod.inflate packed ≡ some (pixels ++ more, e)
    → length pixels ≡ r.width * r.height * c.pixel_format.bpp
    → zlib_read cod i old r c ≡ (
      ok tt,
      record c {
        input = rest;
        canvas = some (blit pixels r k);
        encodings =
            set (set c.encodings i (zlib (some (pixels ++ more, e)))) i (zlib (some (more, e)));
      },
    )
unfolding zlib_read zlib_body zlib_pixels put_encoding
zlib_read_draws cod i old r c k packed rest pixels more e isc hk hb f small ne inp inflated len =
    ground (
      arith,
      read_u32_given (length packed) (packed ++ rest) c inp small,
      read_full_given (length packed) packed rest (record c { input = packed ++ rest }) refl refl,
      open_stream_fresh zlib_texts cod old packed (pixels ++ more, e) inflated,
      stream_full_given (r.width * r.height * c.pixel_format.bpp) pixels more e len,
      mul-le-mul_left (r.width * r.height) hb,
      draw_bytes-blit pixels r k f,
    )

stream_full_short :
    (n : ℕ) (b : ℕ) (bs : List ℕ)
    → length (b ∷ bs) < n
    → stream_full n (b ∷ bs, eof) ≡ (err unexpected_eof, ([], eof))
unfolding stream_full short_error
stream_full_short n b bs h = ground arith

-- A format of `bpp` bits, for a rectangle that is not empty: if the data of the rectangle inflates on its own
-- to bpp / 8 bytes for each pixel, which is what the protocol sends, the decoder fails, whatever
-- reader it had before; it has taken the length and the data, and the canvas is as it was.
pub zlib_read_starves :
    (cod : Codecs) (i : ℕ) (old : Option Stream) (r : Rectangle) (c : Conn) (packed rest : List ℕ)
    (b : ℕ) (pixels : List ℕ)
    → IsU32 (length packed)
    → length packed ≢ 0
    → c.input ≡ be32 (length packed) ++ (packed ++ rest)
    → cod.inflate packed ≡ some (b ∷ pixels, eof)
    → length (b ∷ pixels) * 8 ≡ r.width * r.height * c.pixel_format.bpp
    → zlib_read cod i old r c ≡ (
      err (wrap "zlib: failed to decompress pixel data" unexpected_eof),
      record c {
        input = rest;
        encodings =
            set (set c.encodings i (zlib (some (b ∷ pixels, eof)))) i (zlib (some ([], eof)));
      },
    )
unfolding zlib_read zlib_body zlib_pixels put_encoding
zlib_read_starves cod i old r c packed rest b pixels small ne inp inflated len = ground (
  arith,
  read_u32_given (length packed) (packed ++ rest) c inp small,
  read_full_given (length packed) packed rest (record c { input = packed ++ rest }) refl refl,
  open_stream_fresh zlib_texts cod old packed (b ∷ pixels, eof) inflated,
  stream_full_short (r.width * r.height * c.pixel_format.bpp) b pixels (omega arith),
)
