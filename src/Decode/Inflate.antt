-- ===== src/Decode/Inflate.antt =====
-- The decoders of the Go library that the encodings use, and encoding_zlib.go. A zlib reader is the
-- bytes that it still yields and the error behind them; `Codecs` says what a decoder makes of its
-- input, and nothing is assumed of it.
pub mod Laws
use avacadovnc.Common.{
  ℕ, ◌+◌, ◌*◌, ◌<◌, List, [], ◌∷◌, ◌++◌, Bool, true, false, Option, none, some, ◌==◌, ltb,
  if◌then◌else◌, length, take, drop, String,
}
use avacadovnc.Outcome.{Outcome, ok, err, panic, Error, eof, unexpected_eof, decoder, wrap}
use avacadovnc.Canvas.{Canvas, Rectangle, Rgba, draw_bytes}
use avacadovnc.Conn.{
  Conn, M, Stream, Encoding, zlib, return, fail, done, gets, or_wrap, resume, wrapped, ◌>>=◌, ◌>>◌,
  read_full, read_u32,
}
use avacadovnc.Conn.Access.{put_encoding}
use avacadovnc.Decode.Plain.{paint, bytes_per_pixel}

-- A decoded image, with its top left corner at the origin.
pub record Picture : Type 0 where
  pub width : ℕ
  pub height : ℕ
  pub at : ℕ → ℕ → Rgba

-- compress/zlib on the whole input (`none` if its header is wrong), image/jpeg and image/png.
pub record Codecs : Type 0 where
  pub inflate : List ℕ → Option Stream
  pub jpeg : List ℕ → Option Picture
  pub png : List ℕ → Option Picture
  -- image/png behind a zlib reader
  pub png_of_stream : Stream → Option Picture

-- The error of `io.ReadFull` on a reader that ends early.
pub short_error : List ℕ → Error → Error
short_error [] e = e
short_error (b ∷ bs) eof = unexpected_eof
short_error (b ∷ bs) e = e

-- `io.ReadFull` on a zlib reader.
unfoldable pub stream_full : ℕ → Stream → Outcome (List ℕ) × Stream
stream_full n (bs, e) =
    if ltb (length bs) n
    then (err (short_error bs e), ([], e))
    else (ok (take n bs), (drop n bs, e))

-- `io.CopyN` from a zlib reader.
unfoldable pub stream_copy : ℕ → Stream → Outcome (List ℕ) × Stream
stream_copy n (bs, e) =
    if ltb (length bs) n then (err e, ([], e)) else (ok (take n bs), (drop n bs, e))

-- The texts of the errors of a new reader and of a reset one.
pub record OpenTexts : Type 0 where
  pub no_reader : String
  pub no_reset : String

abbrev pub zlib_texts : OpenTexts
zlib_texts = record {
  no_reader = "zlib: failed to create zlib reader";
  no_reset = "zlib: failed to reset zlib reader";
}

-- A new reader, or the old one reset to new data: the old one's data plays no part. The library's
-- readers can always be reset. The second part is the reader that is kept.
unfoldable pub open_stream :
    OpenTexts → Codecs → Option Stream → List ℕ → Outcome Stream × Option Stream
open_stream texts cod none bytes = elim (cod.inflate bytes) [
  | none ↦ (err (wrap texts.no_reader decoder), none)
  | some s ↦ (ok s, some s)
]
open_stream texts cod (some old) bytes = elim (cod.inflate bytes) [
  | none ↦ (err (wrap texts.no_reset decoder), some ([], decoder))
  | some s ↦ (ok s, some s)
]

-- A call on a reader that belongs to the encoding at place `i`: the encoding keeps what is left.
abbrev pub keep : {A : Type 0} → ℕ → Encoding → Outcome A → M A
keep i e (ok a) = put_encoding i e >> return a
keep i e (err x) = put_encoding i e >> fail x
keep i e (panic p) = λ c. (panic p, c)

pub zlib_pixels : ℕ → ℕ → Stream → M (List ℕ)
unfolding stream_full
zlib_pixels i n s = let (r, s') = stream_full n s in keep i (zlib (some s')) r

pub zlib_body : Codecs → ℕ → Option Stream → Rectangle → List ℕ → M (Unit {0})
unfolding open_stream zlib_pixels
zlib_body cod i old rect compressed = do
  let opened = open_stream zlib_texts cod old compressed
  s ← keep i (zlib opened.1) opened.0
  bpp ← gets bytes_per_pixel
  pixel_data ←
      or_wrap "zlib: failed to decompress pixel data"
        (zlib_pixels i (rect.width * rect.height * bpp) s)
  paint (draw_bytes pixel_data rect)

pub zlib_read : Codecs → ℕ → Option Stream → Rectangle → M (Unit {0})
unfolding zlib_body
zlib_read cod i old rect = do
  n ← or_wrap "zlib: failed to read compressed data length" read_u32
  if n == 0 then done else (do
    compressed ← or_wrap "zlib: failed to read compressed data" (read_full n)
    zlib_body cod i old rect compressed)
