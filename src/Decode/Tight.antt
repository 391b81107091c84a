-- ===== src/Decode/Tight.antt =====
-- encoding_tight.go and encoding_tightpng.go.
pub mod Length
pub mod Streams
use avacadovnc.Common.{
  ℕ, zero, suc, ◌+◌, ◌-◌, ◌*◌, ◌/◌, ◌%◌, ◌^◌, ◌<◌, List, [], ◌∷◌, ◌++◌, Bool, true, false, Option,
  none, some, ◌==◌, ltb, if◌then◌else◌, ◌&&◌, get_or, set, length, String,
}
use avacadovnc.Outcome.{Outcome, ok, err, panic, message, wrap, decoder, Error, eof}
use avacadovnc.Canvas.{Canvas, Rectangle, draw_bytes, fill, draw_palette, draw}
use avacadovnc.Conn.{
  Conn, M, Stream, Encoding, tight, done, return, fail, gets, or_wrap, wrapped, resume, ◌>>=◌, ◌>>◌,
  read_full, read_u8,
}
use avacadovnc.Conn.Access.{is_client, put_encoding}
use avacadovnc.Decode.Plain.{paint, bytes_per_pixel}
use avacadovnc.Decode.Inflate.{Codecs, OpenTexts, Picture, stream_copy, open_stream, keep}

abbrev tight_open_texts : OpenTexts
tight_open_texts = record {
  no_reader = "tight: failed to create zlib reader";
  no_reset = "tight: failed to reset zlib reader";
}

-- Tight and TightPNG have a `readCompressedData` each, which differ in the texts of their errors.
pub record LengthTexts : Type 0 where
  pub no_first : String
  pub no_second : String
  pub no_third : String
  pub no_bytes : String

abbrev pub tight_texts : LengthTexts
tight_texts = record {
  no_first = "tight: failed to read length byte 1";
  no_second = "tight: failed to read length byte 2";
  no_third = "tight: failed to read length byte 3";
  no_bytes = "tight: failed to read compressed data";
}

abbrev png_texts : LengthTexts
png_texts = record {
  no_first = "failed to read length byte 1";
  no_second = "failed to read length byte 2";
  no_third = "failed to read length byte 3";
  no_bytes = "failed to read compressed data";
}

-- The bytes after the length; for length 0 the code returns nil.
pub read_bytes : LengthTexts → ℕ → M (List ℕ)
read_bytes texts n = if n == 0 then return [] else or_wrap texts.no_bytes (read_full n)

-- The third byte of the length counts whole. The shifted parts share no bits, so `|` adds them.
pub read_third : LengthTexts → ℕ → M (List ℕ)
read_third texts n = do b ← or_wrap texts.no_third read_u8; read_bytes texts (n + b * 16384)

pub read_second : LengthTexts → ℕ → M (List ℕ)
read_second texts n = do
  b ← or_wrap texts.no_second read_u8
  if ltb 127 b then read_third texts (n + b % 128 * 128) else read_bytes texts (n + b % 128 * 128)

-- `readCompressedData`: a length of one to three bytes, and so many bytes.
pub read_compressed_data : LengthTexts → M (List ℕ)
read_compressed_data texts = do
  b ← or_wrap texts.no_first read_u8
  if ltb 127 b then read_second texts (b % 128) else read_bytes texts (b % 128)

-- Bits 0 to 3 of the control byte: the streams to reset.
pub reset_from : ℕ → ℕ → List (Option Stream) → List (Option Stream)
reset_from control k [] = []
reset_from control k (z ∷ zs) =
    (if control / 2 ^ k % 2 == 1 then none else z) ∷ reset_from control (suc k) zs

-- The data out of one of the four streams; the array of streams is kept at place `i`.
unfoldable decompress : Codecs → ℕ → List (Option Stream) → List ℕ → ℕ → ℕ → M (List ℕ)
unfolding open_stream stream_copy
decompress cod i zs bytes size id = do
  let opened = open_stream tight_open_texts cod (get_or zs id none) bytes
  s ← keep i (tight (set zs id opened.1)) opened.0
  let copied = stream_copy size s
  or_wrap "tight: zlib decompression failed" (keep i (tight (set zs id (some copied.1))) copied.0)

unfoldable pub handle_copy : Codecs → ℕ → List (Option Stream) → Rectangle → ℕ → M (Unit {0})
unfolding read_compressed_data decompress
handle_copy cod i zs rect id = do
  bpp ← gets bytes_per_pixel
  compressed ← read_compressed_data tight_texts
  if length compressed == 0 then done else (do
    pixel_data ← decompress cod i zs compressed (rect.width * bpp * rect.height) id
    paint (draw_bytes pixel_data rect))

unfoldable pub handle_fill : Rectangle → M (Unit {0})
handle_fill rect = do
  bpp ← gets bytes_per_pixel
  colour ← or_wrap "tight: failed to read fill color" (read_full bpp)
  paint (λ k. ok (fill colour rect k))

unfoldable draw_picture : Option Picture → String → Rectangle → M (Unit {0})
unfolding draw
draw_picture none text rect = fail (wrap text decoder)
draw_picture (some p) text rect = paint (λ k. ok (draw p.at p.width p.height rect k))

unfoldable pub handle_jpeg : Codecs → Rectangle → M (Unit {0})
unfolding read_compressed_data draw_picture
handle_jpeg cod rect = do
  bytes ← read_compressed_data tight_texts
  if length bytes == 0
      then done
      else draw_picture (cod.jpeg bytes) "tight: failed to decode jpeg" rect

unfoldable pub handle_png : Codecs → Rectangle → M (Unit {0})
unfolding read_compressed_data draw_picture
handle_png cod rect = do
  bytes ← read_compressed_data tight_texts
  if length bytes == 0
      then done
      else draw_picture (cod.png bytes) "tight: failed to decode png" rect

-- One bit for each index of a palette of two colours or one, with rows of whole bytes; one byte
-- otherwise.
abbrev index_bits : ℕ → ℕ
index_bits size = if ltb 2 size then 8 else 1

abbrev index_row : ℕ → ℕ → ℕ
index_row size width = if ltb 2 size then width else (width + 7) / 8

unfoldable pub handle_palette : Codecs → ℕ → List (Option Stream) → Rectangle → ℕ → M (Unit {0})
unfolding read_compressed_data decompress draw_palette
handle_palette cod i zs rect id = do
  num_colours ← or_wrap "tight: failed to read palette size" read_u8
  bpp ← gets bytes_per_pixel
  palette ← or_wrap "tight: failed to read palette data" (read_full ((num_colours + 1) * bpp))
  compressed ← read_compressed_data tight_texts
  indexed ← decompress cod i zs compressed (index_row (num_colours + 1) rect.width * rect.height) id
  paint (draw_palette indexed palette (index_bits (num_colours + 1)) rect)

-- The rectangle is read and dropped. `io.CopyN` reports an early end as EOF.
unfoldable pub handle_gradient : Rectangle → M (Unit {0})
handle_gradient rect = do
  bpp ← gets bytes_per_pixel
  n ← gets (λ c. length c.input)
  if ltb n (rect.width * rect.height * bpp)
      then (read_full n >> fail (wrap "tight: failed to discard gradient data" eof))
      else (read_full (rect.width * rect.height * bpp) >> done)

-- What the control byte asks for.
pub data Method : Type 0 where
  gradient fill_rect jpeg png unsupported_filter unsupported_control : Method
  palette basic_copy : ℕ → Method

-- Bit 7 clear: the filter is in bits 4 to 6 and the stream in bits 4 and 5.
abbrev basic_method : ℕ → ℕ → Method
basic_method filter id =
    if filter == 4
    then gradient
    else if filter == 2
    then palette id
    else if filter == 1
    then basic_copy id
    else if filter == 0
    then basic_copy id
    else unsupported_filter

-- Bit 7 set.
abbrev other_method : ℕ → Method
other_method high =
    if high == 8
    then fill_rect
    else if high == 9
    then jpeg
    else if high == 10
    then png
    else unsupported_control

pub method_of : ℕ → Method
method_of control =
    if control / 128 % 2 == 0
    then basic_method (control / 16 % 8) (control / 16 % 4)
    else other_method (control / 16 % 16)

unfoldable handle_method : Codecs → ℕ → List (Option Stream) → Rectangle → Method → M (Unit {0})
handle_method cod i zs rect gradient = handle_gradient rect
handle_method cod i zs rect fill_rect = handle_fill rect
handle_method cod i zs rect jpeg = handle_jpeg cod rect
handle_method cod i zs rect png = handle_png cod rect
handle_method cod i zs rect unsupported_filter = fail (message "tight: unsupported basic filter")
handle_method cod i zs rect unsupported_control =
    fail (message "tight: unsupported compression control value")
handle_method cod i zs rect (palette id) = handle_palette cod i zs rect id
handle_method cod i zs rect (basic_copy id) = handle_copy cod i zs rect id

unfoldable pub tight_read : Codecs → ℕ → List (Option Stream) → Rectangle → M (Unit {0})
unfolding reset_from method_of handle_method
tight_read cod i zs rect = do
  control ← or_wrap "tight: failed to read compression control" read_u8
  let kept = reset_from control 0 zs
  put_encoding i (tight kept)
  handle_method cod i kept rect (method_of control)

-- `TightPNGEncoding`: its buffer is emptied before each use.
unfoldable pub tight_png_read : Codecs → Rectangle → M (Unit {0})
unfolding read_compressed_data draw_picture
tight_png_read cod rect = do
  bytes ← or_wrap "tight-png" (read_compressed_data png_texts)
  if length bytes == 0 then done else elim (cod.inflate bytes) [
    | none ↦ fail (wrap "tight-png: failed to create zlib reader" decoder)
    | some s ↦ draw_picture (cod.png_of_stream s) "tight-png: failed to decode png" rect
  ]
