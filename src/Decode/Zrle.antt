-- ===== src/Decode/Zrle.antt =====
-- encoding_zrle.go: the compressed data, and the loops over its tiles. `tile_rounds` rounds are enough
-- for a rectangle of at most 65520 rows.
pub mod Tiles
pub mod Loops
use avacadovnc.Common.{ℕ, List, Option, some, ◌==◌, if◌then◌else◌}
use avacadovnc.Outcome.{Outcome, message}
use avacadovnc.Canvas.{Rectangle}
use avacadovnc.Conn.{
  Conn, M, Stream, zrle, done, fail, gets, or_wrap, wrapped, resume, read_full, read_u32, ◌>>=◌,
  ◌>>◌,
}
use avacadovnc.Conn.Access.{is_client}
use avacadovnc.Decode.Plain.{bytes_per_pixel}
use avacadovnc.Decode.Inflate.{Codecs, OpenTexts, open_stream, keep}
use avacadovnc.Decode.Zrle.Tiles.{tile_rows}

unfoldable pub tile_rounds : ℕ
tile_rounds = 4098

unfoldable zrle_tiles : ℕ → Rectangle → Stream → M (Unit {0})
zrle_tiles i rect s = do
  bpp ← gets bytes_per_pixel
  let read = tile_rows tile_rounds tile_rounds bpp rect 0 s
  keep i (zrle (some read.1)) read.0

abbrev zrle_texts : OpenTexts
zrle_texts = record {
  no_reader = "zrle: failed to create zlib reader";
  no_reset = "zrle: failed to reset zlib reader";
}

unfoldable zrle_body : Codecs → ℕ → Option Stream → Rectangle → List ℕ → M (Unit {0})
unfolding open_stream zrle_tiles
zrle_body cod i old rect compressed = do
  let opened = open_stream zrle_texts cod old compressed
  s ← keep i (zrle opened.1) opened.0
  for_client ← gets is_client
  if for_client
      then zrle_tiles i rect s
      else fail (message "zrle: connection is not a client connection")

unfoldable pub zrle_read : Codecs → ℕ → Option Stream → Rectangle → M (Unit {0})
unfolding zrle_body
zrle_read cod i old rect = do
  n ← or_wrap "zrle: failed to read compressed data length" read_u32
  if n == 0 then done else (do
    compressed ← or_wrap "zrle: failed to read compressed data" (read_full n)
    zrle_body cod i old rect compressed)
