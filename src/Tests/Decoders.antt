-- ===== src/Tests/Decoders.antt =====
-- The decoders at concrete inputs.
use avacadovnc.Common.{ℕ, ◌≡◌, refl, List, [], ◌∷◌, ◌++◌, none, some, replicate, arith, length}
use avacadovnc.Wire.{be16, be32}
use avacadovnc.Outcome.{ok, err, eof, unexpected_eof, wrap}
use avacadovnc.Canvas.Bytes.{blit}
use avacadovnc.Conn.{zlib}
use avacadovnc.Conn.Rules.{Fails, Halts}
use avacadovnc.Decode.Plain.{raw_read}
use avacadovnc.Decode.Plain.Laws.{raw_read_swallows}
use avacadovnc.Decode.Rre.{rre_read, corre_read}
use avacadovnc.Decode.Rre.Laws.{rre_read_sub_rects}
use avacadovnc.Decode.Hextile.{hextile_read}
use avacadovnc.Decode.Hextile.Loops.{hextile_read-Halts}
use avacadovnc.Decode.Inflate.{Codecs, zlib_read}
use avacadovnc.Decode.Inflate.Laws.{zlib_read_starves}
use avacadovnc.Decode.Tight.{read_compressed_data, tight_texts}
use avacadovnc.Decode.Tight.Length.{compact_length, read_compressed_data-compact_length}
use avacadovnc.Tests.Data.{screen, rect_of, viewer_of, client_of, wide}

abbrev two_pixels : List ℕ
two_pixels = 1 ∷ 2 ∷ 3 ∷ 255 ∷ 4 ∷ 5 ∷ 6 ∷ 255 ∷ []

raw_read_swallows_example :
    ((following rest : List ℕ)
      → length following ≡ 56
      → raw_read (rect_of 7 0 2 1) (viewer_of (two_pixels ++ (following ++ rest))) ≡ (
        ok tt,
        record (viewer_of rest) { canvas = some (blit two_pixels (rect_of 7 0 2 1) screen) },
      ))
    × (raw_read (rect_of 7 0 2 1) (viewer_of two_pixels)
        ≡ (err (wrap "raw: failed to read pixel data" unexpected_eof), viewer_of []))
raw_read_swallows_example =
    raw_read_swallows (rect_of 7 0 2 1) (viewer_of []) screen two_pixels refl refl refl
      (omega arith, omega arith) (omega arith) refl

abbrev grey : List ℕ
grey = wide (9 ∷ 9 ∷ 9 ∷ 255 ∷ [])

abbrev one_sub_rect : List ℕ
one_sub_rect = be32 1 ++ (grey ++ (grey ++ (be16 1 ++ (be16 1 ++ (be16 2 ++ be16 2)))))

rre_read_sub_rects_example :
    Fails (rre_read (rect_of 0 0 4 4) (viewer_of one_sub_rect))
    × Fails (corre_read (rect_of 0 0 4 4) (viewer_of one_sub_rect))
rre_read_sub_rects_example =
    rre_read_sub_rects (rect_of 0 0 4 4) (viewer_of one_sub_rect) screen 0
      (grey ++ (grey ++ (be16 1 ++ (be16 1 ++ (be16 2 ++ be16 2))))) refl refl (omega arith) refl

hextile_read-Halts_example : Halts (hextile_read (rect_of 0 0 65520 300) (viewer_of (0 ∷ [])))
hextile_read-Halts_example =
    hextile_read-Halts (rect_of 0 0 65520 300) (viewer_of (0 ∷ [])) (omega arith) (omega arith)

read_compressed_data-compact_length_example :
    read_compressed_data tight_texts (client_of (compact_length 300 ++ (replicate 300 7 ++ 9 ∷ [])))
    ≡ (ok (replicate 300 7), client_of (9 ∷ []))
read_compressed_data-compact_length_example =
    read_compressed_data-compact_length tight_texts (replicate 300 7) (9 ∷ [])
      (client_of (compact_length 300 ++ (replicate 300 7 ++ 9 ∷ []))) (omega arith) refl

-- A library whose zlib reader yields its input.
abbrev copying : Codecs
copying = record {
  inflate = λ bytes. some (bytes, eof);
  jpeg = λ bytes. none;
  png = λ bytes. none;
  png_of_stream = λ s. none;
}

zlib_read_starves_example :
    zlib_read copying 0 none (rect_of 0 0 2 1) (viewer_of (be32 8 ++ (two_pixels ++ 5 ∷ []))) ≡ (
      err (wrap "zlib: failed to decompress pixel data" unexpected_eof),
      record (viewer_of (5 ∷ [])) { encodings = zlib (some ([], eof)) ∷ [] },
    )
zlib_read_starves_example =
    zlib_read_starves copying 0 none (rect_of 0 0 2 1)
      (viewer_of (be32 8 ++ (two_pixels ++ 5 ∷ []))) two_pixels (5 ∷ []) 1
      (2 ∷ 3 ∷ 255 ∷ 4 ∷ 5 ∷ 6 ∷ 255 ∷ []) (omega arith) (omega arith) refl refl refl
