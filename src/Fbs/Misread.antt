-- ===== src/Fbs/Misread.antt =====
-- A recording in the order of its documentation: the handshake goes through the connection that records, and
-- `RecordSession` writes the header behind it.
use avacadovnc.Common.{
  ℕ, ◌<◌, ◌≡◌, ◌∙◌, refl, List, [], ◌∷◌, ◌++◌, length, All, arith, take, drop, ltb, Bool-cases, inl,
  inr, sym, ap, String, ◌/◌, ◌%◌,
}
use avacadovnc.Wire.{be32, be_value}
use avacadovnc.Outcome.{Outcome, Error, ok, err, panic}
use avacadovnc.Pixel.{decode_format}
use avacadovnc.Conn.{Conn}
use avacadovnc.Fbs.{
  File, FbsReader, continue, with_text, or_text, file_full, read_fbs_header, new_fbs_reader,
  record_header, record_reads,
}
use avacadovnc.Fbs.Replay.{IsChunk, frames, record_reads-frames}

decode_zero : (bytes : List ℕ) → (decode_format (0 ∷ bytes)).bpp ≡ 0
unfolding decode_format
decode_zero [] = refl
decode_zero (b0 ∷ []) = refl
decode_zero (b0 ∷ b1 ∷ []) = refl
decode_zero (b0 ∷ b1 ∷ b2 ∷ []) = refl
decode_zero (b0 ∷ b1 ∷ b2 ∷ b3 ∷ []) = refl
decode_zero (b0 ∷ b1 ∷ b2 ∷ b3 ∷ b4 ∷ []) = refl
decode_zero (b0 ∷ b1 ∷ b2 ∷ b3 ∷ b4 ∷ b5 ∷ []) = refl
decode_zero (b0 ∷ b1 ∷ b2 ∷ b3 ∷ b4 ∷ b5 ∷ b6 ∷ []) = refl
decode_zero (b0 ∷ b1 ∷ b2 ∷ b3 ∷ b4 ∷ b5 ∷ b6 ∷ b7 ∷ []) = refl
decode_zero (b0 ∷ b1 ∷ b2 ∷ b3 ∷ b4 ∷ b5 ∷ b6 ∷ b7 ∷ b8 ∷ []) = refl
decode_zero (b0 ∷ b1 ∷ b2 ∷ b3 ∷ b4 ∷ b5 ∷ b6 ∷ b7 ∷ b8 ∷ b9 ∷ []) = refl
decode_zero (b0 ∷ b1 ∷ b2 ∷ b3 ∷ b4 ∷ b5 ∷ b6 ∷ b7 ∷ b8 ∷ b9 ∷ b10 ∷ []) = refl
decode_zero (b0 ∷ b1 ∷ b2 ∷ b3 ∷ b4 ∷ b5 ∷ b6 ∷ b7 ∷ b8 ∷ b9 ∷ b10 ∷ b11 ∷ more) = refl

-- A reader that was made has a format of no bits.
record NoBits (p : Outcome FbsReader × List ℕ) : Type 0 where
  made : (r : FbsReader) → p.0 ≡ ok r → r.pixel_format.bpp ≡ 0

failed : (e : Error) (file : List ℕ) → NoBits (err e, file)
failed e file = record { made = λ r h. cc }

opened : (s : FbsReader) (file : List ℕ) → s.pixel_format.bpp ≡ 0 → NoBits (ok s, file)
opened s file h = record { made = λ r e. ground (arith, h) }

stage :
    {A : Type 0} (m : Outcome A × List ℕ) (f : A → File FbsReader)
    → ((a : A) (file : List ℕ) → NoBits (f a file))
    → NoBits (continue m f)
stage (ok a, file) f h = h a file
stage (err e, file) f h = failed e file
stage (panic p, file) f h = record { made = λ r e. cc }

first_stage :
    (text : String) (tail : List ℕ) (f : List ℕ → File FbsReader)
    → ((bytes file : List ℕ) → NoBits (f (0 ∷ bytes) file))
    → NoBits (continue (with_text text (file_full 16 (0 ∷ tail))) f)
unfolding file_full
first_stage text tail f h = elim (Bool-cases (ltb (length (0 ∷ tail)) 16)) [
  | inl short ↦ rw short (failed _ _)
  | inr long ↦ rw long (h (take 15 tail) (drop 15 tail))
]

read_fbs_header-NoBits : (tail : List ℕ) → NoBits (read_fbs_header (0 ∷ tail))
unfolding read_fbs_header
read_fbs_header-NoBits tail = first_stage _ tail _ (λ pf f1.
    stage (or_text "fbs-reader: failed to read width" (file_full 2) f1) _ (λ width f2.
      stage (or_text "fbs-reader: failed to read height" (file_full 2) f2) _ (λ height f3.
        stage (or_text "fbs-reader: failed to read name length" (file_full 4) f3) _ (λ len f4.
          stage (or_text "fbs-reader: failed to read desktop name" (file_full (be_value len)) f4) _
            (λ name f5.
              opened
                (record {
                  file = f5;
                  pixel_format = decode_format (0 ∷ pf);
                  width = be_value width;
                  height = be_value height;
                  desktop_name = name;
                  chunk = [];
                })
                f5 (decode_zero pf))))))

-- The file begins with a byte of 0, the highest of the first read's size.
begins :
    (first : List ℕ) (more chunks : List (List ℕ)) (c : Conn)
    → length first < 16777216
    → All IsChunk (first ∷ more)
    → All IsChunk chunks
    → (tail : List ℕ) × (record_reads (record_header c (record_reads [] (first ∷ more))) chunks
        ≡ 0 ∷ tail)
unfolding record_header be32
begins first more chunks c small v w = (
  drop 1 (record_header c (frames (first ∷ more)) ++ frames chunks),
  record_reads-frames (record_header c (record_reads [] (first ∷ more))) chunks w
      ∙ ap (λ (l : List ℕ). record_header c l ++ frames chunks)
          (record_reads-frames [] (first ∷ more) v)
      ∙ zero_first (length first) small,
)
  where
    zero_first :
        (n : ℕ)
        → n < 16777216
        → (n / 16777216 % 256) ∷ drop 1 (record_header c (frames (first ∷ more)) ++ frames chunks)
          ≡ 0 ∷ drop 1 (record_header c (frames (first ∷ more)) ++ frames chunks)
    zero_first n h = let none_left : n / 16777216 % 256 ≡ 0 = omega arith in rw none_left refl

-- A recording that begins with what was read of the connection in the handshake, the first read of fewer
-- than 16777216 bytes, then has the header of the session and then any further reads: NewFbsReader
-- does not open it, or gives it a pixel format of 0 bits, whatever the session's is.
pub recording_misread :
    (first : List ℕ) (more chunks : List (List ℕ)) (c : Conn) (r : FbsReader)
    → length first < 16777216
    → All IsChunk (first ∷ more)
    → All IsChunk chunks
    → new_fbs_reader (record_reads (record_header c (record_reads [] (first ∷ more))) chunks) ≡ ok r
    → r.pixel_format.bpp ≡ 0
unfolding new_fbs_reader
recording_misread first more chunks c r small v w e =
    let (tail, file) = begins first more chunks c small v w in
    (read_fbs_header-NoBits tail).made r (ap (λ (l : List ℕ). (read_fbs_header l).0) (sym file) ∙ e)
