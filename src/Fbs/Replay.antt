-- ===== src/Fbs/Replay.antt =====
-- What was recorded is what is played back.
use avacadovnc.Common.{
  ℕ, zero, suc, ◌+◌, ◌<◌, ◌≡◌, List, [], ◌∷◌, ◌++◌, length, arith, refl, append_assoc, append-nil,
  take, drop, All, Option, none, some, length-drop, take-append, drop-append, length-append, le→ltb,
  ltb, false, ap, ◌∙◌, take-append-drop, sym,
}
use avacadovnc.Wire.{IsU16, IsU32, be16, be32, u32}
use avacadovnc.Wire.RoundTrip.{be_value-be16, be_value-be32, length-be16, length-be32}
use avacadovnc.Outcome.{Outcome, Error, ok, err, panic, eof}
use avacadovnc.Pixel.{IsPixelFormat, encode_format}
use avacadovnc.Pixel.Laws.{decode_format-encode_format, length-encode_format}
use avacadovnc.Conn.{Conn}
use avacadovnc.Fbs.{
  FbsReader, file_full, read_fbs_header, new_fbs_reader, refill, fill_chunk, fbs_read, record_read,
  record_reads, record_header,
}

file_full_given :
    (n : ℕ) (bs rest : List ℕ) → length bs ≡ n → file_full n (bs ++ rest) ≡ (ok bs, rest)
unfolding file_full
file_full_given n bs rest h =
    let long : ltb (length (bs ++ rest)) n ≡ false =
      le→ltb _ _ (omega (arith, length-append bs rest)) in
    rw (long, take-append n bs rest h, drop-append n bs rest h)

-- What a header says is in the range of its fields.
pub record IsSession (c : Conn) : Type 0 where
  pub format : IsPixelFormat c.pixel_format
  pub width_u16 : IsU16 c.fb_width
  pub height_u16 : IsU16 c.fb_height
  pub name_u32 : IsU32 (length c.desktop_name)

small_name : {n : ℕ} → IsU32 n → u32 n ≡ n
small_name h = omega arith

-- A reader on an empty file to which the header of a session in range was written, and anything after
-- it, has the pixel format, the size and the name of the session, and stands at what follows.
pub new_fbs_reader-record_header :
    (c : Conn) (rest : List ℕ)
    → IsSession c
    → new_fbs_reader (record_header c [] ++ rest)
      ≡ ok (record {
        file = rest;
        pixel_format = c.pixel_format;
        width = c.fb_width;
        height = c.fb_height;
        desktop_name = c.desktop_name;
        chunk = [];
      })
unfolding new_fbs_reader read_fbs_header record_header
new_fbs_reader-record_header c rest v =
    let i4 : List ℕ = c.desktop_name ++ rest in
    let i3 : List ℕ = be32 (length c.desktop_name) ++ i4 in
    let i2 : List ℕ = be16 c.fb_height ++ i3 in
    let i1 : List ℕ = be16 c.fb_width ++ i2 in
    let plain : record_header c [] ++ rest ≡ encode_format c.pixel_format ++ i1 =
      rw (small_name v.name_u32) (simp append_assoc) in
    ground (
      arith,
      plain,
      decode_format-encode_format c.pixel_format v.format,
      be_value-be16 c.fb_width v.width_u16,
      be_value-be16 c.fb_height v.height_u16,
      be_value-be32 (length c.desktop_name) v.name_u32,
      file_full_given 16 (encode_format c.pixel_format) i1 (length-encode_format c.pixel_format),
      file_full_given 2 (be16 c.fb_width) i2 (length-be16 c.fb_width),
      file_full_given 2 (be16 c.fb_height) i3 (length-be16 c.fb_height),
      file_full_given 4 (be32 (length c.desktop_name)) i4 (length-be32 (length c.desktop_name)),
      file_full_given (length c.desktop_name) c.desktop_name rest refl,
    )

abbrev pub concat : List (List ℕ) → List ℕ
concat [] = []
concat (b ∷ bs) = b ++ concat bs

abbrev pub frames : List (List ℕ) → List ℕ
frames [] = []
frames (b ∷ bs) = be32 (length b) ++ (b ++ frames bs)

-- A read of the connection that gave something, and no more than a uint32 counts.
abbrev pub IsChunk : List ℕ → Type 0
IsChunk b = (0 < length b) × IsU32 (length b)

record_read_chunk :
    (file b : List ℕ) → IsChunk b → record_read file b ≡ file ++ (be32 (length b) ++ b)
unfolding record_read
record_read_chunk file b h = ground (arith, small_name h.1, append_assoc file (be32 (length b)) b)

pub record_reads-frames :
    (file : List ℕ) (chunks : List (List ℕ))
    → All IsChunk chunks
    → record_reads file chunks ≡ file ++ frames chunks
unfolding record_reads
record_reads-frames file [] h = sym (append-nil file)
record_reads-frames file (b ∷ more) (one, others) =
    ap (λ f. record_reads f more) (record_read_chunk file b one)
    ∙ record_reads-frames (file ++ (be32 (length b) ++ b)) more others
    ∙ simp append_assoc

-- Reads into a buffer of `room` bytes until one fails: all that was read, and the error.
unfoldable pub prepend : List ℕ → Option (List ℕ × Error) → Option (List ℕ × Error)
prepend bs none = none
prepend bs (some (more, e)) = some (bs ++ more, e)

unfoldable pub collect :
    Outcome (List ℕ) × FbsReader → (FbsReader → Option (List ℕ × Error)) → Option (List ℕ × Error)
collect (ok bs, r) next = prepend bs (next r)
collect (err e, r) next = some ([], e)
collect (panic p, r) next = none

unfoldable pub drain : ℕ → ℕ → FbsReader → Option (List ℕ × Error)
unfolding prepend collect
drain zero room r = none
drain (suc fuel) room r = collect (fbs_read room r) (drain fuel room)

fbs_read_chunk :
    (room x : ℕ) (xs : List ℕ) (r : FbsReader)
    → r.chunk ≡ x ∷ xs
    → fbs_read room r ≡ (ok (take room (x ∷ xs)), record r { chunk = drop room (x ∷ xs) })
unfolding fbs_read
fbs_read_chunk room x xs r h = ground arith

fbs_read_next :
    (room : ℕ) (b rest : List ℕ) (r : FbsReader)
    → r.chunk ≡ []
    → IsU32 (length b)
    → r.file ≡ be32 (length b) ++ (b ++ rest)
    → fbs_read room r ≡ (ok (take room b), record r { file = rest; chunk = drop room b })
unfolding fbs_read refill fill_chunk
fbs_read_next room b rest r h small e = ground (
  arith,
  file_full_given 4 (be32 (length b)) (b ++ rest) (length-be32 (length b)),
  be_value-be32 (length b) small,
  length-append b rest,
  take-append (length b) b rest refl,
  drop-append (length b) b rest refl,
)

fbs_read_end :
    (room : ℕ) (r : FbsReader) → r.chunk ≡ [] → r.file ≡ [] → fbs_read room r ≡ (err eof, r)
unfolding fbs_read refill file_full
fbs_read_end room r h e = ground arith

rejoin : (n : ℕ) (b more : List ℕ) → take n b ++ (drop n b ++ more) ≡ b ++ more
rejoin n b more =
    sym (append_assoc (take n b) (drop n b) more) ∙ ap (λ l. l ++ more) (take-append-drop n b)

drain-frames :
    (fuel room : ℕ) (chunk : List ℕ) (chunks : List (List ℕ)) (r : FbsReader)
    → All IsChunk chunks
    → r.chunk ≡ chunk
    → r.file ≡ frames chunks
    → length chunk + length (frames chunks) < fuel
    → drain fuel (suc room) r ≡ some (chunk ++ concat chunks, eof)
unfolding drain
drain-frames zero room chunk chunks r v hc hf enough = absurd (omega arith)
drain-frames (suc fuel) room [] [] r v hc hf enough = rw (fbs_read_end (suc room) r hc hf)
drain-frames (suc fuel) room [] (b ∷ bs) r (one, others) hc hf enough =
    let rest : FbsReader = record r { file = frames bs; chunk = drop (suc room) b } in
    let short : length (drop (suc room) b) + length (frames bs) < fuel = omega (
      arith,
      length-drop (suc room) b,
      length-append (be32 (length b)) (b ++ frames bs),
      length-append b (frames bs),
      length-be32 (length b),
    ) in
    rw
      (
        fbs_read_next (suc room) b (frames bs) r hc one.1 hf,
        drain-frames fuel room (drop (suc room) b) bs rest others refl refl short,
      )
      (ap (λ (l : List ℕ). some (l, eof)) (rejoin (suc room) b (concat bs)))
drain-frames (suc fuel) room (x ∷ xs) chunks r v hc hf enough =
    let rest : FbsReader = record r { chunk = drop room xs } in
    let short : length (drop room xs) + length (frames chunks) < fuel =
      omega (arith, length-drop room xs) in
    rw
      (
        fbs_read_chunk (suc room) x xs r hc,
        drain-frames fuel room (drop room xs) chunks rest v refl hf short,
      )
      (ap (λ (l : List ℕ). some (l, eof)) (rejoin (suc room) (x ∷ xs) (concat chunks)))

-- A file that holds what was recorded of a series of reads, none empty and none longer than a uint32
-- counts: a reader that stands at its beginning, read into a buffer of any size but 0 until it fails,
-- gives back the bytes of all the reads in order, and then fails with EOF; so many reads as the file
-- has bytes, and one more, are enough.
pub drain-record_reads :
    (room : ℕ) (chunks : List (List ℕ)) (r : FbsReader)
    → All IsChunk chunks
    → r.chunk ≡ []
    → r.file ≡ record_reads [] chunks
    → drain (suc (length r.file)) (suc room) r ≡ some (concat chunks, eof)
drain-record_reads room chunks r v hc hf =
    let framed : r.file ≡ frames chunks = hf ∙ record_reads-frames [] chunks v in
    drain-frames (suc (length r.file)) room [] chunks r v hc framed
      (omega (arith, ap length framed))
