-- ===== src/Fbs.antt =====
-- fbs-connection.go and fbs-reader.go: a recorded session as the bytes of a file.
pub mod Replay
pub mod Whole
pub mod Misread
use avacadovnc.Common.{
  ℕ, zero, suc, ◌+◌, ◌<◌, List, [], ◌∷◌, ◌++◌, Bool, true, false, ◌==◌, ltb, if◌then◌else◌, length,
  take, drop, String, replicate, ◌-◌,
}
use avacadovnc.Wire.{be16, be32, be_value, u32}
use avacadovnc.Outcome.{Outcome, ok, err, panic, Error, eof, unexpected_eof, wrap}
use avacadovnc.Pixel.{PixelFormat, encode_format, decode_format}
use avacadovnc.Conn.{Conn}

-- What is left of the file that is read.
abbrev pub File : Type 0 → Type 0
File A = List ℕ → Outcome A × List ℕ

abbrev pub continue : {A B : Type 0} → Outcome A × List ℕ → (A → File B) → Outcome B × List ℕ
continue (ok a, file) f = f a file
continue (err e, file) f = (err e, file)
continue (panic p, file) f = (panic p, file)

infixl 5 ◌>>=◌
abbrev ◌>>=◌ : {A B : Type 0} → File A → (A → File B) → File B
◌>>=◌ m f file = continue (m file) f

abbrev pub with_text : {A : Type 0} → String → Outcome A × List ℕ → Outcome A × List ℕ
with_text text (ok a, file) = (ok a, file)
with_text text (err e, file) = (err (wrap text e), file)
with_text text (panic p, file) = (panic p, file)

abbrev pub or_text : {A : Type 0} → String → File A → File A
or_text text m file = with_text text (m file)

-- `io.ReadFull`, and binary.Read of a value of that size.
pub file_full : ℕ → File (List ℕ)
file_full n file =
    if ltb (length file) n
    then (err (if length file == 0 then eof else unexpected_eof), [])
    else (ok (take n file), drop n file)

pub record FbsReader : Type 0 where
  pub file : List ℕ
  pub pixel_format : PixelFormat
  pub width : ℕ
  pub height : ℕ
  pub desktop_name : List ℕ
  pub chunk : List ℕ

-- `NewFbsReader` on the bytes of a file that could be opened: the header.
pub read_fbs_header : File FbsReader
unfolding file_full be_value decode_format
read_fbs_header = do
  pf ← or_text "fbs-reader: failed to read pixel format" (file_full 16)
  width ← or_text "fbs-reader: failed to read width" (file_full 2)
  height ← or_text "fbs-reader: failed to read height" (file_full 2)
  name_len ← or_text "fbs-reader: failed to read name length" (file_full 4)
  name ← or_text "fbs-reader: failed to read desktop name" (file_full (be_value name_len))
  λ file. (
    ok (record {
      file = file;
      pixel_format = decode_format pf;
      width = be_value width;
      height = be_value height;
      desktop_name = name;
      chunk = [];
    }),
    file,
  )

unfoldable pub new_fbs_reader : List ℕ → Outcome FbsReader
unfolding read_fbs_header
new_fbs_reader bytes = (read_fbs_header bytes).0

-- The end of the file between two chunks is the end of the stream.
abbrev chunk_error : Error → Error
chunk_error eof = eof
chunk_error e = wrap "fbs-reader: failed to read chunk size" e

-- The chunk of `n` bytes: one that is cut off leaves the bytes that came, and the zeros that were made
-- for the rest, as the reader's chunk.
pub fill_chunk : ℕ → FbsReader → Outcome (Unit {0}) × FbsReader
fill_chunk n r =
    if ltb (length r.file) n
    then (
      err (
          wrap "fbs-reader: failed to read chunk data"
            (if length r.file == 0 then eof else unexpected_eof)),
      record r { file = []; chunk = r.file ++ replicate (n - length r.file) 0 },
    )
    else (ok tt, record r { file = drop n r.file; chunk = take n r.file })

-- The next chunk, when the last one is used up.
pub refill : FbsReader → Outcome (Unit {0}) × FbsReader
unfolding file_full be_value fill_chunk
refill r =
    let (size, rest) = file_full 4 r.file in
    elim size [
      | ok bytes ↦ fill_chunk (be_value bytes) (record r { file = rest })
      | err e ↦ (err (chunk_error e), record r { file = rest })
      | panic p ↦ (panic p, record r { file = rest })
    ]

-- `copy(p, r.chunk)` into a buffer of `room` bytes: what was copied, and the reader after it.
abbrev copy_out : ℕ → FbsReader → Outcome (List ℕ) × FbsReader
copy_out room r = (ok (take room r.chunk), record r { chunk = drop room r.chunk })

abbrev copy_from : ℕ → Outcome (Unit {0}) × FbsReader → Outcome (List ℕ) × FbsReader
copy_from room (ok u, r) = copy_out room r
copy_from room (err e, r) = (err e, r)
copy_from room (panic p, r) = (panic p, r)

-- `Read`, with the bytes that it puts into the buffer.
pub fbs_read : ℕ → FbsReader → Outcome (List ℕ) × FbsReader
unfolding refill
fbs_read room r = if length r.chunk == 0 then copy_from room (refill r) else copy_out room r

-- `FbsConnection.Read`: the file after a read of the connection that gave these bytes.
unfoldable pub record_read : List ℕ → List ℕ → List ℕ
record_read file bytes =
    if length bytes == 0 then file else (file ++ be32 (u32 (length bytes))) ++ bytes

unfoldable pub record_reads : List ℕ → List (List ℕ) → List ℕ
record_reads file [] = file
record_reads file (bytes ∷ more) = record_reads (record_read file bytes) more

-- The header that `RecordSession` writes, before it drains the connection.
unfoldable pub record_header : Conn → List ℕ → List ℕ
record_header c file =
    (((file ++ encode_format c.pixel_format) ++ be16 c.fb_width) ++ be16 c.fb_height)
    ++ (be32 (u32 (length c.desktop_name)) ++ c.desktop_name)
