-- ===== src/Fbs/Whole.antt =====
-- A recording as a whole: the header, and behind it what was read.
use avacadovnc.Common.{ℕ, suc, ◌≡◌, List, [], ◌++◌, length, refl, ap, sym, ◌∙◌, All, some}
use avacadovnc.Outcome.{ok, eof}
use avacadovnc.Conn.{Conn}
use avacadovnc.Fbs.{FbsReader, new_fbs_reader, record_header, record_reads}
use avacadovnc.Fbs.Replay.{
  IsSession, IsChunk, concat, drain, record_reads-frames, new_fbs_reader-record_header,
  drain-record_reads,
}

-- The reader of a session that stands at the first byte behind the header.
abbrev pub opened : Conn → List ℕ → FbsReader
opened c file = record {
  file = file;
  pixel_format = c.pixel_format;
  width = c.fb_width;
  height = c.fb_height;
  desktop_name = c.desktop_name;
  chunk = [];
}

record_reads-behind :
    (file : List ℕ) (chunks : List (List ℕ))
    → All IsChunk chunks
    → record_reads file chunks ≡ file ++ record_reads [] chunks
record_reads-behind file chunks v =
    record_reads-frames file chunks v
    ∙ ap (λ (f : List ℕ). file ++ f) (sym (record_reads-frames [] chunks v))

-- A session in range is recorded: first the header, and then reads of the connection, none empty and
-- none longer than a uint32 counts. NewFbsReader on this file gives a reader with the format, the size
-- and the name of the session, which, read into a buffer of any size but 0 until it fails, gives the
-- bytes of all the reads in order, and then fails with EOF; as many reads as there are bytes, and
-- one more, are enough.
pub replay_session :
    (c : Conn) (room : ℕ) (chunks : List (List ℕ))
    → IsSession c
    → All IsChunk chunks
    → (new_fbs_reader (record_reads (record_header c []) chunks)
        ≡ ok (opened c (record_reads [] chunks)))
      × (drain
            (suc (length (record_reads [] chunks)))
            (suc room)
            (opened c (record_reads [] chunks))
          ≡ some (concat chunks, eof))
replay_session c room chunks s v = (
  ap new_fbs_reader (record_reads-behind (record_header c []) chunks v)
      ∙ new_fbs_reader-record_header c (record_reads [] chunks) s,
  drain-record_reads room chunks (opened c (record_reads [] chunks)) v refl refl,
)
