-- ===== src/FileReader/Playback.antt =====
-- A recording, played back through the mock connection of example/file-reader.
use avacadovnc.Common.{ℕ, zero, suc, ◌≡◌, List, [], length, refl, ap, ◌∙◌, All, Option, none, some}
use avacadovnc.Outcome.{Outcome, Error, ok, err, panic, eof}
use avacadovnc.Conn.{Conn}
use avacadovnc.Fbs.{FbsReader, new_fbs_reader, fbs_read, record_header, record_reads}
use avacadovnc.Fbs.Replay.{IsSession, IsChunk, concat, drain, prepend, collect}
use avacadovnc.Fbs.Whole.{opened, replay_session}
use avacadovnc.Mock.{MockConn, mock_read, with_reader}
use avacadovnc.FileReader.{set_up}

abbrev Player : Type 0
Player = MockConn FbsReader (List ℕ)

-- Reads of the connection into a buffer of `room` bytes until one fails.
gather : Outcome (List ℕ) × Player → (Player → Option (List ℕ × Error)) → Option (List ℕ × Error)
unfolding prepend
gather (ok bs, m) next = prepend bs (next m)
gather (err e, m) next = some ([], e)
gather (panic p, m) next = none

play : ℕ → ℕ → Player → Option (List ℕ × Error)
unfolding gather
play zero room m = none
play (suc fuel) room m = gather (mock_read fbs_read room m) (play fuel room)

gather-collect :
    (m : Player) (p : Outcome (List ℕ) × FbsReader) (next : Player → Option (List ℕ × Error))
    (after : FbsReader → Option (List ℕ × Error))
    → ((r : FbsReader) → next (record m { reader = some r }) ≡ after r)
    → gather (with_reader m p) next ≡ collect p after
unfolding gather collect
gather-collect m (ok bs, r) next after h = ap (prepend bs) (h r)
gather-collect m (err e, r) next after h = refl
gather-collect m (panic f, r) next after h = refl

play-drain :
    (fuel room : ℕ) (r : FbsReader) (m : Player)
    → m.reader ≡ some r
    → play fuel room m ≡ drain fuel room r
unfolding play drain mock_read
play-drain zero room r m e = refl
play-drain (suc fuel) room r m e = rw e (
    gather-collect m (fbs_read room r) (play fuel room) (drain fuel room)
      (λ s. play-drain fuel room s (record m { reader = some s }) refl))

-- The connection has what the header of the session says.
pub record IsSetUp (c : Conn) (m : Player) : Type 0 where
  pub format : m.pixel_format ≡ c.pixel_format
  pub width : m.width ≡ c.fb_width
  pub height : m.height ≡ c.fb_height
  pub name : m.desktop_name ≡ c.desktop_name

set_up-IsSetUp : (c : Conn) (file : List ℕ) → IsSetUp c (set_up (opened c file))
unfolding set_up
set_up-IsSetUp c file = record { format = refl; width = refl; height = refl; name = refl }

set_up_reader : (r : FbsReader) → (set_up r).reader ≡ some r
unfolding set_up
set_up_reader r = refl

-- A session in range is recorded: first the header, and then reads of the connection, none empty and
-- none longer than a uint32 counts. NewFbsReader opens this file, and the mock connection that the
-- program makes over the reader has the format, the size and the name of the session; read into a buffer
-- of any size but 0 until it fails, it gives the bytes of all the reads in order, and then fails with
-- EOF; as many reads as there are bytes, and one more, are enough.
recording_plays :
    (c : Conn) (room : ℕ) (chunks : List (List ℕ))
    → IsSession c
    → All IsChunk chunks
    → (r : FbsReader) × (new_fbs_reader (record_reads (record_header c []) chunks) ≡ ok r)
      × IsSetUp c (set_up r)
      × (play (suc (length (record_reads [] chunks))) (suc room) (set_up r)
          ≡ some (concat chunks, eof))
recording_plays c room chunks s v =
    let r : FbsReader = opened c (record_reads [] chunks) in
    let both = replay_session c room chunks s v in
    let same =
      play-drain (suc (length (record_reads [] chunks))) (suc room) r (set_up r)
        (set_up_reader r) in
    (r, both.0, set_up-IsSetUp c (record_reads [] chunks), same ∙ both.1)
