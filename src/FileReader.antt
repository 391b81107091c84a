-- ===== src/FileReader.antt =====
-- example/file-reader/main.go: the mock connection that its `main` makes, and its own reader of framebuffer
-- updates, `FramebufferUpdateMessage.Read`. This one takes the header of a rectangle field by field,
-- unlike the message of the library.
pub mod Jobs
pub mod Draws
pub mod Playback
use avacadovnc.Common.{ℕ, zero, suc, List, [], ◌∷◌, none, some}
use avacadovnc.Canvas.{Rectangle}
use avacadovnc.Fbs.{FbsReader}
use avacadovnc.Mock.{
  MockConn, new_mock_conn, mock_set_pixel_format, mock_set_desktop_name, mock_set_width,
  mock_set_height,
}
use avacadovnc.Conn.{
  Encoding, raw, copy_rect, tight, zlib, rre, hextile, M, return, done, gets, ◌>>=◌, ◌>>◌,
  read_full, read_u16, read_u32, resume,
}
use avacadovnc.Conn.Access.{get_enc_instance}
use avacadovnc.Decode.Inflate.{Codecs}
use avacadovnc.Decode.Dispatch.{found_read}

-- The encodings of the mock connection, as Go makes them: with no state.
abbrev mock_encodings : List Encoding
mock_encodings =
    raw ∷ copy_rect ∷ tight (none ∷ none ∷ none ∷ none ∷ []) ∷ zlib none ∷ rre ∷ hextile ∷ []

-- The connection over the reader of the recording, and a buffer for what is written.
pub set_up : FbsReader → MockConn FbsReader (List ℕ)
unfolding new_mock_conn mock_set_pixel_format mock_set_desktop_name mock_set_width mock_set_height
set_up r = mock_set_height r.height (
    mock_set_width r.width (
      mock_set_desktop_name r.desktop_name
        (mock_set_pixel_format r.pixel_format (new_mock_conn (some r) (some []) mock_encodings))))

-- The four fields; the type of the encoding is not put into the rectangle.
pub read_fields : M Rectangle
read_fields = do
  x ← read_u16
  y ← read_u16
  width ← read_u16
  height ← read_u16
  return (record { x = x; y = y; width = width; height = height; enc_type = 0 })

pub read_rect : Codecs → M (Unit {0})
unfolding read_fields
read_rect cod = do
  rect ← read_fields
  encoding_type ← read_u32
  found ← gets (get_enc_instance encoding_type)
  found_read cod found rect

pub read_rects : Codecs → ℕ → M (Unit {0})
unfolding read_rect
read_rects cod zero = done
read_rects cod (suc n) = read_rect cod >> read_rects cod n

pub read_update : Codecs → M (Unit {0})
unfolding read_rects
read_update cod = do padding ← read_full 1; num_rects ← read_u16; read_rects cod num_rects
