-- ===== src/Message/ToServer.antt =====
-- The messages of a client (encoding_types.go, lines 457 to 563): what they write, and the one that
-- can be read.
pub mod RoundTrip
use avacadovnc.Common.{ℕ, ◌/◌, List, [], ◌∷◌, ◌++◌, length}
use avacadovnc.Wire.{byte, be16, be32, be_value, u16, u32}
use avacadovnc.Outcome.{Outcome, ok, message}
use avacadovnc.Pixel.{PixelFormat, encode_format}
use avacadovnc.Conn.{
  Conn, M, return, fail, or_wrap, resume, ◌>>=◌, ◌>>◌, read_full, read_u8, read_u16, write,
}

pub record FramebufferUpdateRequest : Type 0 where
  pub inc : ℕ
  pub x : ℕ
  pub y : ℕ
  pub width : ℕ
  pub height : ℕ

pub record KeyEvent : Type 0 where
  pub down : ℕ
  pub key : ℕ

pub record PointerEvent : Type 0 where
  pub mask : ℕ
  pub x : ℕ
  pub y : ℕ

-- The bytes of a number that the code shifts out by hand.
abbrev pub shifted16 : ℕ → List ℕ
shifted16 n = byte (n / 256) ∷ byte n ∷ []

unfoldable set_pixel_format_write : PixelFormat → M (Unit {0})
set_pixel_format_write pf = do write (0 ∷ 0 ∷ 0 ∷ 0 ∷ []); write (encode_format pf)

-- The encodings as the bytes of a []EncodingType.
unfoldable pub be32s : List ℕ → List ℕ
be32s [] = []
be32s (n ∷ ns) = be32 n ++ be32s ns

unfoldable pub set_encodings_write : List ℕ → M (Unit {0})
set_encodings_write encs = do
  write (2 ∷ [])
  write (0 ∷ [])
  write (be16 (u16 (length encs)))
  write (be32s encs)

-- `SetEncodings` of a connection: the client sends the message, the server refuses.
unfoldable client_set_encodings : List ℕ → M (Unit {0})
client_set_encodings encs = set_encodings_write encs

unfoldable server_set_encodings : List ℕ → M (Unit {0})
server_set_encodings encs =
    fail (message "server cannot set encodings; this is a client-side message")

abbrev pub request_bytes : FramebufferUpdateRequest → List ℕ
request_bytes m =
    3 ∷ m.inc ∷ (shifted16 m.x ++ (shifted16 m.y ++ (shifted16 m.width ++ shifted16 m.height)))

unfoldable pub request_write : FramebufferUpdateRequest → M (Unit {0})
request_write m = write (request_bytes m)

-- The nine bytes of the struct.
pub decode_request : List ℕ → FramebufferUpdateRequest
decode_request (i ∷ x1 ∷ x0 ∷ y1 ∷ y0 ∷ w1 ∷ w0 ∷ h1 ∷ h0 ∷ _) = record {
  inc = i;
  x = be_value (x1 ∷ x0 ∷ []);
  y = be_value (y1 ∷ y0 ∷ []);
  width = be_value (w1 ∷ w0 ∷ []);
  height = be_value (h1 ∷ h0 ∷ []);
}
decode_request _ = record { inc = 0; x = 0; y = 0; width = 0; height = 0 }

-- binary.Read of the struct, after the type byte.
pub request_read : M FramebufferUpdateRequest
request_read = do bs ← read_full 9; return (decode_request bs)

unfoldable key_event_write : KeyEvent → M (Unit {0})
key_event_write m = write (
    4
    ∷ m.down
    ∷ 0
    ∷ 0
    ∷ byte (m.key / 16777216)
    ∷ byte (m.key / 65536)
    ∷ byte (m.key / 256)
    ∷ byte m.key
    ∷ [])

unfoldable pointer_event_write : PointerEvent → M (Unit {0})
pointer_event_write m = write (5 ∷ byte m.mask ∷ (shifted16 m.x ++ shifted16 m.y))

unfoldable pub cut_text_write : List ℕ → M (Unit {0})
cut_text_write text = do
  write (6 ∷ [])
  write (0 ∷ 0 ∷ 0 ∷ [])
  write (be32 (u32 (length text)))
  write text
