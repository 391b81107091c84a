-- ===== src/Mock.antt =====
-- `MockConn` of mock_conn.go. Its reader and its writer are arguments: what a call of `Read` with a buffer of
-- so many bytes gives, and what a call of `Write` does.
pub mod Encodings
use avacadovnc.Common.{ℕ, List, [], ◌∷◌, Option, none, some, ◌==◌, if◌then◌else◌, replicate}
use avacadovnc.Outcome.{Outcome, ok, err, message}
use avacadovnc.Pixel.{PixelFormat, zero_format}
use avacadovnc.Conn.{Encoding, SecurityHandler, Color}
use avacadovnc.Conn.Access.{encoding_type, zero_color}

pub record MockConn (R W : Type 0) : Type 0 where
  pub reader : Option R
  pub writer : Option W
  pub pixel_format : PixelFormat
  pub desktop_name : List ℕ
  pub width : ℕ
  pub height : ℕ
  pub encs : List Encoding
  pub protocol : List ℕ
  pub color_map : List Color
  pub security_handler : Option SecurityHandler

unfoldable pub new_mock_conn : {R W : Type 0} → Option R → Option W → List Encoding → MockConn R W
new_mock_conn r w encs = record {
  reader = r;
  writer = w;
  pixel_format = zero_format;
  desktop_name = [];
  width = 0;
  height = 0;
  encs = encs;
  protocol = [];
  color_map = replicate 256 zero_color;
  security_handler = none;
}

-- A method: it gives its outcome and the connection after it.
abbrev Method : Type 0 → Type 0 → Type 0 → Type 0
Method R W A = MockConn R W → Outcome A × MockConn R W

abbrev pub with_reader :
    {R W : Type 0} → MockConn R W → Outcome (List ℕ) × R → Outcome (List ℕ) × MockConn R W
with_reader m (o, r) = (o, record m { reader = some r })

unfoldable pub mock_read : {R W : Type 0} → (ℕ → R → Outcome (List ℕ) × R) → ℕ → Method R W (List ℕ)
mock_read read_from room m = elim m.reader [
  | none ↦ (err (message "mock reader is nil"), m)
  | some r ↦ with_reader m (read_from room r)
]

abbrev with_writer : {R W : Type 0} → MockConn R W → Outcome ℕ × W → Outcome ℕ × MockConn R W
with_writer m (o, w) = (o, record m { writer = some w })

unfoldable mock_write : {R W : Type 0} → (List ℕ → W → Outcome ℕ × W) → List ℕ → Method R W ℕ
mock_write write_to bytes m = elim m.writer [
  | none ↦ (err (message "mock writer is nil"), m)
  | some w ↦ with_writer m (write_to bytes w)
]

-- The loop over the encodings.
first_of_type : ℕ → List Encoding → Option Encoding
first_of_type typ [] = none
first_of_type typ (e ∷ es) = if encoding_type e == typ then some e else first_of_type typ es

mock_enc_instance : {R W : Type 0} → ℕ → MockConn R W → Option Encoding
unfolding first_of_type
mock_enc_instance typ m = first_of_type typ m.encs

-- The setters; those that return an error return nil.
unfoldable pub mock_set_pixel_format : {R W : Type 0} → PixelFormat → MockConn R W → MockConn R W
mock_set_pixel_format pf m = record m { pixel_format = pf }

unfoldable pub mock_set_desktop_name : {R W : Type 0} → List ℕ → MockConn R W → MockConn R W
mock_set_desktop_name name m = record m { desktop_name = name }

unfoldable pub mock_set_width : {R W : Type 0} → ℕ → MockConn R W → MockConn R W
mock_set_width w m = record m { width = w }

unfoldable pub mock_set_height : {R W : Type 0} → ℕ → MockConn R W → MockConn R W
mock_set_height h m = record m { height = h }

unfoldable mock_set_proto_version : {R W : Type 0} → List ℕ → MockConn R W → MockConn R W
mock_set_proto_version p m = record m { protocol = p }

unfoldable mock_set_color_map : {R W : Type 0} → List Color → MockConn R W → MockConn R W
mock_set_color_map cm m = record m { color_map = cm }

unfoldable mock_set_security_handler :
    {R W : Type 0} → SecurityHandler → MockConn R W → MockConn R W
mock_set_security_handler sh m = record m { security_handler = some sh }

-- `Close`, `Flush`, `Wait`, `ResetAllEncodings` and `SetEncodings` do nothing.
unfoldable mock_nothing : {R W : Type 0} → Method R W (Unit {0})
mock_nothing m = (ok tt, m)
