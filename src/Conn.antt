-- ===== src/Conn.antt =====
-- The connections: `ClientConn` (client.go) and `ServerConn` (server.go) behind the interface `Conn`
-- of encoding_types.go, as one record with the kind of the connection.
-- A method is an action on it. The peer's bytes are a list that ends in EOF, so that no read waits; what bufio.Writer holds
-- back is kept apart from what was flushed to the peer.
pub mod Reads
pub mod Access
pub mod Rules
use avacadovnc.Common.{
  ℕ, zero, suc, ◌+◌, ◌-◌, ◌<◌, List, [], ◌∷◌, ◌++◌, Bool, true, false, Option, none, some, length,
  ltb, ◌==◌, if◌then◌else◌, take, drop, String, set, map,
}
use avacadovnc.Wire.{be16, be32, be_value, u16, u32}
use avacadovnc.Outcome.{
  Outcome, ok, err, panic, Error, eof, unexpected_eof, invalid_type, broken_pipe, message, wrap,
  Fault,
}
use avacadovnc.Pixel.{PixelFormat, zero_format, encode_format, decode_format}
use avacadovnc.Canvas.{Canvas, Rectangle}

-- A zlib reader: the bytes that it still yields, and the error behind them.
abbrev pub Stream : Type 0
Stream = List ℕ × Error

-- The encodings, each with the state that its Go type holds. The sub-encodings that an
-- AtenHermonEncoding collects have no state: it keeps their number.
pub data Encoding : Type 0 where
  raw copy_rect rre corre hextile cursor xcursor pointer_pos desktop_name desktop_size : Encoding
  zlib : Option Stream → Encoding
  zrle : Option Stream → Encoding
  tight : List (Option Stream) → Encoding
  tight_png : Encoding
  aten_hermon : ℕ → Encoding

pub data SecurityHandler : Type 0 where
  security_none security_aten_hermon security_vencrypt_plain : SecurityHandler
  security_vnc : List ℕ → SecurityHandler

-- The channels, the handlers and the messages of a configuration are not read by the actions here.
pub record ClientConfig : Type 0 where
  pub security_handlers : List SecurityHandler
  pub encodings : List Encoding
  pub pixel_format : PixelFormat
  pub exclusive : Bool

pub record ServerConfig : Type 0 where
  pub security_handlers : List SecurityHandler
  pub encodings : List Encoding
  pub pixel_format : PixelFormat
  pub width : ℕ
  pub height : ℕ
  pub desktop_name : List ℕ

-- The dynamic type of the connection, with its configuration.
pub data Role : Type 0 where
  client : ClientConfig → Role
  server : ServerConfig → Role

-- An entry of the colour map: its index and its colour.
pub record Color : Type 0 where
  pub cm_index : ℕ
  pub red : ℕ
  pub green : ℕ
  pub blue : ℕ

pub record Conn : Type 0 where
  pub role : Role
  pub input : List ℕ
  pub pending : List ℕ
  pub sent : List ℕ
  pub link_up : Bool
  pub protocol : List ℕ
  pub color_map : List Color
  pub canvas : Option Canvas
  pub desktop_name : List ℕ
  pub encodings : List Encoding
  pub security_handler : Option SecurityHandler
  pub fb_width : ℕ
  pub fb_height : ℕ
  pub pixel_format : PixelFormat

-- A call on a connection. Its effects stay where it ends in an error or a panic.
abbrev pub M : Type 0 → Type 0
M A = Conn → Outcome A × Conn

module _ {A : Type 0} where
  abbrev pub return : A → M A
  return a c = (ok a, c)

  abbrev pub fail : Error → M A
  fail e c = (err e, c)

  abbrev pub crash : Fault → M A
  crash f c = (panic f, c)

abbrev pub resume : {A B : Type 0} → Outcome A × Conn → (A → M B) → Outcome B × Conn
resume (ok a, c) f = f a c
resume (err e, c) f = (err e, c)
resume (panic p, c) f = (panic p, c)

infixl 5 ◌>>=◌ ◌>>◌
abbrev pub ◌>>=◌ : {A B : Type 0} → M A → (A → M B) → M B
◌>>=◌ m f c = resume (m c) f

abbrev pub ◌>>◌ : {A B : Type 0} → M A → M B → M B
m >> k = m >>= λ _. k

-- `if err != nil { return fmt.Errorf("text: %w", err) }`
abbrev pub wrapped : {A : Type 0} → String → Outcome A × Conn → Outcome A × Conn
wrapped text (ok a, c) = (ok a, c)
wrapped text (err e, c) = (err (wrap text e), c)
wrapped text (panic p, c) = (panic p, c)

abbrev pub or_wrap : {A : Type 0} → String → M A → M A
or_wrap text m c = wrapped text (m c)

abbrev pub gets : {A : Type 0} → (Conn → A) → M A
gets f c = (ok (f c), c)

abbrev pub modify : (Conn → Conn) → M (Unit {0})
modify f c = (ok tt, f c)

abbrev pub done : M (Unit {0})
done = return tt

-- `io.ReadFull` of a buffer of `n` bytes, and binary.Read of a value of that size: what was there is
-- taken also where it is too short.
unfoldable pub read_full : ℕ → M (List ℕ)
read_full n c =
    if ltb (length c.input) n
    then (err (if length c.input == 0 then eof else unexpected_eof), record c { input = [] })
    else (ok (take n c.input), record c { input = drop n c.input })

-- binary.Read in big-endian order of a uint8, a uint16 and a uint32 (or int32).
unfoldable pub read_u8 : M ℕ
unfolding read_full be_value
read_u8 = do bs ← read_full 1; return (be_value bs)

pub read_u16 : M ℕ
unfolding read_full be_value
read_u16 = do bs ← read_full 2; return (be_value bs)

unfoldable pub read_u32 : M ℕ
unfolding read_full be_value
read_u32 = do bs ← read_full 4; return (be_value bs)

unfoldable pub read_format : M PixelFormat
unfolding read_full decode_format
read_format = do bs ← read_full 16; return (decode_format bs)

-- binary.Read and binary.Write check the type of the value before they touch the connection: a
-- struct with an interface or a pointer in it has no fixed size.
unfoldable pub binary_invalid : {A : Type 0} → M A
binary_invalid = fail invalid_type

-- `Write` of the connection, into bufio.Writer, for bytes that fit into its buffer with those that are
-- there: then it neither writes to the network nor fails. That a full buffer is flushed is left out.
unfoldable pub write : List ℕ → M (Unit {0})
write bs c = (ok tt, record c { pending = c.pending ++ bs })

unfoldable pub flush : M (Unit {0})
flush c =
    if c.link_up
    then (ok tt, record c { pending = []; sent = c.sent ++ c.pending })
    else (err broken_pipe, c)
