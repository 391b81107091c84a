-- ===== src/Handshake.antt =====
-- handlers.go, and the sequence of the handlers in `Connect` (client.go).
pub mod Choice
pub mod Steps
pub mod Agree
pub mod Connect
pub mod Vnc
use avacadovnc.Common.{
  ℕ, zero, suc, List, [], ◌∷◌, ◌++◌, Bool, true, false, Option, none, some, ◌==◌, if◌then◌else◌,
  length, map, take,
}
use avacadovnc.Wire.{byte, be16, be32, u16, u32}
use avacadovnc.Outcome.{Outcome, ok, err, panic, message, wrap}
use avacadovnc.Pixel.{encode_format}
use avacadovnc.Conn.{
  Conn, M, Role, client, server, ClientConfig, ServerConfig, SecurityHandler, return, fail, done,
  gets, modify, or_wrap, wrapped, resume, ◌>>=◌, ◌>>◌, read_full, read_u8, read_u16, read_u32,
  read_format, write, flush,
}
use avacadovnc.Conn.Access.{
  security_type, encoding_type, set_proto_version, set_security_handler, set_width, set_height,
  set_pixel_format, set_desktop_name, is_client,
}
use avacadovnc.Security.{authenticate}
use avacadovnc.Message.ToServer.{FramebufferUpdateRequest, set_encodings_write, request_write}

-- "RFB 003.008\n"
abbrev pub protocol_version : List ℕ
protocol_version = 82 ∷ 70 ∷ 66 ∷ 32 ∷ 48 ∷ 48 ∷ 51 ∷ 46 ∷ 48 ∷ 48 ∷ 56 ∷ 10 ∷ []

-- `c.Config().(*ClientConfig)` and `c.Config().(*ServerConfig)`.
abbrev with_client_config : {A : Type 0} → (ClientConfig → M A) → M A
with_client_config f c = elim c.role [
  | client cfg ↦ f cfg c
  | server _ ↦ fail (message "invalid connection config type for client") c
]

abbrev with_server_config : {A : Type 0} → (ServerConfig → M A) → M A
with_server_config f c = elim c.role [
  | client _ ↦ fail (message "invalid connection config type for server") c
  | server cfg ↦ f cfg c
]

-- The client's side.

pub client_version_handle : M (Unit {0})
client_version_handle = do
  version ← or_wrap "failed to read server version" (read_full 12)
  set_proto_version version
  write protocol_version
  flush

abbrev pub mem : ℕ → List ℕ → Bool
mem a [] = false
mem a (x ∷ xs) = if a == x then true else mem a xs

-- The two nested loops: the client's first handler whose type the server offers.
unfoldable pub choose : List SecurityHandler → List ℕ → Option SecurityHandler
unfolding security_type
choose [] offered = none
choose (h ∷ hs) offered = if mem (security_type h) offered then some h else choose hs offered

-- A server with no security types sends the reason of its refusal.
unfoldable read_refusal : M (Unit {0})
read_refusal = do
  n ← or_wrap "failed to read security failure reason length" read_u32
  reason ← or_wrap "failed to read security failure reason" (read_full n)
  fail (message "server reported security failure")

pub take_choice : (List ℕ → List ℕ → List ℕ) → Option SecurityHandler → M (Unit {0})
take_choice encrypt none = fail (message "no supported security types found")
take_choice encrypt (some h) = do
  write (security_type h ∷ [])
  flush
  set_security_handler h
  authenticate encrypt h

pub client_security_handle : (List ℕ → List ℕ → List ℕ) → M (Unit {0})
client_security_handle encrypt = do
  n ← or_wrap "failed to read number of security types" read_u8
  if n == 0 then read_refusal else (do
    offered ← or_wrap "failed to read server security types" (read_full n)
    with_client_config (λ cfg. take_choice encrypt (choose cfg.security_handlers offered)))

pub client_init_handle : M (Unit {0})
client_init_handle =
    with_client_config (λ cfg. write ((if cfg.exclusive then 0 else 1) ∷ []) >> flush)

pub server_init_read : M (Unit {0})
server_init_read = do
  width ← read_u16
  height ← read_u16
  set_width width
  set_height height
  pf ← read_format
  set_pixel_format pf
  name_length ← read_u32
  name ← read_full name_length
  set_desktop_name name

-- What `DefaultClientMessageHandler` writes. The two goroutines that it starts are not a part of it.
unfoldable first_messages_write : M (Unit {0})
first_messages_write = do
  types ← gets (λ c. map encoding_type c.encodings)
  or_wrap "failed to set encodings" (set_encodings_write types)
  request ← gets (λ c.
      let req : FramebufferUpdateRequest = record {
        inc = 1;
        x = 0;
        y = 0;
        width = c.fb_width;
        height = c.fb_height;
      } in
      req)
  request_write request

pub client_message_handle : M (Unit {0})
unfolding first_messages_write
client_message_handle = do
  for_client ← gets is_client
  if for_client then first_messages_write else fail (message "handler expected a *ClientConn")

-- The server's side.

-- `bytes.HasPrefix(clientVersion[:], []byte("RFB"))`
abbrev has_rfb : List ℕ → Bool
has_rfb (a ∷ b ∷ d ∷ _) = if a == 82 then (if b == 70 then d == 66 else false) else false
has_rfb _ = false

pub server_version_handle : M (Unit {0})
server_version_handle = do
  write protocol_version
  flush
  version ← or_wrap "failed to read client version" (read_full 12)
  if has_rfb version then done else fail (message "invalid client version signature")

-- The first handler of the type that the client chose.
pub find_handler : List SecurityHandler → ℕ → Option SecurityHandler
unfolding security_type
find_handler [] choice = none
find_handler (h ∷ hs) choice = if security_type h == choice then some h else find_handler hs choice

pub serve_choice : (List ℕ → List ℕ → List ℕ) → Option SecurityHandler → M (Unit {0})
serve_choice encrypt none = fail (message "client chose an unsupported security type")
serve_choice encrypt (some h) = do set_security_handler h; authenticate encrypt h

pub server_security_handle : (List ℕ → List ℕ → List ℕ) → M (Unit {0})
server_security_handle encrypt = with_server_config (λ cfg. do
  write (byte (length cfg.security_handlers) ∷ [])
  write (map security_type cfg.security_handlers)
  flush
  choice ← or_wrap "failed to read client security choice" read_u8
  serve_choice encrypt (find_handler cfg.security_handlers choice))

pub server_client_init_handle : M (Unit {0})
server_client_init_handle = or_wrap "failed to read client init (shared flag)" (read_full 1) >> done

pub server_init_write : M (Unit {0})
server_init_write = with_server_config (λ cfg. do
  write (be16 cfg.width)
  write (be16 cfg.height)
  write (encode_format cfg.pixel_format)
  write (be32 (u32 (length cfg.desktop_name)))
  write cfg.desktop_name
  flush)

-- The sequence of the handlers.

pub data Handler : Type 0 where
  client_version client_security client_init client_server_init client_messages : Handler
  server_version server_security server_client_init server_init : Handler

pub handle : (List ℕ → List ℕ → List ℕ) → Handler → M (Unit {0})
handle encrypt client_version = client_version_handle
handle encrypt client_security = client_security_handle encrypt
handle encrypt client_init = client_init_handle
handle encrypt client_server_init = server_init_read
handle encrypt client_messages = client_message_handle
handle encrypt server_version = server_version_handle
handle encrypt server_security = server_security_handle encrypt
handle encrypt server_client_init = server_client_init_handle
handle encrypt server_init = server_init_write

-- `DefaultClientHandlers`
abbrev default_client_handlers : List Handler
default_client_handlers =
    client_version ∷ client_security ∷ client_init ∷ client_server_init ∷ client_messages ∷ []

unfoldable pub run_handlers : (List ℕ → List ℕ → List ℕ) → List Handler → M (Unit {0})
run_handlers encrypt [] = done
run_handlers encrypt (h ∷ hs) =
    or_wrap "handshake failed during handler" (handle encrypt h) >> run_handlers encrypt hs

-- `conn.Close()` on a failed handshake: the link goes down. A panic passes it by.
pub closed_on_error : Outcome (Unit {0}) × Conn → Outcome (Unit {0}) × Conn
closed_on_error (ok u, c) = (ok u, c)
closed_on_error (err e, c) = (err e, record c { link_up = false })
closed_on_error (panic p, c) = (panic p, c)

-- `Connect` on a new connection.
pub connect : (List ℕ → List ℕ → List ℕ) → List Handler → Conn → Outcome (Unit {0}) × Conn
connect encrypt [] c = closed_on_error (run_handlers encrypt default_client_handlers c)
connect encrypt (h ∷ hs) c = closed_on_error (run_handlers encrypt (h ∷ hs) c)
