-- ===== src/Handshake/Steps.antt =====
-- Each handler of the handshake on the bytes that the other side sends for it.
use avacadovnc.Common.{
  ℕ, ◌<◌, ◌≡◌, ◌≢◌, List, [], ◌∷◌, ◌++◌, true, some, map, arith, refl, length, append_assoc,
}
use avacadovnc.Wire.{IsU8, IsU16, IsU32, be16, be32}
use avacadovnc.Outcome.{ok}
use avacadovnc.Pixel.{PixelFormat, IsPixelFormat, encode_format}
use avacadovnc.Pixel.Laws.{decode_format-encode_format, length-encode_format}
use avacadovnc.Conn.{
  Conn, client, server, ClientConfig, ServerConfig, security_none, read_format, write, flush,
}
use avacadovnc.Conn.Access.{
  security_type, set_proto_version, set_security_handler, set_width, set_height, set_pixel_format,
  set_desktop_name,
}
use avacadovnc.Conn.Reads.{read_full_given, read_u8_given, read_u16_given, read_u32_given}
use avacadovnc.Security.{authenticate, authenticate_client, authenticate_server, check_result}
use avacadovnc.Handshake.{
  protocol_version, client_version_handle, client_security_handle, server_init_read,
  server_security_handle, server_init_write, choose, find_handler, take_choice, serve_choice,
}

pub client_version_step :
    (version rest : List ℕ) (c : Conn)
    → c.input ≡ version ++ rest
    → length version ≡ 12
    → c.link_up ≡ true
    → client_version_handle c ≡ (
      ok tt,
      record c {
        input = rest;
        protocol = version;
        pending = [];
        sent = c.sent ++ (c.pending ++ protocol_version);
      },
    )
unfolding client_version_handle set_proto_version write flush
client_version_step version rest c inp len up =
    ground (arith, read_full_given 12 version rest c inp len)

read_format_given :
    (pf : PixelFormat) (rest : List ℕ) (c : Conn)
    → IsPixelFormat pf
    → c.input ≡ encode_format pf ++ rest
    → read_format c ≡ (ok pf, record c { input = rest })
unfolding read_format
read_format_given pf rest c h inp = rw (
  read_full_given 16 (encode_format pf) rest c inp (length-encode_format pf),
  decode_format-encode_format pf h,
)

-- What a server announces.
pub record IsServerConfig (cfg : ServerConfig) : Type 0 where
  pub width_u16 : IsU16 cfg.width
  pub height_u16 : IsU16 cfg.height
  pub format : IsPixelFormat cfg.pixel_format
  pub name_u32 : IsU32 (length cfg.desktop_name)
  pub some_handler : 0 < length cfg.security_handlers
  pub handlers_u8 : IsU8 (length cfg.security_handlers)

abbrev pub init_bytes : ServerConfig → List ℕ
init_bytes cfg =
    be16 cfg.width
    ++ (be16 cfg.height
        ++ (encode_format cfg.pixel_format ++ (be32 (length cfg.desktop_name) ++ cfg.desktop_name)))

-- The client reads from these bytes what the server announces.
pub client_server_init_step :
    (cfg : ServerConfig) (own : ClientConfig) (rest : List ℕ) (c : Conn)
    → IsServerConfig cfg
    → c.role ≡ client own
    → c.input
      ≡ be16 cfg.width
        ++ (be16 cfg.height
            ++ (encode_format cfg.pixel_format
                ++ (be32 (length cfg.desktop_name) ++ (cfg.desktop_name ++ rest))))
    → server_init_read c ≡ (
      ok tt,
      record c {
        input = rest;
        fb_width = cfg.width;
        fb_height = cfg.height;
        pixel_format = cfg.pixel_format;
        desktop_name = cfg.desktop_name;
      },
    )
unfolding server_init_read set_width set_height set_pixel_format set_desktop_name
client_server_init_step cfg own rest c v role inp =
    let after_length : List ℕ = cfg.desktop_name ++ rest in
    let after_format : List ℕ = be32 (length cfg.desktop_name) ++ after_length in
    let after_height : List ℕ = encode_format cfg.pixel_format ++ after_format in
    let after_width : List ℕ = be16 cfg.height ++ after_height in
    let c1 : Conn = record c { input = after_width } in
    let c2 : Conn = record c {
      input = after_height;
      fb_width = cfg.width;
      fb_height = cfg.height;
    } in
    let c3 : Conn = record c2 { input = after_format; pixel_format = cfg.pixel_format } in
    ground (
      arith,
      read_u16_given cfg.width after_width c inp v.width_u16,
      read_u16_given cfg.height after_height c1 refl v.height_u16,
      read_format_given cfg.pixel_format after_format c2 v.format refl,
      read_u32_given (length cfg.desktop_name) after_length c3 refl v.name_u32,
      read_full_given (length cfg.desktop_name) cfg.desktop_name rest
          (record c3 { input = after_length }) refl refl,
    )

append_five :
    (p a b d e f : List ℕ) → ((((p ++ a) ++ b) ++ d) ++ e) ++ f ≡ p ++ (a ++ (b ++ (d ++ (e ++ f))))
append_five p a b d e f = simp append_assoc

pub server_init_step :
    (cfg : ServerConfig) (s : Conn)
    → IsServerConfig cfg
    → s.role ≡ server cfg
    → s.link_up ≡ true
    → server_init_write s
      ≡ (ok tt, record s { pending = []; sent = s.sent ++ (s.pending ++ init_bytes cfg) })
unfolding server_init_write write flush
server_init_step cfg s v role up = ground (
  arith,
  append_five s.pending (be16 cfg.width) (be16 cfg.height) (encode_format cfg.pixel_format)
      (be32 (length cfg.desktop_name)) cfg.desktop_name,
  v.name_u32,
)

-- The server lists its types, and a client whose choice is the scheme "none" is let in.
pub client_security_step :
    (encrypt : List ℕ → List ℕ → List ℕ) (own : ClientConfig) (types rest : List ℕ) (c : Conn)
    → c.role ≡ client own
    → choose own.security_handlers types ≡ some security_none
    → length types ≢ 0
    → c.input ≡ length types ∷ (types ++ (be32 0 ++ rest))
    → c.link_up ≡ true
    → client_security_handle encrypt c ≡ (
      ok tt,
      record c {
        input = rest;
        pending = [];
        sent = c.sent ++ (c.pending ++ 1 ∷ []);
        security_handler = some security_none;
      },
    )
unfolding client_security_handle take_choice set_security_handler authenticate authenticate_client
    check_result write flush security_type
client_security_step encrypt own types rest c role chosen ne inp up =
    let after : List ℕ = be32 0 ++ rest in
    let c1 : Conn = record c { input = types ++ after } in
    let c2 : Conn = record c {
      input = after;
      pending = [];
      sent = c.sent ++ (c.pending ++ 1 ∷ []);
      security_handler = some security_none;
    } in
    ground (
      arith,
      read_u8_given (length types) (types ++ after) c inp,
      read_full_given (length types) types after c1 refl refl,
      read_u32_given 0 rest c2 refl,
    )

pub server_security_step :
    (encrypt : List ℕ → List ℕ → List ℕ) (cfg : ServerConfig) (rest : List ℕ) (s : Conn)
    → s.role ≡ server cfg
    → find_handler cfg.security_handlers 1 ≡ some security_none
    → IsU8 (length cfg.security_handlers)
    → s.input ≡ 1 ∷ rest
    → s.link_up ≡ true
    → s.pending ≡ []
    → server_security_handle encrypt s ≡ (
      ok tt,
      record s {
        input = rest;
        pending = [];
        sent =
            (s.sent ++ (length cfg.security_handlers ∷ map security_type cfg.security_handlers))
            ++ be32 0;
        security_handler = some security_none;
      },
    )
unfolding server_security_handle serve_choice set_security_handler authenticate authenticate_server
    write flush
server_security_step encrypt cfg rest s role found small inp up empty = ground (
  arith,
  read_u8_given 1 rest (record s {
    pending = [];
    sent = s.sent ++ (length cfg.security_handlers ∷ map security_type cfg.security_handlers);
  }),
)
