-- ===== src/Handshake/Agree.antt =====
-- The whole handshake of a client and a server of this library over a link that loses nothing.
use avacadovnc.Common.{
  ℕ, ◌≡◌, List, [], ◌∷◌, ◌++◌, true, some, if◌then◌else◌, map, arith, refl, length, length-map,
  append_assoc, ◌∙◌,
}
use avacadovnc.Wire.{be16, be32}
use avacadovnc.Outcome.{ok}
use avacadovnc.Pixel.{encode_format}
use avacadovnc.Conn.{
  Conn, Role, client, server, ClientConfig, ServerConfig, security_none, write, flush,
}
use avacadovnc.Conn.Access.{security_type}
use avacadovnc.Conn.Reads.{read_full_given}
use avacadovnc.Handshake.{
  protocol_version, client_version_handle, client_security_handle, client_init_handle,
  server_version_handle, server_security_handle, server_client_init_handle, choose, handle,
  run_handlers, Handler, client_version, client_security, client_init, client_server_init,
  server_version, server_security, server_client_init, server_init,
}
use avacadovnc.Handshake.Choice.{find_handler_none}
use avacadovnc.Handshake.Steps.{
  IsServerConfig, init_bytes, client_version_step, client_security_step, client_server_init_step,
  server_init_step, server_security_step,
}

abbrev pub offered : ServerConfig → List ℕ
offered cfg = map security_type cfg.security_handlers

abbrev shared_flag : ClientConfig → ℕ
shared_flag own = if own.exclusive then 0 else 1

-- All that the server sends in the handshake, and all that the client sends.
abbrev pub server_script : ServerConfig → List ℕ
server_script cfg =
    protocol_version ++ (length cfg.security_handlers ∷ (offered cfg ++ (be32 0 ++ init_bytes cfg)))

abbrev pub client_script : ClientConfig → List ℕ
client_script own = protocol_version ++ (1 ∷ shared_flag own ∷ [])

-- A connection of the given role before its first step, with the bytes that it will receive.
pub record IsFresh (r : Role) (bytes : List ℕ) (c : Conn) : Type 0 where
  pub role : c.role ≡ r
  pub up : c.link_up ≡ true
  pub empty : c.pending ≡ []
  pub unsent : c.sent ≡ []
  pub given : c.input ≡ bytes

client_init_step :
    (own : ClientConfig) (c : Conn)
    → c.role ≡ client own
    → c.link_up ≡ true
    → client_init_handle c
      ≡ (ok tt, record c { pending = []; sent = c.sent ++ (c.pending ++ shared_flag own ∷ []) })
unfolding client_init_handle write flush
client_init_step own c role up = ground arith

server_version_step :
    (rest : List ℕ) (s : Conn)
    → s.input ≡ protocol_version ++ rest
    → s.link_up ≡ true
    → server_version_handle s ≡ (
      ok tt,
      record s { input = rest; pending = []; sent = s.sent ++ (s.pending ++ protocol_version) },
    )
unfolding server_version_handle write flush
server_version_step rest s inp up = ground (
  arith,
  read_full_given 12 protocol_version rest
      (record s { pending = []; sent = s.sent ++ (s.pending ++ protocol_version) }) inp refl,
)

server_client_init_step :
    (flag : ℕ) (rest : List ℕ) (s : Conn)
    → s.input ≡ flag ∷ rest
    → server_client_init_handle s ≡ (ok tt, record s { input = rest })
unfolding server_client_init_handle
server_client_init_step flag rest s inp =
    ground (arith, read_full_given 1 (flag ∷ []) rest s inp refl)

run_step :
    (encrypt : List ℕ → List ℕ → List ℕ) (h : Handler) (hs : List Handler) (c d : Conn)
    → handle encrypt h c ≡ (ok tt, d)
    → run_handlers encrypt (h ∷ hs) c ≡ run_handlers encrypt hs d
unfolding run_handlers
run_step encrypt h hs c d e = rw e

abbrev pub client_steps : List Handler
client_steps = client_version ∷ client_security ∷ client_init ∷ client_server_init ∷ []

abbrev pub server_steps : List Handler
server_steps = server_version ∷ server_security ∷ server_client_init ∷ server_init ∷ []

-- The client's four steps on the server's bytes.
client_run :
    (encrypt : List ℕ → List ℕ → List ℕ) (own : ClientConfig) (cfg : ServerConfig) (rest : List ℕ)
    (c : Conn)
    → IsServerConfig cfg
    → choose own.security_handlers (offered cfg) ≡ some security_none
    → c.role ≡ client own
    → c.link_up ≡ true
    → c.pending ≡ []
    → c.sent ≡ []
    → c.input ≡ server_script cfg ++ rest
    → run_handlers encrypt client_steps c ≡ (
      ok tt,
      record c {
        input = rest;
        protocol = protocol_version;
        sent = client_script own;
        security_handler = some security_none;
        fb_width = cfg.width;
        fb_height = cfg.height;
        pixel_format = cfg.pixel_format;
        desktop_name = cfg.desktop_name;
      },
    )
unfolding handle run_handlers
client_run encrypt own cfg rest c v chosen role up empty fresh inp =
    let init_rest : List ℕ =
      be16 cfg.width
      ++ (be16 cfg.height
          ++ (encode_format cfg.pixel_format
              ++ (be32 (length cfg.desktop_name) ++ (cfg.desktop_name ++ rest)))) in
    let security_rest : List ℕ =
      length cfg.security_handlers ∷ (offered cfg ++ (be32 0 ++ init_rest)) in
    let plain : c.input ≡ protocol_version ++ security_rest = inp ∙ simp append_assoc in
    let c1 : Conn = record c {
      input = security_rest;
      protocol = protocol_version;
      pending = [];
      sent = protocol_version;
    } in
    let c2 : Conn = record c1 {
      input = init_rest;
      sent = protocol_version ++ 1 ∷ [];
      security_handler = some security_none;
    } in
    let c3 : Conn = record c2 { sent = client_script own } in
    let n_types : length (offered cfg) ≡ length cfg.security_handlers = length-map _ _ in
    let e1 : client_version_handle c ≡ (ok tt, c1) =
      ground (arith, client_version_step protocol_version security_rest c plain refl up) in
    let e2 : client_security_handle encrypt c1 ≡ (ok tt, c2) =
      client_security_step encrypt own (offered cfg) init_rest c1 role chosen
        (omega (arith, v.some_handler, n_types)) (rw n_types) up in
    let e3 : client_init_handle c2 ≡ (ok tt, c3) = client_init_step own c2 role up in
    run_step encrypt client_version (client_security ∷ client_init ∷ client_server_init ∷ []) c c1
      e1
    ∙ run_step encrypt client_security (client_init ∷ client_server_init ∷ []) c1 c2 e2
    ∙ run_step encrypt client_init (client_server_init ∷ []) c2 c3 e3
    ∙ run_step encrypt client_server_init [] c3 _
        (client_server_init_step cfg own rest c3 v role refl)
    ∙ ground arith

-- The server's four steps on the client's bytes.
pub server_run :
    (encrypt : List ℕ → List ℕ → List ℕ) (own : ClientConfig) (cfg : ServerConfig) (rest : List ℕ)
    (s : Conn)
    → IsServerConfig cfg
    → choose own.security_handlers (offered cfg) ≡ some security_none
    → s.role ≡ server cfg
    → s.link_up ≡ true
    → s.pending ≡ []
    → s.sent ≡ []
    → s.input ≡ client_script own ++ rest
    → run_handlers encrypt server_steps s ≡ (
      ok tt,
      record s { input = rest; sent = server_script cfg; security_handler = some security_none },
    )
unfolding handle run_handlers
server_run encrypt own cfg rest s v chosen role up empty fresh inp =
    let types : List ℕ = length cfg.security_handlers ∷ offered cfg in
    let s1 : Conn = record s {
      input = 1 ∷ shared_flag own ∷ rest;
      pending = [];
      sent = protocol_version;
    } in
    let s2 : Conn = record s1 {
      input = shared_flag own ∷ rest;
      sent = (protocol_version ++ types) ++ be32 0;
      security_handler = some security_none;
    } in
    let s3 : Conn = record s2 { input = rest } in
    let e1 : server_version_handle s ≡ (ok tt, s1) =
      ground (arith, server_version_step (1 ∷ shared_flag own ∷ rest) s inp up) in
    let e2 : server_security_handle encrypt s1 ≡ (ok tt, s2) =
      server_security_step encrypt cfg (shared_flag own ∷ rest) s1 role
        (find_handler_none cfg.security_handlers own.security_handlers chosen) v.handlers_u8 refl up
        refl in
    let e3 : server_client_init_handle s2 ≡ (ok tt, s3) =
      server_client_init_step (shared_flag own) rest s2 refl in
    run_step encrypt server_version (server_security ∷ server_client_init ∷ server_init ∷ []) s s1
      e1
    ∙ run_step encrypt server_security (server_client_init ∷ server_init ∷ []) s1 s2 e2
    ∙ run_step encrypt server_client_init (server_init ∷ []) s2 s3 e3
    ∙ run_step encrypt server_init [] s3 _ (server_init_step cfg s3 v role up)
    ∙ ground (arith, append_assoc (protocol_version ++ types) (be32 0) (init_bytes cfg))

-- A client and a server of this library with fresh connections, over a link that is up, where the
-- client's choice from the server's types is the scheme "none" and the server's configuration is in
-- range: if each side's input is what the other side sends, followed by more, then both handshakes
-- succeed, each side sends exactly the other's input, both have settled on the scheme, the client
-- holds the server's size, pixel format and name, and what follows is left unread.
pub run_handlers_agree :
    (encrypt : List ℕ → List ℕ → List ℕ) (own : ClientConfig) (cfg : ServerConfig)
    (more_s more_c : List ℕ) (c s : Conn)
    → IsServerConfig cfg
    → choose own.security_handlers (offered cfg) ≡ some security_none
    → IsFresh (client own) (server_script cfg ++ more_s) c
    → IsFresh (server cfg) (client_script own ++ more_c) s
    → (run_handlers encrypt client_steps c ≡ (
      ok tt,
      record c {
        input = more_s;
        protocol = protocol_version;
        sent = client_script own;
        security_handler = some security_none;
        fb_width = cfg.width;
        fb_height = cfg.height;
        pixel_format = cfg.pixel_format;
        desktop_name = cfg.desktop_name;
      },
    ))
      × (run_handlers encrypt server_steps s ≡ (
        ok tt,
        record s {
          input = more_c;
          sent = server_script cfg;
          security_handler = some security_none;
        },
      ))
run_handlers_agree encrypt own cfg more_s more_c c s v chosen fc fs = (
  client_run encrypt own cfg more_s c v chosen fc.role fc.up fc.empty fc.unsent fc.given,
  server_run encrypt own cfg more_c s v chosen fs.role fs.up fs.empty fs.unsent fs.given,
)
