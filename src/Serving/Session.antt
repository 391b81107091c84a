-- ===== src/Serving/Session.antt =====
-- How the goroutine of a client of the server ends.
use avacadovnc.Common.{
  ◌++◌, some, ℕ, ◌≡◌, List, [], ◌∷◌, true, false, arith, refl, ◌∙◌, if◌then◌else◌, ◌==◌, String, ap,
}
use avacadovnc.Outcome.{Outcome, ok, err, panic}
use avacadovnc.Conn.{ClientConfig, security_none, Conn, ServerConfig, M, resume, wrapped}
use avacadovnc.Conn.Access.{new_server_conn}
use avacadovnc.Handshake.Steps.{IsServerConfig}
use avacadovnc.Handshake.Agree.{server_script, client_script, server_steps, server_run, offered}
use avacadovnc.Handshake.{
  choose, server_version, server_security, server_client_init, server_init, Handler, handle,
  run_handlers,
}
use avacadovnc.Serving.{
  ServerConn, open_session, close, Handled, ended, waits_forever, handlers_loop, next_handler,
  handle_connection,
}

-- The goroutine came to its end, its connection is closed, and what it has read and sent is what the
-- handlers left.
abbrev IsOver : Handled → Type 0
IsOver waits_forever = ⊥
IsOver (ended o sc) = (sc.closed ≡ true) × (sc.conn.link_up ≡ false)

close-IsOver :
    (o : Outcome (Unit {0})) (sc : ServerConn) → sc.closed ≡ false → IsOver (ended o (close sc))
unfolding close
close-IsOver o sc h = ground arith

next_handler-IsOver :
    (sc : ServerConn) (r : Outcome (Unit {0}) × Conn) (k : ServerConn → Handled)
    → sc.closed ≡ false
    → ((c : Conn) → IsOver (k (record sc { conn = c })))
    → IsOver (next_handler sc r k)
next_handler-IsOver sc (ok u, c) k h f = f c
next_handler-IsOver sc (err e, c) k h f = close-IsOver (err e) (record sc { conn = c }) h
next_handler-IsOver sc (panic p, c) k h f = close-IsOver (panic p) (record sc { conn = c }) h

handlers_loop-IsOver :
    (encrypt : List ℕ → List ℕ → List ℕ) (hs : List Handler) (sc : ServerConn)
    → sc.closed ≡ false
    → sc.wg ≡ 0
    → IsOver (handlers_loop encrypt hs sc)
unfolding handlers_loop
handlers_loop-IsOver encrypt [] sc h w = simp w (close-IsOver (ok tt) sc h)
handlers_loop-IsOver encrypt (x ∷ hs) sc h w =
    next_handler-IsOver sc (handle encrypt x sc.conn) (handlers_loop encrypt hs) h
      (λ c. handlers_loop-IsOver encrypt hs (record sc { conn = c }) h w)

-- For handlers of this library and a client that sends its bytes and then ends its stream: the goroutine
-- ends with the connection closed, also where a handler returns an error or panics.
handle_connection-IsOver :
    (encrypt : List ℕ → List ℕ → List ℕ) (hs : List Handler) (cfg : ServerConfig) (input : List ℕ)
    → IsOver (handle_connection encrypt hs cfg input)
unfolding handle_connection open_session
handle_connection-IsOver encrypt [] cfg input = close-IsOver (ok tt) (open_session cfg input) refl
handle_connection-IsOver encrypt (h ∷ hs) cfg input =
    handlers_loop-IsOver encrypt (h ∷ hs) (open_session cfg input) refl refl

-- The handlers one after the other, as the client's side runs them too.
wrapped_ok :
    (r : Outcome (Unit {0}) × Conn) (text : String) (k : M (Unit {0})) (c : Conn)
    → resume (wrapped text r) (λ u. k) ≡ (ok tt, c)
    → (r.0 ≡ ok tt) × (k r.1 ≡ (ok tt, c))
wrapped_ok (ok u, d) text k c h = (refl, h)
wrapped_ok (err e, d) text k c h = cc (ap (λ (t : Outcome (Unit {0}) × Conn). t.0) h)
wrapped_ok (panic p, d) text k c h = cc (ap (λ (t : Outcome (Unit {0}) × Conn). t.0) h)

next_ok :
    (sc : ServerConn) (r : Outcome (Unit {0}) × Conn) (k : ServerConn → Handled)
    → r.0 ≡ ok tt
    → next_handler sc r k ≡ k (record sc { conn = r.1 })
next_ok sc (ok u, c) k h = refl
next_ok sc (err e, c) k h = cc h
next_ok sc (panic p, c) k h = cc h

loop-run_handlers :
    (encrypt : List ℕ → List ℕ → List ℕ) (hs : List Handler) (sc : ServerConn) (c : Conn)
    → sc.wg ≡ 0
    → run_handlers encrypt hs sc.conn ≡ (ok tt, c)
    → handlers_loop encrypt hs sc ≡ ended (ok tt) (close (record sc { conn = c }))
unfolding handlers_loop run_handlers
loop-run_handlers encrypt [] sc c w h =
    ap (λ (n : ℕ). if n == 0 then ended (ok tt) (close sc) else waits_forever) w
    ∙ (ap (λ (r : Outcome (Unit {0}) × Conn). ended (ok tt) (close (record sc { conn = r.1 }))) h)
loop-run_handlers encrypt (x ∷ hs) sc c w h =
    let (fine, left) =
      wrapped_ok (handle encrypt x sc.conn) "handshake failed during handler"
        (run_handlers encrypt hs) c h in
    next_ok sc (handle encrypt x sc.conn) (handlers_loop encrypt hs) fine
    ∙ loop-run_handlers encrypt hs (record sc { conn = (handle encrypt x sc.conn).1 }) c w left

-- When the handshake succeeds, the goroutine is over at once: the connection is what the handshake left,
-- closed, so that no message after the handshake is read and none is answered.
handle_connection-run_handlers :
    (encrypt : List ℕ → List ℕ → List ℕ) (h : Handler) (hs : List Handler) (cfg : ServerConfig)
    (input : List ℕ) (c : Conn)
    → run_handlers encrypt (h ∷ hs) (new_server_conn input cfg) ≡ (ok tt, c)
    → handle_connection encrypt (h ∷ hs) cfg input
      ≡ ended (ok tt) (record { conn = record c { link_up = false }; wg = 0; closed = true })
unfolding handle_connection open_session close
handle_connection-run_handlers encrypt h hs cfg input c e =
    loop-run_handlers encrypt (h ∷ hs) (open_session cfg input) c refl e

-- The server's four handlers, with a configuration in range, for a client of this library that has chosen
-- the scheme "none" from the server's types: whatever the client sends after its part of the
-- handshake, the goroutine sends the server's part and nothing else, leaves the rest unread, and ends
-- with the connection closed.
pub handle_connection-server_steps :
    (encrypt : List ℕ → List ℕ → List ℕ) (own : ClientConfig) (cfg : ServerConfig) (more : List ℕ)
    → IsServerConfig cfg
    → choose own.security_handlers (offered cfg) ≡ some security_none
    → handle_connection encrypt server_steps cfg (client_script own ++ more)
      ≡ ended (ok tt) (record {
        conn = record (new_server_conn (client_script own ++ more) cfg) {
          input = more;
          sent = server_script cfg;
          security_handler = some security_none;
          link_up = false;
        };
        wg = 0;
        closed = true;
      })
unfolding new_server_conn
handle_connection-server_steps encrypt own cfg more v chosen =
    let s : Conn = new_server_conn (client_script own ++ more) cfg in
    handle_connection-run_handlers encrypt server_version
      (server_security ∷ server_client_init ∷ server_init ∷ []) cfg (client_script own ++ more)
      (record s { input = more; sent = server_script cfg; security_handler = some security_none })
      (server_run encrypt own cfg more s v chosen refl refl refl refl refl)
