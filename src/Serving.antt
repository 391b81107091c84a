-- ===== src/Serving.antt =====
-- The server (server.go): `Start`, `Stop` and the goroutine of each client, `handleConnection`.
-- `Start` and `Stop` are steps in any order, for one call of `Start` and calls of `Stop` that follow each
-- other. Listening and accepting may fail at any time.
pub mod Stopping
pub mod Session
use avacadovnc.Common.{
  ℕ, zero, suc, ◌≡◌, List, [], ◌∷◌, Bool, true, false, none, ◌==◌, if◌then◌else◌,
}
use avacadovnc.Outcome.{Outcome, ok, err, panic}
use avacadovnc.Conn.{Conn, server, ServerConfig}
use avacadovnc.Conn.Access.{new_server_conn}
use avacadovnc.Handshake.{Handler, handle}

pub data Listener : Type 0 where
  no_listener listening shut : Listener

-- Where `Start` stands: before `net.Listen`, in its loop, or after its return of nil or of an error.
pub data StartPc : Type 0 where
  before accepting returned_nil returned_error : StartPc

-- Where the application's `Stop` stands: outside of a call, after `close(s.config.quit)`, or in the
-- panic of a second `close`.
pub data StopPc : Type 0 where
  outside signalled panicked : StopPc

pub record Server : Type 0 where
  pub quit : Bool
  pub listener : Listener
  pub start : StartPc
  pub stop : StopPc
  -- how many clients were accepted
  pub clients : ℕ

-- `NewServer`, with a configuration that is not nil and that no other server has.
abbrev pub new_server : Server
new_server = record {
  quit = false;
  listener = no_listener;
  start = before;
  stop = outside;
  clients = 0;
}

-- `s.listener.Close()`, if there is a listener.
abbrev closed_listener : Listener → Listener
closed_listener no_listener = no_listener
closed_listener listening = shut
closed_listener shut = shut

pub data Step (s : Server) : Server → Type 0 where
  listen_fails : s.start ≡ before → Step s (record s { start = returned_error })
  listens : s.start ≡ before → Step s (record s { start = accepting; listener = listening })
  accepts :
      s.start ≡ accepting → s.listener ≡ listening → Step s (record s { clients = suc s.clients })
  -- `Accept` returned an error, and the quit channel is open or closed
  accept_fails : s.start ≡ accepting → s.quit ≡ false → Step s (record s { start = returned_error })
  accept_ends : s.start ≡ accepting → s.quit ≡ true → Step s (record s { start = returned_nil })
  stop_signals :
      s.stop ≡ outside → s.quit ≡ false → Step s (record s { quit = true; stop = signalled })
  stop_again : s.stop ≡ outside → s.quit ≡ true → Step s (record s { stop = panicked })
  stop_closes :
      s.stop ≡ signalled
      → Step s (record s { listener = closed_listener s.listener; stop = outside })

pub data Steps (s : Server) : Server → Type 0 where
  here : Steps s s
  next : {t u : Server} → Steps s t → Step t u → Steps s u

-- `ServerConn`: the connection, its wait group and its flag.
pub record ServerConn : Type 0 where
  pub conn : Conn
  pub wg : ℕ
  pub closed : Bool

-- The connection of `NewServerConn` for a client whose bytes are `input`, and what it adds to it.
open_session : ServerConfig → List ℕ → ServerConn
open_session cfg input = record { conn = new_server_conn input cfg; wg = 0; closed = false }

pub close : ServerConn → ServerConn
close sc =
    if sc.closed then sc else record sc { closed = true; conn = record sc.conn { link_up = false } }

-- How `handleConnection` ends. No other goroutine has the wait group of a connection, so that `Wait`
-- returns at once or never.
pub data Handled : Type 0 where
  -- it returned, or it panicked; `Close` is deferred
  ended : Outcome (Unit {0}) → ServerConn → Handled
  waits_forever : Handled

-- `Wait` at the end, and the deferred `Close`.
abbrev wait : ServerConn → Handled
wait sc = if sc.wg == 0 then ended (ok tt) (close sc) else waits_forever

-- After a handler's call: the loop goes on, or the function returns.
abbrev next_handler : ServerConn → Outcome (Unit {0}) × Conn → (ServerConn → Handled) → Handled
next_handler sc (ok u, c) k = k (record sc { conn = c })
next_handler sc (err e, c) k = ended (err e) (close (record sc { conn = c }))
next_handler sc (panic p, c) k = ended (panic p) (close (record sc { conn = c }))

handlers_loop : (List ℕ → List ℕ → List ℕ) → List Handler → ServerConn → Handled
handlers_loop encrypt [] sc = wait sc
handlers_loop encrypt (h ∷ hs) sc =
    next_handler sc (handle encrypt h sc.conn) (handlers_loop encrypt hs)

-- `handleConnection`, with handlers of this library, on a client whose bytes are all there: no read waits.
pub handle_connection : (List ℕ → List ℕ → List ℕ) → List Handler → ServerConfig → List ℕ → Handled
unfolding open_session handlers_loop
handle_connection encrypt [] cfg input = ended (ok tt) (close (open_session cfg input))
handle_connection encrypt (h ∷ hs) cfg input =
    handlers_loop encrypt (h ∷ hs) (open_session cfg input)
