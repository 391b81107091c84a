-- ===== src/Proxy.antt =====
-- example/proxy/main.go, `handleProxyConnection`: the two goroutines that copy between a client and
-- the remote server, and the one that waits for them, interleaved in any order. `io.Copy` reads some bytes
-- and writes them, again and again, until a read ends or one of the two fails.
pub mod Carries
pub mod Invariant
pub mod Finish
use avacadovnc.Common.{ℕ, ◌-◌, ◌≡◌, ◌≢◌, ◌⊎◌, List, [], ◌++◌, Bool, true, false}

-- A connection, with what its peer has done: `sent` is all that the peer sent so far, and `unread` the
-- end of it that was not read yet.
pub record Link : Type 0 where
  pub sent : List ℕ
  pub unread : List ℕ
  -- the peer sends nothing more
  pub ended : Bool
  -- `Close` was not called
  pub is_open : Bool
  -- the network failed
  pub broken : Bool
  -- what was written to the peer
  pub written : List ℕ

-- Where one of the two goroutines stands. Once `io.Copy` has returned it is known whether it did so at
-- the end of its source.
pub data Copier : Type 0 where
  reading : Copier
  -- between a read and the write
  holding : List ℕ → Copier
  -- before `Close` of the other connection
  copied : Bool → Copier
  -- before the deferred `wg.Done()`
  leaving : Bool → Copier
  finished : Bool → Copier

-- The goroutine of the connection: at `wg.Wait()`, before the two deferred calls of `Close`, and after them.
pub data Main : Type 0 where
  waiting ready server_closed returned : Main

pub record Proxy : Type 0 where
  pub client : Link
  pub server : Link
  -- from the client to the server, and back
  pub up : Copier
  pub down : Copier
  pub wg : ℕ
  pub main : Main

-- The same with the two directions exchanged.
abbrev pub mirror : Proxy → Proxy
mirror s = record s { client = s.server; server = s.client; up = s.down; down = s.up }

-- After the dial: a failed one only closes the client's connection.
abbrev pub started : Link → Link → Proxy
started client server = record {
  client = client;
  server = server;
  up = reading;
  down = reading;
  wg = 2;
  main = waiting;
}

abbrev refused : Link → Link
refused client = record client { is_open = false }

-- What the peer at the client's end does, and the goroutine that copies from there.
pub data Move (s : Proxy) : Proxy → Type 0 where
  peer_sends :
      (bytes : List ℕ)
      → s.client.ended ≡ false
      → Move s (record s {
        client = record s.client {
          sent = s.client.sent ++ bytes;
          unread = s.client.unread ++ bytes;
        };
      })
  peer_ends : Move s (record s { client = record s.client { ended = true } })
  link_breaks : Move s (record s { client = record s.client { broken = true } })
  read :
      (bytes rest : List ℕ)
      → s.up ≡ reading
      → s.client.is_open ≡ true
      → bytes ≢ []
      → s.client.unread ≡ bytes ++ rest
      → Move s (record s { client = record s.client { unread = rest }; up = holding bytes })
  read_ends :
      s.up ≡ reading
      → s.client.is_open ≡ true
      → s.client.unread ≡ []
      → s.client.ended ≡ true
      → Move s (record s { up = copied true })
  read_fails :
      s.up ≡ reading
      → (s.client.is_open ≡ false) ⊎ (s.client.broken ≡ true)
      → Move s (record s { up = copied false })
  write :
      (bytes : List ℕ)
      → s.up ≡ holding bytes
      → s.server.is_open ≡ true
      → Move s (record s {
        server = record s.server { written = s.server.written ++ bytes };
        up = reading;
      })
  write_closed :
      (bytes : List ℕ)
      → s.up ≡ holding bytes
      → s.server.is_open ≡ false
      → Move s (record s { up = copied false })
  -- a part of the bytes may have been written
  write_breaks :
      (part rest : List ℕ)
      → s.up ≡ holding (part ++ rest)
      → s.server.broken ≡ true
      → Move s (record s {
        server = record s.server { written = s.server.written ++ part };
        up = copied false;
      })
  close_other :
      (clean : Bool)
      → s.up ≡ copied clean
      → Move s (record s { server = record s.server { is_open = false }; up = leaving clean })
  finish :
      (clean : Bool)
      → s.up ≡ leaving clean
      → Move s (record s { up = finished clean; wg = s.wg - 1 })

-- The proxy does it, and neither a peer nor the network.
abbrev pub is_own_move : {s t : Proxy} → Move s t → Bool
is_own_move (peer_sends bytes e) = false
is_own_move peer_ends = false
is_own_move link_breaks = false
is_own_move _ = true

pub data Step (s : Proxy) : Proxy → Type 0 where
  upward : {t : Proxy} → Move s t → Step s t
  downward : {t : Proxy} → Move (mirror s) t → Step s (mirror t)
  wait_over : s.main ≡ waiting → s.wg ≡ 0 → Step s (record s { main = ready })
  -- the deferred calls, the last one first
  close_server :
      s.main ≡ ready
      → Step s (record s { server = record s.server { is_open = false }; main = server_closed })
  close_client :
      s.main ≡ server_closed
      → Step s (record s { client = record s.client { is_open = false }; main = returned })

pub data Steps (s : Proxy) : Proxy → Type 0 where
  here : Steps s s
  next : {t u : Proxy} → Steps s t → Step t u → Steps s u

abbrev is_own : {s t : Proxy} → Step s t → Bool
is_own (upward m) = is_own_move m
is_own (downward m) = is_own_move m
is_own _ = true

-- The proxy goes on, while its peers and the network do nothing.
pub data Runs (s : Proxy) : Proxy → Type 0 where
  no_run : Runs s s
  run : {t u : Proxy} → Runs s t → (st : Step t u) → is_own st ≡ true → Runs s u

-- A connection of which nothing was read, and to which nothing was written.
pub record IsFresh (l : Link) : Type 0 where
  pub nothing_read : l.unread ≡ l.sent
  pub nothing_written : l.written ≡ []
