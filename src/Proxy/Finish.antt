-- ===== src/Proxy/Finish.antt =====
-- When one of the two copies has ended, the whole proxy ends without its peers.
use avacadovnc.Common.{◌≡◌, Bool, true, false}
use avacadovnc.Proxy.{Copier, copied, leaving, finished, returned, Proxy, Move, is_own_move, Runs}
use avacadovnc.Proxy.Invariant.{IsRelay}

-- The moves of one direction, none of them of a peer or of the network.
data Moves (s : Proxy) : Proxy → Type 0 where
  still : Moves s s
  and_then : {t u : Proxy} → Moves s t → (m : Move t u) → is_own_move m ≡ true → Moves s u

-- `io.Copy` has returned.
abbrev has_copied : Copier → Bool
has_copied (copied clean) = true
has_copied (leaving clean) = true
has_copied (finished clean) = true
has_copied _ = false

-- The goroutine that copies upwards finishes, and nothing else moves.
record Ends (s : Proxy) : Type 0 where
  last : Proxy
  moves : Moves s last
  clean : Bool
  done : last.up ≡ finished clean
  closes : last.server.is_open ≡ false
  same_down : last.down ≡ s.down
  same_client : last.client ≡ s.client
  same_main : last.main ≡ s.main
  same_sent : last.server.sent ≡ s.server.sent

-- `handleProxyConnection` has returned, both connections are closed, and the peers have sent nothing
-- meanwhile.
pub record IsOver (s t : Proxy) : Type 0 where
  pub returns : t.main ≡ returned
  pub client_closed : t.client.is_open ≡ false
  pub server_shut : t.server.is_open ≡ false
  pub client_sent : t.client.sent ≡ s.client.sent
  pub server_sent : t.server.sent ≡ s.server.sent

-- Both goroutines have finished, and the peers have sent nothing meanwhile.
record BothEnd (s : Proxy) : Type 0 where
  last : Proxy
  steps : Runs s last
  sound : IsRelay last
  wg_empty : last.wg ≡ 0
  client_sent : last.client.sent ≡ s.client.sent
  server_sent : last.server.sent ≡ s.server.sent
