-- ===== src/Tests/Servers.antt =====
-- `Start` and `Stop` of the server at concrete runs.
use avacadovnc.Common.{◌≡◌, ◌≢◌, refl, true}
use avacadovnc.Serving.{
  Server, new_server, listening, shut, accepting, returned_nil, outside, signalled, Steps, here,
  next, listens, accepts, accept_ends, stop_signals, stop_closes,
}
use avacadovnc.Serving.Stopping.{IsServer, Reachable-IsServer, Ending, after_shut, stop_early}

abbrev stopped : Server
stopped = record { quit = true; listener = shut; start = accepting; stop = outside; clients = 0 }

stopped_reached : Steps new_server stopped
stopped_reached = next (next (next here (listens refl)) (stop_signals refl refl)) (stop_closes refl)

abbrev over : Server
over = record stopped { start = returned_nil }

Reachable-IsServer_example : IsServer over
Reachable-IsServer_example = Reachable-IsServer (next stopped_reached (accept_ends refl refl))

after_shut_example : (over.listener ≡ shut) × (over.clients ≡ stopped.clients) × Ending over
after_shut_example = after_shut stopped_reached refl refl (next here (accept_ends refl refl))

-- `Stop` was there first; then a client is accepted.
abbrev stopped_first : Server
stopped_first = record new_server { quit = true }

abbrev still_open : Server
still_open = record {
  quit = true;
  listener = listening;
  start = accepting;
  stop = outside;
  clients = 1;
}

stopped_first_reached : Steps new_server stopped_first
stopped_first_reached = next (next here (stop_signals refl refl)) (stop_closes refl)

stop_early_example :
    (still_open.quit ≡ true) × (still_open.stop ≢ signalled) × (still_open.listener ≢ shut)
stop_early_example =
    stop_early {s = stopped_first} refl (λ e. cc) (λ e. cc)
      (next (next here (listens refl)) (accepts refl refl))
