-- ===== src/Tests/Proxies.antt =====
-- A run of the proxy.
use avacadovnc.Common.{ℕ, ◌≡◌, refl, List, [], ◌∷◌, true, false}
use avacadovnc.Proxy.{
  Link, copied, Proxy, started, peer_sends, peer_ends, read, read_ends, write, upward, Steps, here,
  next, IsFresh,
}
use avacadovnc.Proxy.Invariant.{IsRelay, Reachable-IsRelay}

abbrev quiet : Link
quiet = record {
  sent = [];
  unread = [];
  ended = false;
  is_open = true;
  broken = false;
  written = [];
}

quiet-IsFresh : IsFresh quiet
quiet-IsFresh = record { nothing_read = refl; nothing_written = refl }

abbrev key : List ℕ
key = 4 ∷ 1 ∷ []

-- The client has sent two bytes and is gone, and the copy to the server has ended.
abbrev carried : Proxy
carried = record (started quiet quiet) {
  client = record quiet { sent = key; ended = true };
  server = record quiet { written = key };
  up = copied true;
}

cons_not_nil : {n : ℕ} {ns : List ℕ} → ¬ (n ∷ ns ≡ [])
cons_not_nil e = cc

carried_reached : Steps (started quiet quiet) carried
carried_reached =
    next
      (next
        (next
          (next (next here (upward (peer_sends key refl)))
            (upward (read key [] refl refl cons_not_nil refl)))
          (upward (write key refl refl)))
        (upward peer_ends))
      (upward (read_ends refl refl refl refl))

Reachable-IsRelay_example : IsRelay carried
Reachable-IsRelay_example =
    Reachable-IsRelay quiet quiet quiet-IsFresh quiet-IsFresh carried_reached
