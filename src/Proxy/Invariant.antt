-- ===== src/Proxy/Invariant.antt =====
-- What the proxy has carried in every state that it reaches.
use avacadovnc.Common.{
  ℕ, ◌+◌, ◌-◌, ◌≡◌, List, [], ◌++◌, Bool, true, false, refl, ap, sym, ◌∙◌, arith, append_assoc,
}
use mathlib.Core.Path.{subst}
use avacadovnc.Proxy.{
  Link, Copier, reading, holding, copied, leaving, finished, Main, waiting, Proxy, mirror, started,
  Move, peer_sends, peer_ends, link_breaks, read, read_ends, read_fails, write, write_closed,
  write_breaks, close_other, finish, Step, upward, downward, wait_over, close_server, close_client,
  Steps, here, next, IsFresh,
}
use avacadovnc.Proxy.Carries.{Carries, sending, Carries-sending, Carries-ended, stops}

abbrev pub unfinished : Copier → ℕ
unfinished (finished clean) = 0
unfinished _ = 1

-- Past the `Close` of the other connection.
abbrev pub has_closed : Copier → Bool
has_closed (leaving clean) = true
has_closed (finished clean) = true
has_closed _ = false

abbrev is_waiting : Main → Bool
is_waiting waiting = true
is_waiting _ = false

pub record IsRelay (s : Proxy) : Type 0 where
  pub up_carries : Carries s.client s.up s.server.written
  pub down_carries : Carries s.server s.down s.client.written
  -- the wait group counts the goroutines that have not finished
  pub counted : s.wg ≡ unfinished s.up + unfinished s.down
  pub up_closes : has_closed s.up ≡ true → s.server.is_open ≡ false
  pub down_closes : has_closed s.down ≡ true → s.client.is_open ≡ false
  -- the wait is over only when both have finished
  pub waits : is_waiting s.main ≡ false → s.wg ≡ 0

mirror-IsRelay : (s : Proxy) → IsRelay s → IsRelay (mirror s)
mirror-IsRelay s h = record {
  up_carries = h.down_carries;
  down_carries = h.up_carries;
  counted = omega (arith, h.counted);
  up_closes = h.down_closes;
  down_closes = h.up_closes;
  waits = h.waits;
}

-- A change of the client's link that its copier does not see.
client_changes :
    (s : Proxy) (to : Link)
    → to.written ≡ s.client.written
    → to.is_open ≡ s.client.is_open
    → Carries to s.up s.server.written
    → IsRelay s
    → IsRelay (record s { client = to })
client_changes s to w o c h = record {
  up_carries = c;
  down_carries = rw w h.down_carries;
  counted = h.counted;
  up_closes = h.up_closes;
  down_closes = λ e. o ∙ h.down_closes e;
  waits = h.waits;
}

-- The copier goes on in its own loop, or leaves it.
up_moves :
    (s : Proxy) (from : Link) (c : Copier) (written : List ℕ)
    → from.written ≡ s.client.written
    → from.is_open ≡ s.client.is_open
    → unfinished c ≡ unfinished s.up
    → has_closed c ≡ false
    → Carries from c written
    → IsRelay s
    → IsRelay (record s { client = from; server = record s.server { written = written }; up = c })
up_moves s from c written w o alike loop now h =
    let to : Link = record s.server { written = written } in
    record {
      up_carries = now;
      down_carries =
          rw w
            (Carries-ended s.server to s.client.written s.down refl refl (λ e. e) h.down_carries);
      counted = omega (arith, h.counted, alike);
      up_closes = λ e. absurd (ground (arith, loop, e));
      down_closes = λ e. o ∙ h.down_closes e;
      waits = h.waits;
    }

Carries-at : (s : Proxy) (c : Copier) → s.up ≡ c → IsRelay s → Carries s.client c s.server.written
Carries-at s c e h = subst (λ (d : Copier). Carries s.client d s.server.written) e h.up_carries

close_other-IsRelay :
    (s : Proxy) (clean : Bool)
    → s.up ≡ copied clean
    → IsRelay s
    → IsRelay (record s { server = record s.server { is_open = false }; up = leaving clean })
close_other-IsRelay s clean e h =
    let to : Link = record s.server { is_open = false } in
    record {
      up_carries = Carries-at s (copied clean) e h;
      down_carries =
          Carries-ended s.server to s.client.written s.down refl refl (λ e. e) h.down_carries;
      counted = ground (arith, h.counted);
      up_closes = λ q. refl;
      down_closes = h.down_closes;
      waits = h.waits;
    }

finish-IsRelay :
    (s : Proxy) (clean : Bool)
    → s.up ≡ leaving clean
    → IsRelay s
    → IsRelay (record s { up = finished clean; wg = s.wg - 1 })
finish-IsRelay s clean e h = record {
  up_carries = Carries-at s (leaving clean) e h;
  down_carries = h.down_carries;
  counted = ground (arith, h.counted);
  up_closes = λ q. h.up_closes (rw e refl);
  down_closes = h.down_closes;
  waits = λ q. omega (arith, h.waits q);
}

Move-IsRelay : {s t : Proxy} → Move s t → IsRelay s → IsRelay t
Move-IsRelay {s} (peer_sends bytes live) h =
    client_changes s (sending s.client bytes) refl refl
      (Carries-sending s.client s.server.written bytes s.up live h.up_carries) h
Move-IsRelay {s} peer_ends h =
    client_changes s (record s.client { ended = true }) refl refl
      (Carries-ended s.client (record s.client { ended = true }) s.server.written s.up refl refl
        (λ e. refl) h.up_carries)
      h
Move-IsRelay {s} link_breaks h =
    client_changes s (record s.client { broken = true }) refl refl
      (Carries-ended s.client (record s.client { broken = true }) s.server.written s.up refl refl
        (λ e. e) h.up_carries)
      h
Move-IsRelay {s} (read bytes rest at_here live some_bytes e) h =
    up_moves s (record s.client { unread = rest }) (holding bytes) s.server.written refl refl
      (rw at_here refl) refl
      (Carries-at s reading at_here h ∙ ap (λ (l : List ℕ). s.server.written ++ l) e) h
Move-IsRelay {s} (read_ends at_here live e ended) h =
    up_moves s s.client (copied true) s.server.written refl refl (rw at_here refl) refl
      (record {
        rest = [];
        prefix = Carries-at s reading at_here h ∙ ap (λ (l : List ℕ). s.server.written ++ l) e;
        whole = λ q. (ended, refl);
      })
      h
Move-IsRelay {s} (read_fails at_here why) h =
    up_moves s s.client (copied false) s.server.written refl refl (rw at_here refl) refl
      (stops s.client s.server.written s.client.unread (Carries-at s reading at_here h)) h
Move-IsRelay {s} (write bytes at_here live) h =
    up_moves s s.client reading (s.server.written ++ bytes) refl refl (rw at_here refl) refl
      (Carries-at s (holding bytes) at_here h
        ∙ sym (append_assoc s.server.written bytes s.client.unread))
      h
Move-IsRelay {s} (write_closed bytes at_here gone) h =
    up_moves s s.client (copied false) s.server.written refl refl (rw at_here refl) refl
      (stops s.client s.server.written (bytes ++ s.client.unread)
        (Carries-at s (holding bytes) at_here h))
      h
Move-IsRelay {s} (write_breaks part rest at_here why) h =
    up_moves s s.client (copied false) (s.server.written ++ part) refl refl (rw at_here refl) refl
      (stops s.client (s.server.written ++ part) (rest ++ s.client.unread)
        (Carries-at s (holding (part ++ rest)) at_here h ∙ simp append_assoc))
      h
Move-IsRelay {s} (close_other clean e) h = close_other-IsRelay s clean e h
Move-IsRelay {s} (finish clean e) h = finish-IsRelay s clean e h

Step-IsRelay : {s t : Proxy} → Step s t → IsRelay s → IsRelay t
Step-IsRelay (upward m) h = Move-IsRelay m h
Step-IsRelay {s} (downward {t} m) h = mirror-IsRelay t (Move-IsRelay m (mirror-IsRelay s h))
Step-IsRelay {s} (wait_over e w) h = record {
  up_carries = h.up_carries;
  down_carries = h.down_carries;
  counted = h.counted;
  up_closes = h.up_closes;
  down_closes = h.down_closes;
  waits = λ q. w;
}
Step-IsRelay {s} (close_server e) h =
    let to : Link = record s.server { is_open = false } in
    record {
      up_carries = h.up_carries;
      down_carries =
          Carries-ended s.server to s.client.written s.down refl refl (λ e. e) h.down_carries;
      counted = h.counted;
      up_closes = λ q. refl;
      down_closes = h.down_closes;
      waits = λ q. h.waits (rw e refl);
    }
Step-IsRelay {s} (close_client e) h =
    let to : Link = record s.client { is_open = false } in
    record {
      up_carries = Carries-ended s.client to s.server.written s.up refl refl (λ e. e) h.up_carries;
      down_carries = h.down_carries;
      counted = h.counted;
      up_closes = h.up_closes;
      down_closes = λ q. refl;
      waits = λ q. h.waits (rw e refl);
    }

started-IsRelay :
    (client server : Link) → IsFresh client → IsFresh server → IsRelay (started client server)
started-IsRelay client server c s = record {
  up_carries = rw (s.nothing_written, c.nothing_read) refl;
  down_carries = rw (c.nothing_written, s.nothing_read) refl;
  counted = refl;
  up_closes = λ q. cc;
  down_closes = λ q. cc;
  waits = λ q. cc;
}

pub Steps-IsRelay : {s t : Proxy} → IsRelay s → Steps s t → IsRelay t
Steps-IsRelay h here = h
Steps-IsRelay h (next r st) = Step-IsRelay st (Steps-IsRelay h r)

-- The proxy between two fresh connections, in every state that it reaches, in whatever order the peers and
-- the goroutines act, also where a connection breaks or is closed: in each direction what was written is
-- the beginning of what was sent, nothing of it is lost while the copying goes on, and it is all
-- that will be sent if the copying came to the end of its source; the wait group counts the goroutines
-- that have not finished; and each has closed the connection that it writes to before it leaves.
pub Reachable-IsRelay :
    (client server : Link) {s : Proxy}
    → IsFresh client
    → IsFresh server
    → Steps (started client server) s
    → IsRelay s
Reachable-IsRelay client server c d r = Steps-IsRelay (started-IsRelay client server c d) r
