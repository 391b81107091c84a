-- ===== src/Serving/Stopping.antt =====
-- How `Start` and `Stop` meet.
use avacadovnc.Common.{◌≡◌, ◌≢◌, ◌⊎◌, inl, inr, refl, ◌∙◌, arith, true}
use avacadovnc.Serving.{
  no_listener, shut, before, accepting, returned_nil, outside, signalled, Server, new_server, Step,
  listen_fails, listens, accepts, accept_fails, accept_ends, stop_signals, stop_again, stop_closes,
  Steps, here, next,
}

-- What holds of the server in every state that it reaches.
pub record IsServer (s : Server) : Type 0 where
  -- `Start` returns nil only after `Stop` has given the signal
  pub nil_stopped : s.start ≡ returned_nil → s.quit ≡ true
  pub signal_quit : s.stop ≢ outside → s.quit ≡ true
  pub shut_quit : s.listener ≡ shut → s.quit ≡ true
  -- there is no listener before `Start` listens, and one while it accepts
  pub none_before : s.start ≡ before → s.listener ≡ no_listener
  pub some_after : s.start ≡ accepting → s.listener ≢ no_listener

Step-IsServer : {s t : Server} → Step s t → IsServer s → IsServer t
Step-IsServer (listen_fails e) h = record {
  nil_stopped = λ e. cc;
  signal_quit = h.signal_quit;
  shut_quit = h.shut_quit;
  none_before = λ e. cc;
  some_after = λ e. cc;
}
Step-IsServer (listens e) h = record {
  nil_stopped = λ e. cc;
  signal_quit = h.signal_quit;
  shut_quit = λ e. cc;
  none_before = λ e. cc;
  some_after = λ e f. cc;
}
Step-IsServer (accepts e l) h = record {
  nil_stopped = h.nil_stopped;
  signal_quit = h.signal_quit;
  shut_quit = h.shut_quit;
  none_before = h.none_before;
  some_after = h.some_after;
}
Step-IsServer (accept_fails e q) h = record {
  nil_stopped = λ e. cc;
  signal_quit = h.signal_quit;
  shut_quit = h.shut_quit;
  none_before = λ e. cc;
  some_after = λ e. cc;
}
Step-IsServer (accept_ends e q) h = record {
  nil_stopped = λ e. q;
  signal_quit = h.signal_quit;
  shut_quit = h.shut_quit;
  none_before = λ e. cc;
  some_after = λ e. cc;
}
Step-IsServer (stop_signals e q) h = record {
  nil_stopped = λ e. refl;
  signal_quit = λ e. refl;
  shut_quit = λ e. refl;
  none_before = h.none_before;
  some_after = h.some_after;
}
Step-IsServer (stop_again e q) h = record {
  nil_stopped = h.nil_stopped;
  signal_quit = λ e. q;
  shut_quit = h.shut_quit;
  none_before = h.none_before;
  some_after = h.some_after;
}
Step-IsServer {s} (stop_closes e) h =
    let quit : s.quit ≡ true = h.signal_quit (λ f. cc) in
    record {
      nil_stopped = λ e. quit;
      signal_quit = λ e. quit;
      shut_quit = λ e. quit;
      none_before = λ b. ground (arith, h.none_before b);
      some_after = λ a. ground (arith, h.some_after a);
    }

new_server-IsServer : IsServer new_server
new_server-IsServer = record {
  nil_stopped = λ e. cc;
  signal_quit = λ e. ground arith;
  shut_quit = λ e. cc;
  none_before = λ e. refl;
  some_after = λ e. cc;
}

Steps-IsServer : {s t : Server} → IsServer s → Steps s t → IsServer t
Steps-IsServer h here = h
Steps-IsServer h (next r st) = Step-IsServer st (Steps-IsServer h r)

-- In every state that the server reaches: `Start` has returned nil, the listener is closed, or `Stop` runs
-- or has panicked, only if the quit channel is closed; there is no listener before `Start` listens,
-- and there is one while it accepts.
pub Reachable-IsServer : {s : Server} → Steps new_server s → IsServer s
Reachable-IsServer r = Steps-IsServer new_server-IsServer r

Step-shut :
    {s t : Server}
    → Step s t
    → IsServer s
    → s.listener ≡ shut
    → (t.listener ≡ shut)
      × (t.clients ≡ s.clients)
      × (t.start ≡ s.start ⊎ ((s.start ≡ accepting) × (t.start ≡ returned_nil)))
Step-shut (listen_fails e) h l = cc (h.none_before e)
Step-shut (listens e) h l = cc (h.none_before e)
Step-shut (accepts e o) h l = cc
Step-shut (accept_fails e q) h l = cc (h.shut_quit l)
Step-shut (accept_ends e q) h l = (l, refl, inr (e, refl))
Step-shut (stop_signals e q) h l = (l, refl, inl refl)
Step-shut (stop_again e q) h l = (l, refl, inl refl)
Step-shut (stop_closes e) h l = ground arith

-- Where `Start` stands once the listener is closed.
abbrev pub Ending : Server → Type 0
Ending t =
    (t.start ≡ returned_nil) ⊎ ((t.start ≡ accepting) × Step t (record t { start = returned_nil }))

Ending-on :
    {t u : Server}
    → IsServer u
    → u.listener ≡ shut
    → Ending t
    → (u.start ≡ t.start ⊎ ((t.start ≡ accepting) × (u.start ≡ returned_nil)))
    → Ending u
Ending-on h l e (inr (a, nil)) = inl nil
Ending-on h l (inl nil) (inl same) = inl (same ∙ nil)
Ending-on h l (inr (a, st)) (inl same) = inr (same ∙ a, accept_ends (same ∙ a) (h.shut_quit l))

shut_onward :
    {s t : Server}
    → IsServer s
    → s.listener ≡ shut
    → s.start ≡ accepting
    → Steps s t
    → (t.listener ≡ shut) × (t.clients ≡ s.clients) × Ending t
shut_onward h l a here = (l, refl, inr (a, accept_ends a (h.shut_quit l)))
shut_onward h l a (next rs st) =
    let (still_shut, no_more, ending) = shut_onward h l a rs in
    let sound = Steps-IsServer h rs in
    let (l', c', moved) = Step-shut st sound still_shut in
    (l', c' ∙ no_more, Ending-on (Step-IsServer st sound) l' ending moved)

-- Once `Stop` has closed the listener: it stays closed, no client is accepted any more, and
-- `Start` does not return an error: it stays where it is or goes from its loop to its return of nil, which
-- is the only step it has left, and it can take it.
pub after_shut :
    {s t : Server}
    → Steps new_server s
    → s.listener ≡ shut
    → s.start ≡ accepting
    → Steps s t
    → (t.listener ≡ shut) × (t.clients ≡ s.clients) × Ending t
after_shut r l a rs = shut_onward (Reachable-IsServer r) l a rs

-- `Stop` that has returned before `Start` listens, or that finds no listener to close, has no effect on it:
-- in every later state the listener is not closed, and no call of `Stop` closes it any more.
pub stop_early :
    {s t : Server}
    → s.quit ≡ true
    → s.stop ≢ signalled
    → s.listener ≢ shut
    → Steps s t
    → (t.quit ≡ true) × (t.stop ≢ signalled) × (t.listener ≢ shut)
stop_early q n l here = (q, n, l)
stop_early q n l (next rs st) = let (q', n', l') = stop_early q n l rs in still st q' n' l'
  where
    still :
        {s t : Server}
        → Step s t
        → s.quit ≡ true
        → s.stop ≢ signalled
        → s.listener ≢ shut
        → (t.quit ≡ true) × (t.stop ≢ signalled) × (t.listener ≢ shut)
    still (listen_fails e) q n l = (q, n, l)
    still (listens e) q n l = (q, n, λ f. cc)
    still (accepts e o) q n l = (q, n, l)
    still (accept_fails e o) q n l = (q, n, l)
    still (accept_ends e o) q n l = (q, n, l)
    still (stop_signals e o) q n l = cc
    still (stop_again e o) q n l = (q, λ f. cc, l)
    still (stop_closes e) q n l = elim (n e) [ ]
