-- ===== src/Lifecycle/Places.antt =====
-- Where the goroutines stand while the connection is being closed.
use avacadovnc.Common.{ℕ, suc, ◌-◌, ◌≡◌, refl, Bool, true, false, inl, inr, ◌==◌, ◌&&◌, not, arith}
use avacadovnc.Lifecycle.{
  Thread, receiver, sender, app, Pc, running, reading, delivering, sending, closing, won, quit_sent,
  waiting, returned, finished, State, same, move, Step, receiver_quits, receiver_goes_on,
  read_closed, read_fails, message_arrives, message_taken, delivery_quits, message_given,
  channel_closed, sender_quits, message_sent, write_fails, flush_fails, flush_closed, app_closes,
  win, lose, send_quit, close_link, wait_over, finish, app_goes_on, here, next, Reachable,
}
use avacadovnc.Lifecycle.Invariant.{IsSound, pc-move, Reachable-IsSound}

-- A goroutine stands only in its own loop; past `close(c.quit)` the signal is out, and past
-- `c.c.Close()` the connection is closed.
abbrev fits : Thread → Pc → ℕ → Bool → Bool
fits t reading quit link = same t receiver
fits t delivering quit link = same t receiver
fits t sending quit link = same t sender
fits t quit_sent quit link = quit == 1
fits t waiting quit link = (quit == 1) && not link
fits t _ quit link = true

abbrev pub AllFit : State → Type 0
AllFit s = (t : Thread) → fits t (s.pc t) s.quit_closes s.link_up ≡ true

move-AllFit :
    (t : Thread) (p : Pc) (s : State)
    → AllFit s
    → fits t p s.quit_closes s.link_up ≡ true
    → AllFit (move t p s)
move-AllFit t p s h f u = elim (pc-move t u p s) [
  | inl (e, now) ↦ rw (now, ← e) f
  | inr as_before ↦ rw as_before (h u)
]

fits-signal :
    (t : Thread) (p : Pc) (quit : ℕ) (link : Bool)
    → quit ≡ 0
    → fits t p quit link ≡ true
    → fits t p (suc quit) link ≡ true
fits-signal t running quit link z h = refl
fits-signal t reading quit link z h = h
fits-signal t delivering quit link z h = h
fits-signal t sending quit link z h = h
fits-signal t closing quit link z h = refl
fits-signal t won quit link z h = refl
fits-signal t quit_sent quit link z h = ground arith
fits-signal t waiting quit link z h = ground arith
fits-signal t returned quit link z h = refl
fits-signal t finished quit link z h = refl

fits-closed :
    (t : Thread) (p : Pc) (quit : ℕ) (link : Bool)
    → fits t p quit link ≡ true
    → fits t p quit false ≡ true
fits-closed t running quit link h = refl
fits-closed t reading quit link h = h
fits-closed t delivering quit link h = h
fits-closed t sending quit link h = h
fits-closed t closing quit link h = refl
fits-closed t won quit link h = refl
fits-closed t quit_sent quit link h = h
fits-closed t waiting quit link h = ground arith
fits-closed t returned quit link h = refl
fits-closed t finished quit link h = refl

send_quit-AllFit :
    (t : Thread) (s : State)
    → AllFit s
    → s.quit_closes ≡ 0
    → AllFit (move t quit_sent (record s { quit_closes = suc s.quit_closes }))
send_quit-AllFit t s h z =
    let told : State = record s { quit_closes = suc s.quit_closes } in
    let all : AllFit told = λ u. fits-signal u (s.pc u) s.quit_closes s.link_up z (h u) in
    move-AllFit t quit_sent told all (ground (arith, z))

close_link-AllFit :
    (t : Thread) (s : State)
    → AllFit s
    → s.pc t ≡ quit_sent
    → AllFit (move t waiting (record s { link_up = false }))
close_link-AllFit t s h e =
    let shut : State = record s { link_up = false } in
    let all : AllFit shut = λ u. fits-closed u (s.pc u) s.quit_closes s.link_up (h u) in
    move-AllFit t waiting shut all (ground (arith, h t))

Step-AllFit : {s t : State} → Step s t → IsSound s → AllFit s → AllFit t
Step-AllFit {s} (receiver_quits e q) i h = move-AllFit receiver closing s h refl
Step-AllFit {s} (receiver_goes_on e q) i h = move-AllFit receiver reading s h refl
Step-AllFit {s} (read_closed e l) i h = move-AllFit receiver closing s h refl
Step-AllFit {s} (read_fails e) i h = move-AllFit receiver closing s h refl
Step-AllFit {s} (message_arrives e) i h = move-AllFit receiver delivering s h refl
Step-AllFit {s} (message_taken e) i h = move-AllFit receiver running s h refl
Step-AllFit {s} (delivery_quits e q) i h = move-AllFit receiver closing s h refl
Step-AllFit {s} (message_given e) i h = move-AllFit sender sending s h refl
Step-AllFit {s} (channel_closed e) i h = move-AllFit sender returned s h refl
Step-AllFit {s} (sender_quits e q) i h = move-AllFit sender returned s h refl
Step-AllFit {s} (message_sent e l) i h = move-AllFit sender running s h refl
Step-AllFit {s} (write_fails e) i h = move-AllFit sender closing s h refl
Step-AllFit {s} (flush_fails e) i h = move-AllFit sender returned s h refl
Step-AllFit {s} (flush_closed e l) i h = move-AllFit sender returned s h refl
Step-AllFit {s} (app_closes k e) i h = move-AllFit (app k) closing s h refl
Step-AllFit {s} (win t e o) i h = move-AllFit t won (record s { closed = true }) h refl
Step-AllFit {s} (lose t e o) i h = move-AllFit t returned s h refl
Step-AllFit {s} (send_quit t e) i h = send_quit-AllFit t s h (i.quit_not_yet t e)
Step-AllFit {s} (close_link t e) i h = close_link-AllFit t s h e
Step-AllFit {s} (wait_over t e w) i h = move-AllFit t returned s h refl
Step-AllFit {s} (finish t c e) i h = move-AllFit t finished (record s { wg = s.wg - 1 }) h refl
Step-AllFit {s} (app_goes_on k e) i h = move-AllFit (app k) running s h refl

pub Reachable-AllFit : {s : State} → Reachable s → AllFit s
Reachable-AllFit here t = refl
Reachable-AllFit (next r st) t = Step-AllFit st (Reachable-IsSound r) (Reachable-AllFit r) t
