-- ===== src/Lifecycle/Invariant.antt =====
-- What holds of the goroutines in every state that they can reach.
use avacadovnc.Common.{
  ℕ, suc, ◌+◌, ◌-◌, ◌≤◌, ◌≡◌, ◌≢◌, ◌⊎◌, ◌∙◌, sym, inl, inr, Bool-cases, refl, Bool, true, false,
  arith,
}
use avacadovnc.Lifecycle.{
  Thread, receiver, sender, app, Pc, running, reading, delivering, sending, closing, won, quit_sent,
  waiting, returned, finished, State, same, move, IsCounted, counts_receiver, counts_sender, Step,
  receiver_quits, receiver_goes_on, read_closed, read_fails, message_arrives, message_taken,
  delivery_quits, message_given, channel_closed, sender_quits, message_sent, write_fails,
  flush_fails, flush_closed, app_closes, win, lose, send_quit, close_link, wait_over, finish,
  app_goes_on, Steps, here, next, started, Reachable,
}

-- Between the test of `closed` and the return of `Close`.
abbrev pub inside : Pc → Bool
inside won = true
inside quit_sent = true
inside waiting = true
inside _ = false

abbrev unfinished : Pc → ℕ
unfinished finished = 0
unfinished _ = 1

pub record IsSound (s : State) : Type 0 where
  -- the wait group counts the goroutines that have not finished
  pub counted : s.wg ≡ unfinished (s.pc receiver) + unfinished (s.pc sender)
  pub none_before : s.closed ≡ false → (t : Thread) → inside (s.pc t) ≡ false
  pub one_inside : (t u : Thread) → inside (s.pc t) ≡ true → inside (s.pc u) ≡ true → t ≡ u
  pub quit_open : s.closed ≡ false → s.quit_closes ≡ 0
  pub quit_not_yet : (t : Thread) → s.pc t ≡ won → s.quit_closes ≡ 0
  pub quit_once : s.quit_closes ≤ 1

same_eq : (t u : Thread) → same t u ≡ true → t ≡ u
same_eq receiver receiver h = refl
same_eq sender sender h = refl
same_eq (app i) (app j) h = ground arith
same_eq receiver sender h = cc
same_eq receiver (app j) h = cc
same_eq sender receiver h = cc
same_eq sender (app j) h = cc
same_eq (app i) receiver h = cc
same_eq (app i) sender h = cc

-- The goroutines that have not finished.
abbrev alive : State → ℕ
alive s = unfinished (s.pc receiver) + unfinished (s.pc sender)

alive-move :
    (t : Thread) (p : Pc) (s : State)
    → unfinished p ≡ unfinished (s.pc t)
    → alive (move t p s) ≡ alive s
alive-move receiver p s h = omega arith
alive-move sender p s h = omega arith
alive-move (app i) p s h = refl

-- At a thread that moves, and at the others.
pub pc-move :
    (t u : Thread) (p : Pc) (s : State)
    → ((t ≡ u) × ((move t p s).pc u ≡ p)) ⊎ ((move t p s).pc u ≡ s.pc u)
pc-move t u p s = elim (Bool-cases (same t u)) [
  | inl e ↦ inl (same_eq t u e, rw e refl)
  | inr e ↦ inr (rw e refl)
]

-- A move to a place outside of `Close` that ends no goroutine.
module _ (t : Thread) (p : Pc) (s : State) (h : IsSound s) where
  outside-IsSound : inside p ≡ false → unfinished p ≡ unfinished (s.pc t) → IsSound (move t p s)
  outside-IsSound out alike = record {
    counted = h.counted ∙ sym (alive-move t p s alike);
    none_before = λ e u. ground (arith, pc-move t u p s, h.none_before e u);
    one_inside = λ u v in_u in_v.
        h.one_inside u v (ground (arith, pc-move t u p s)) (ground (arith, pc-move t v p s));
    quit_open = h.quit_open;
    quit_not_yet = λ u at_won. h.quit_not_yet u (ground (arith, pc-move t u p s));
    quit_once = h.quit_once;
  }

  -- A move from one place inside of `Close` to another.
  inside-IsSound : inside p ≡ true → inside (s.pc t) ≡ true → p ≢ won → IsSound (move t p s)
  inside-IsSound into from past = record {
    counted = h.counted ∙ sym (alive-move t p s (ground arith));
    none_before = λ e u. ground (arith, h.none_before e t);
    one_inside = λ u v in_u in_v.
        h.one_inside u v (ground (arith, pc-move t u p s)) (ground (arith, pc-move t v p s));
    quit_open = h.quit_open;
    quit_not_yet = λ u at_won. h.quit_not_yet u (ground (arith, pc-move t u p s));
    quit_once = h.quit_once;
  }

win-IsSound :
    (t : Thread) (s : State)
    → IsSound s
    → s.pc t ≡ closing
    → s.closed ≡ false
    → IsSound (move t won (record s { closed = true }))
win-IsSound t s h at_test fresh = record {
  counted = h.counted ∙ sym (alive-move t won s (ground arith));
  none_before = λ e. cc;
  one_inside = λ u v in_u in_v.
      ground
        (arith, pc-move t u won s, pc-move t v won s, h.none_before fresh u, h.none_before fresh v);
  quit_open = λ e. cc;
  quit_not_yet = λ u at_won. h.quit_open fresh;
  quit_once = h.quit_once;
}

send_quit-IsSound :
    (t : Thread) (s : State)
    → IsSound s
    → s.pc t ≡ won
    → IsSound (move t quit_sent (record s { quit_closes = suc s.quit_closes }))
send_quit-IsSound t s h at_won = record {
  counted = h.counted ∙ sym (alive-move t quit_sent s (ground arith));
  none_before = λ e. ground (arith, h.none_before e t);
  one_inside = λ u v in_u in_v.
      h.one_inside u v (ground (arith, pc-move t u quit_sent s))
        (ground (arith, pc-move t v quit_sent s));
  quit_open = λ e. ground (arith, h.none_before e t);
  quit_not_yet = λ u e. ground (arith, pc-move t u quit_sent s, h.one_inside t u);
  quit_once = omega (arith, h.quit_not_yet t at_won);
}

finish-IsSound :
    (t : Thread) (s : State)
    → IsSound s
    → IsCounted t
    → s.pc t ≡ returned
    → IsSound (move t finished (record s { wg = s.wg - 1 }))
finish-IsSound t s h c e = record {
  counted = counted_less t s c e h.counted;
  none_before = λ o u. ground (arith, pc-move t u finished s, h.none_before o u);
  one_inside = λ u v in_u in_v.
      h.one_inside u v (ground (arith, pc-move t u finished s))
        (ground (arith, pc-move t v finished s));
  quit_open = h.quit_open;
  quit_not_yet = λ u at_won. h.quit_not_yet u (ground (arith, pc-move t u finished s));
  quit_once = h.quit_once;
}
  where
    counted_less :
        (t : Thread) (s : State)
        → IsCounted t
        → s.pc t ≡ returned
        → s.wg ≡ alive s
        → s.wg - 1 ≡ alive (move t finished s)
    counted_less receiver s counts_receiver e w = ground arith
    counted_less sender s counts_sender e w = ground arith
    counted_less (app i) s c e w = elim c [ ]

link_down : (s : State) → IsSound s → IsSound (record s { link_up = false })
link_down s h = record {
  counted = h.counted;
  none_before = h.none_before;
  one_inside = h.one_inside;
  quit_open = h.quit_open;
  quit_not_yet = h.quit_not_yet;
  quit_once = h.quit_once;
}

Step-IsSound : {s t : State} → Step s t → IsSound s → IsSound t
Step-IsSound {s} (receiver_quits e q) h = outside-IsSound receiver closing s h refl (ground arith)
Step-IsSound {s} (receiver_goes_on e q) h = outside-IsSound receiver reading s h refl (ground arith)
Step-IsSound {s} (read_closed e l) h = outside-IsSound receiver closing s h refl (ground arith)
Step-IsSound {s} (read_fails e) h = outside-IsSound receiver closing s h refl (ground arith)
Step-IsSound {s} (message_arrives e) h = outside-IsSound receiver delivering s h refl (ground arith)
Step-IsSound {s} (message_taken e) h = outside-IsSound receiver running s h refl (ground arith)
Step-IsSound {s} (delivery_quits e q) h = outside-IsSound receiver closing s h refl (ground arith)
Step-IsSound {s} (message_given e) h = outside-IsSound sender sending s h refl (ground arith)
Step-IsSound {s} (channel_closed e) h = outside-IsSound sender returned s h refl (ground arith)
Step-IsSound {s} (sender_quits e q) h = outside-IsSound sender returned s h refl (ground arith)
Step-IsSound {s} (message_sent e l) h = outside-IsSound sender running s h refl (ground arith)
Step-IsSound {s} (write_fails e) h = outside-IsSound sender closing s h refl (ground arith)
Step-IsSound {s} (flush_fails e) h = outside-IsSound sender returned s h refl (ground arith)
Step-IsSound {s} (flush_closed e l) h = outside-IsSound sender returned s h refl (ground arith)
Step-IsSound {s} (app_closes i e) h = outside-IsSound (app i) closing s h refl (ground arith)
Step-IsSound {s} (win t e o) h = win-IsSound t s h e o
Step-IsSound {s} (lose t e o) h = outside-IsSound t returned s h refl (ground arith)
Step-IsSound {s} (send_quit t e) h = send_quit-IsSound t s h e
Step-IsSound {s} (close_link t e) h =
    inside-IsSound t waiting (record s { link_up = false }) (link_down s h) refl (ground arith)
      (λ q. cc)
Step-IsSound {s} (wait_over t e w) h = outside-IsSound t returned s h refl (ground arith)
Step-IsSound {s} (finish t c e) h = finish-IsSound t s h c e
Step-IsSound {s} (app_goes_on i e) h = outside-IsSound (app i) running s h refl (ground arith)

started-IsSound : IsSound started
started-IsSound = record {
  counted = refl;
  none_before = λ e t. refl;
  one_inside = λ t u a b. cc;
  quit_open = λ e. refl;
  quit_not_yet = λ t e. cc;
  quit_once = omega arith;
}

pub Steps-IsSound : {s t : State} → IsSound s → Steps s t → IsSound t
Steps-IsSound h here = h
Steps-IsSound h (next r st) = Step-IsSound st (Steps-IsSound h r)

-- In every state that the goroutines reach, in whatever order they run: the wait group is the number
-- of the two goroutines that have not finished, so that no `wg.Done()` takes it below zero; at most
-- one goroutine is between the test of `closed` and the return of its `Close`, and none before
-- `closed` is set; and the quit channel was closed at most once, and not before `closed` was set.
pub Reachable-IsSound : {s : State} → Reachable s → IsSound s
Reachable-IsSound r = Steps-IsSound started-IsSound r
