-- ===== src/Lifecycle/Shutdown.antt =====
-- A `Close` by the application runs to its end, without the help of the server or of the application.
use avacadovnc.Common.{
  ℕ, suc, ◌-◌, ◌≡◌, ◌≢◌, refl, ◌∙◌, sym, ap, true, false, arith, Bool-cases, inl, inr,
}
use avacadovnc.Lifecycle.{
  Thread, receiver, sender, app, Pc, running, reading, delivering, sending, closing, won, quit_sent,
  waiting, returned, finished, State, same, move, IsCounted, counts_receiver, counts_sender, Step,
  receiver_quits, read_closed, delivery_quits, sender_quits, flush_closed, lose, send_quit,
  close_link, wait_over, finish, Steps, here, next, Runs, no_run, run, is_own, Reachable,
}
use avacadovnc.Lifecycle.Places.{AllFit, Reachable-AllFit}
use avacadovnc.Lifecycle.Invariant.{IsSound, inside, Steps-IsSound, Reachable-IsSound}

Runs-trans : {s t u : State} → Runs s t → Runs t u → Runs s u
Runs-trans r no_run = r
Runs-trans r (run q st own) = run (Runs-trans r q) st own

Runs-Steps : {s t : State} → Runs s t → Steps s t
Runs-Steps no_run = here
Runs-Steps (run r st own) = next (Runs-Steps r) st

-- The connection is closed, and every goroutine can see it.
record IsShut (s : State) : Type 0 where
  marked : s.closed ≡ true
  signal : s.quit_closes ≡ 1
  down : s.link_up ≡ false

-- The goroutine runs, and no other does, to a state where it stands at `p` and the connection is shut.
record Gets (g : Thread) (p : Pc) (s : State) : Type 0 where
  last : State
  runs : Runs s last
  arrives : last.pc g ≡ p
  shut : IsShut last
  others : (u : Thread) → same g u ≡ false → last.pc u ≡ s.pc u

stay : (g : Thread) (p : Pc) (s : State) → s.pc g ≡ p → IsShut s → Gets g p s
stay g p s e c = record { last = s; runs = no_run; arrives = e; shut = c; others = λ u d. refl }

-- A step of the goroutine first.
first :
    (g : Thread) (p : Pc) (s t : State) (st : Step s t)
    → is_own st ≡ true
    → ((u : Thread) → same g u ≡ false → t.pc u ≡ s.pc u)
    → Gets g p t
    → Gets g p s
first g p s t st own alone rest = record {
  last = rest.last;
  runs = Runs-trans (run no_run st own) rest.runs;
  arrives = rest.arrives;
  shut = rest.shut;
  others = λ u d. rest.others u d ∙ alone u d;
}

same_refl : (g : Thread) → same g g ≡ true
same_refl receiver = refl
same_refl sender = refl
same_refl (app i) = ground arith

at_move : (g : Thread) (p : Pc) (s : State) → (move g p s).pc g ≡ p
at_move g p s = rw (same_refl g) refl

off_move : (g u : Thread) (p : Pc) (s : State) → same g u ≡ false → (move g p s).pc u ≡ s.pc u
off_move g u p s d = rw d refl

move-IsShut : (g : Thread) (p : Pc) (s : State) → IsShut s → IsShut (move g p s)
move-IsShut g p s h = record { marked = h.marked; signal = h.signal; down = h.down }

module _ (g : Thread) (p : Pc) (s : State) (h : IsShut s) where
  -- A step of the goroutine to another place first.
  by_step :
      (q : Pc) (st : Step s (move g q s)) → is_own st ≡ true → Gets g p (move g q s) → Gets g p s
  by_step q st own rest = first g p s (move g q s) st own (λ u d. off_move g u q s d) rest

from_returned :
    (g : Thread) (s : State) → IsCounted g → IsShut s → s.pc g ≡ returned → Gets g finished s
from_returned g s c h e =
    let t : State = record s { wg = s.wg - 1 } in
    first g finished s (move g finished t) (finish g c e) refl (λ u d. off_move g u finished t d)
      (stay g finished (move g finished t) (at_move g finished t)
        (record { marked = h.marked; signal = h.signal; down = h.down }))

from_closing :
    (g : Thread) (s : State) → IsCounted g → IsShut s → s.pc g ≡ closing → Gets g finished s
from_closing g s c h e =
    by_step g finished s h returned (lose g e h.marked) refl
      (from_returned g (move g returned s) c (move-IsShut g returned s h) (at_move g returned s))

module _ (s : State) (h : IsShut s) where
  -- The receiver sees the signal or the closed connection, wherever it stands.
  receiver_ends :
      (st : Step s (move receiver closing s)) → is_own st ≡ true → Gets receiver finished s
  receiver_ends st own = by_step receiver finished s h closing st own (
      from_closing receiver (move receiver closing s) counts_receiver
        (move-IsShut receiver closing s h) refl)

  sender_ends : (st : Step s (move sender returned s)) → is_own st ≡ true → Gets sender finished s
  sender_ends st own = by_step sender finished s h returned st own (
      from_returned sender (move sender returned s) counts_sender (move-IsShut sender returned s h)
        refl)

  receiver_finishes :
      (p : Pc) → s.pc receiver ≡ p → inside p ≡ false → p ≢ sending → Gets receiver finished s
  receiver_finishes running e i n = receiver_ends (receiver_quits e h.signal) refl
  receiver_finishes reading e i n = receiver_ends (read_closed e h.down) refl
  receiver_finishes delivering e i n = receiver_ends (delivery_quits e h.signal) refl
  receiver_finishes sending e i n = absurd (n refl)
  receiver_finishes closing e i n = from_closing receiver s counts_receiver h e
  receiver_finishes returned e i n = from_returned receiver s counts_receiver h e
  receiver_finishes finished e i n = stay receiver finished s e h
  receiver_finishes won e i n = cc
  receiver_finishes quit_sent e i n = cc
  receiver_finishes waiting e i n = cc

  sender_finishes :
      (p : Pc)
      → s.pc sender ≡ p
      → inside p ≡ false
      → (p ≢ reading) × (p ≢ delivering)
      → Gets sender finished s
  sender_finishes running e i n = sender_ends (sender_quits e h.signal) refl
  sender_finishes sending e i n = sender_ends (flush_closed e h.down) refl
  sender_finishes reading e i n = absurd (n.0 refl)
  sender_finishes delivering e i n = absurd (n.1 refl)
  sender_finishes closing e i n = from_closing sender s counts_sender h e
  sender_finishes returned e i n = from_returned sender s counts_sender h e
  sender_finishes finished e i n = stay sender finished s e h
  sender_finishes won e i n = cc
  sender_finishes quit_sent e i n = cc
  sender_finishes waiting e i n = cc

module _ (g : Thread) where
  from_quit_sent :
      (s : State) → s.closed ≡ true → s.quit_closes ≡ 1 → s.pc g ≡ quit_sent → Gets g waiting s
  from_quit_sent s o q e =
      let t : State = record s { link_up = false } in
      first g waiting s (move g waiting t) (close_link g e) refl (λ u d. off_move g u waiting t d)
        (stay g waiting (move g waiting t) (at_move g waiting t)
          (record { marked = o; signal = q; down = refl }))

  -- Inside of `Close` a goroutine comes to its `Wait`.
  waits :
      (p : Pc) (s : State)
      → IsSound s
      → AllFit s
      → s.closed ≡ true
      → s.pc g ≡ p
      → inside p ≡ true
      → Gets g waiting s
  waits won s h f o e i =
      let t : State = record s { quit_closes = suc s.quit_closes } in
      let once : suc s.quit_closes ≡ 1 = omega (arith, h.quit_not_yet g e) in
      first g waiting s (move g quit_sent t) (send_quit g e) refl
        (λ u d. off_move g u quit_sent t d)
        (from_quit_sent (move g quit_sent t) o once (at_move g quit_sent t))
  waits quit_sent s h f o e i = from_quit_sent s o (ground (arith, f g)) e
  waits waiting s h f o e i =
      stay g waiting s e
        (record { marked = o; signal = ground (arith, f g); down = ground (arith, f g) })
  waits running s h f o e i = cc
  waits reading s h f o e i = cc
  waits delivering s h f o e i = cc
  waits sending s h f o e i = cc
  waits closing s h f o e i = cc
  waits returned s h f o e i = cc
  waits finished s h f o e i = cc

true-false : ¬ (true ≡ false)
true-false p = cc

not_same : (i : ℕ) (g : Thread) → g ≡ app i → ¬ (same g (app i) ≡ false)
not_same i g e d =
    true-false (sym (same_refl (app i)) ∙ ap (λ (t : Thread). same t (app i)) (sym e) ∙ d)

-- While a goroutine waits, no other is inside of `Close`.
alone :
    (i : ℕ) (t : State)
    → IsSound t
    → (g : Thread) → t.pc (app i) ≡ waiting
    → same g (app i) ≡ false
    → inside (t.pc g) ≡ false
alone i t h g w d = elim (Bool-cases (inside (t.pc g))) [
  | inl inner ↦ absurd (not_same i g (h.one_inside g (app i) inner (rw w refl)) d)
  | inr out ↦ out
]

closed_inside : (t : Thread) (s : State) → IsSound s → inside (s.pc t) ≡ true → s.closed ≡ true
closed_inside t s h i = elim (Bool-cases s.closed) [
  | inl yes_closed ↦ yes_closed
  | inr not_closed ↦ absurd (true-false (sym i ∙ h.none_before not_closed t))
]

pub record IsShutDown (i : ℕ) (s : State) : Type 0 where
  pub returns : s.pc (app i) ≡ returned
  pub receiver_done : s.pc receiver ≡ finished
  pub sender_done : s.pc sender ≡ finished

-- In every reachable state in which a goroutine of the application is between the test of `closed`
-- and the return of its `Close`: the goroutines of the connection and this one can go on, with
-- no message, no end of the stream and no failure from the server or the network and no other step of the application, to a
-- state where this `Close` has returned and both goroutines of the connection have finished.
pub app_close_completes :
    (i : ℕ) (s : State)
    → Reachable s
    → inside (s.pc (app i)) ≡ true
    → (t : State) × Runs s t × IsShutDown i t
app_close_completes i s r inner =
    let sound = Reachable-IsSound r in
    let a =
      waits (app i) (s.pc (app i)) s sound (Reachable-AllFit r)
        (closed_inside (app i) s sound inner) refl inner in
    let sound_a = Steps-IsSound sound (Runs-Steps a.runs) in
    let fit = Reachable-AllFit r in
    let b =
      receiver_finishes a.last a.shut (a.last.pc receiver) refl
        (alone i a.last sound_a receiver a.arrives refl)
        (λ e. ground (arith, fit receiver, a.others receiver refl)) in
    let at_b = b.others (app i) refl ∙ a.arrives in
    let sound_b = Steps-IsSound sound_a (Runs-Steps b.runs) in
    let as_before = b.others sender refl ∙ a.others sender refl in
    let d =
      sender_finishes b.last b.shut (b.last.pc sender) refl
        (alone i b.last sound_b sender at_b refl)
        (λ e. ground (arith, fit sender, as_before), λ e. ground (arith, fit sender, as_before)) in
    let at_d = d.others (app i) refl ∙ at_b in
    let receiver_over = d.others receiver refl ∙ b.arrives in
    let counted = (Steps-IsSound sound_b (Runs-Steps d.runs)).counted in
    let all = Runs-trans a.runs (Runs-trans b.runs d.runs) in
    (
      move (app i) returned d.last,
      run all (wait_over (app i) at_d (ground (arith, counted, receiver_over, d.arrives))) refl,
      record {
        returns = at_move (app i) returned d.last;
        receiver_done = receiver_over;
        sender_done = d.arrives;
      },
    )
