-- ===== src/Lifecycle/Deadlock.antt =====
-- A goroutine of the connection that runs the body of `Close` waits for itself.
use avacadovnc.Common.{◌≤◌, ◌≡◌, refl, true, false, arith}
use avacadovnc.Lifecycle.{
  Thread, receiver, sender, app, Pc, running, reading, delivering, sending, closing, won, quit_sent,
  waiting, returned, finished, State, move, IsCounted, Step, receiver_quits, receiver_goes_on,
  read_closed, read_fails, message_arrives, message_taken, delivery_quits, message_given,
  channel_closed, sender_quits, message_sent, write_fails, flush_fails, flush_closed, app_closes,
  win, lose, send_quit, close_link, wait_over, finish, app_goes_on, Steps, here, next, Reachable,
}
use avacadovnc.Lifecycle.Invariant.{IsSound, inside, pc-move, Steps-IsSound, Reachable-IsSound}

-- A goroutine that the wait group counts and that is inside of `Close` keeps the count above zero.
wg-inside : (g : Thread) (s : State) → IsCounted g → IsSound s → inside (s.pc g) ≡ true → 1 ≤ s.wg
wg-inside receiver s c h i = ground (arith, h.counted)
wg-inside sender s c h i = ground (arith, h.counted)
wg-inside (app k) s c h i = elim c [ ]

-- A move of another, or of one that is not inside of `Close`.
module _ (g : Thread) (t : Thread) (p : Pc) (s : State) (i : inside (s.pc g) ≡ true) where
  other_move : inside (s.pc t) ≡ false → inside ((move t p s).pc g) ≡ true
  other_move out = ground (arith, pc-move t g p s)

  inner_move : inside p ≡ true → inside ((move t p s).pc g) ≡ true
  inner_move into = ground (arith, pc-move t g p s)

Step-inside :
    {s t : State} (g : Thread)
    → IsCounted g
    → IsSound s
    → inside (s.pc g) ≡ true
    → Step s t
    → inside (t.pc g) ≡ true
Step-inside {s} g c h i (receiver_quits e q) = other_move g receiver closing s i (ground arith)
Step-inside {s} g c h i (receiver_goes_on e q) = other_move g receiver reading s i (ground arith)
Step-inside {s} g c h i (read_closed e l) = other_move g receiver closing s i (ground arith)
Step-inside {s} g c h i (read_fails e) = other_move g receiver closing s i (ground arith)
Step-inside {s} g c h i (message_arrives e) = other_move g receiver delivering s i (ground arith)
Step-inside {s} g c h i (message_taken e) = other_move g receiver running s i (ground arith)
Step-inside {s} g c h i (delivery_quits e q) = other_move g receiver closing s i (ground arith)
Step-inside {s} g c h i (message_given e) = other_move g sender sending s i (ground arith)
Step-inside {s} g c h i (channel_closed e) = other_move g sender returned s i (ground arith)
Step-inside {s} g c h i (sender_quits e q) = other_move g sender returned s i (ground arith)
Step-inside {s} g c h i (message_sent e l) = other_move g sender running s i (ground arith)
Step-inside {s} g c h i (write_fails e) = other_move g sender closing s i (ground arith)
Step-inside {s} g c h i (flush_fails e) = other_move g sender returned s i (ground arith)
Step-inside {s} g c h i (flush_closed e l) = other_move g sender returned s i (ground arith)
Step-inside {s} g c h i (app_closes k e) = other_move g (app k) closing s i (ground arith)
Step-inside {s} g c h i (win t e o) = inner_move g t won s i refl
Step-inside {s} g c h i (lose t e o) = other_move g t returned s i (ground arith)
Step-inside {s} g c h i (send_quit t e) = inner_move g t quit_sent s i refl
Step-inside {s} g c h i (close_link t e) = inner_move g t waiting s i refl
Step-inside {s} g c h i (wait_over t e w) = absurd (omega (arith, wg-inside g s c h i))
Step-inside {s} g c h i (finish t d e) = other_move g t finished s i (ground arith)
Step-inside {s} g c h i (app_goes_on k e) = other_move g (app k) running s i (ground arith)

Steps-inside :
    {s t : State} (g : Thread)
    → IsCounted g
    → IsSound s
    → inside (s.pc g) ≡ true
    → Steps s t
    → inside (t.pc g) ≡ true
Steps-inside g c h i here = i
Steps-inside g c h i (next r st) = Step-inside g c (Steps-IsSound h r) (Steps-inside g c h i r) st

-- Once the receiving or the sending goroutine has passed the test of `closed` in a `Close` of its own,
-- which is the case when it ends before anyone else has closed the connection: whatever runs after
-- that, this `Close` never returns, the goroutine never finishes, and the wait group stays above
-- zero, so that no `Wait` returns either.
pub own_close_hangs :
    {s t : State} (g : Thread)
    → IsCounted g
    → Reachable s
    → inside (s.pc g) ≡ true
    → Steps s t
    → (inside (t.pc g) ≡ true) × (1 ≤ t.wg)
own_close_hangs {t} g c r i later =
    let sound = Reachable-IsSound r in
    let still = Steps-inside g c sound i later in
    (still, wg-inside g t c (Steps-IsSound sound later) still)
