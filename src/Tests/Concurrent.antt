-- ===== src/Tests/Concurrent.antt =====
-- The goroutines of a client connection and of the server at concrete runs.
use avacadovnc.Common.{◌≡◌, ◌≤◌, refl, true}
use avacadovnc.Lifecycle.{
  receiver, app, won, quit_sent, closing, State, move, reading, Runs, counts_receiver,
  receiver_goes_on, read_fails, app_closes, win, send_quit, here, next, started, Reachable,
}
use avacadovnc.Lifecycle.Invariant.{inside, IsSound, Reachable-IsSound}
use avacadovnc.Lifecycle.Deadlock.{own_close_hangs}
use avacadovnc.Lifecycle.Shutdown.{IsShutDown, app_close_completes}

abbrev receiver_closing : State
receiver_closing = move receiver closing (move receiver reading started)

abbrev receiver_won : State
receiver_won = move receiver won (record receiver_closing { closed = true })

abbrev receiver_quit : State
receiver_quit = move receiver quit_sent (record receiver_won { quit_closes = 1 })

receiver_won_reached : Reachable receiver_won
receiver_won_reached =
    next (next (next here (receiver_goes_on refl refl)) (read_fails refl)) (win receiver refl refl)

Reachable-IsSound_example : IsSound receiver_quit
Reachable-IsSound_example = Reachable-IsSound (next receiver_won_reached (send_quit receiver refl))

own_close_hangs_example : (inside (receiver_quit.pc receiver) ≡ true) × (1 ≤ receiver_quit.wg)
own_close_hangs_example =
    own_close_hangs receiver counts_receiver receiver_won_reached refl
      (next here (send_quit receiver refl))

-- The receiver waits for the server when the application calls `Close`.
abbrev app_won : State
app_won =
    move (app 0) won
      (record (move (app 0) closing (move receiver reading started)) { closed = true })

app_close_completes_example : (t : State) × Runs app_won t × IsShutDown 0 t
app_close_completes_example =
    app_close_completes 0 app_won
      (next (next (next here (receiver_goes_on refl refl)) (app_closes 0 refl))
        (win (app 0) refl refl))
      refl
