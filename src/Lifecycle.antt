-- ===== src/Lifecycle.antt =====
-- The goroutines of a client connection (client.go): `handleIncomingMessages`,
-- `handleOutgoingMessages`, and the application's calls of `Close`, interleaved in any order. What
-- they read and write is left open. Each step is one that the goroutine takes by itself, or one that needs
-- the server, the network or the application: `is_own` tells them apart.
pub mod Invariant
pub mod Places
pub mod Deadlock
pub mod Shutdown
use avacadovnc.Common.{ℕ, zero, suc, ◌+◌, ◌-◌, ◌≡◌, Bool, true, false, ◌==◌, if◌then◌else◌}

-- The receiving and the sending goroutine, and any number of the application's.
pub data Thread : Type 0 where
  receiver sender : Thread
  app : ℕ → Thread

-- Where a goroutine stands.
pub data Pc : Type 0 where
  -- at the top of its loop, before it looks at the quit channel, or in the application's own code
  running : Pc
  -- the receiver, past its look at the quit channel: it reads a message
  reading : Pc
  -- the receiver, with a message for the application
  delivering : Pc
  -- the sender, with a message of the application
  sending : Pc
  -- at the beginning of `Close`
  closing : Pc
  -- `closed` is set; before `close(c.quit)`
  won : Pc
  -- before `c.c.Close()`
  quit_sent : Pc
  -- at `c.wg.Wait()`
  waiting : Pc
  -- after `Close`, or past it; before the deferred `wg.Done()`
  returned : Pc
  -- after `wg.Done()`
  finished : Pc

pub record State : Type 0 where
  pub closed : Bool
  -- how often `close(c.quit)` ran: a second time panics
  pub quit_closes : ℕ
  pub link_up : Bool
  pub wg : ℕ
  pub pc : Thread → Pc

abbrev pub same : Thread → Thread → Bool
same receiver receiver = true
same sender sender = true
same (app i) (app j) = i == j
same _ _ = false

abbrev pub move : Thread → Pc → State → State
move t p s = record s { pc = λ u. if same t u then p else s.pc u }

-- The two goroutines that the wait group counts.
pub data IsCounted : Thread → Type 0 where
  counts_receiver : IsCounted receiver
  counts_sender : IsCounted sender

-- One step of one goroutine. The lock of `Close` is held from its test to `closed = true`, which is one
-- step here.
pub data Step (s : State) : State → Type 0 where
  -- the receiver looks at the quit channel
  receiver_quits : s.pc receiver ≡ running → s.quit_closes ≡ 1 → Step s (move receiver closing s)
  receiver_goes_on : s.pc receiver ≡ running → s.quit_closes ≡ 0 → Step s (move receiver reading s)
  -- a read of the connection that was closed on this side
  read_closed : s.pc receiver ≡ reading → s.link_up ≡ false → Step s (move receiver closing s)
  -- the server closed the connection or sent something wrong, or the deadline passed
  read_fails : s.pc receiver ≡ reading → Step s (move receiver closing s)
  message_arrives : s.pc receiver ≡ reading → Step s (move receiver delivering s)
  -- the application takes the message
  message_taken : s.pc receiver ≡ delivering → Step s (move receiver running s)
  delivery_quits : s.pc receiver ≡ delivering → s.quit_closes ≡ 1 → Step s (move receiver closing s)
  -- the application sends a message, or closes its channel
  message_given : s.pc sender ≡ running → Step s (move sender sending s)
  channel_closed : s.pc sender ≡ running → Step s (move sender returned s)
  -- the quit signal
  sender_quits : s.pc sender ≡ running → s.quit_closes ≡ 1 → Step s (move sender returned s)
  -- the message was written and flushed
  message_sent : s.pc sender ≡ sending → s.link_up ≡ true → Step s (move sender running s)
  -- it could not be written, or not be flushed
  write_fails : s.pc sender ≡ sending → Step s (move sender closing s)
  flush_fails : s.pc sender ≡ sending → Step s (move sender returned s)
  -- the flush into the connection that was closed on this side
  flush_closed : s.pc sender ≡ sending → s.link_up ≡ false → Step s (move sender returned s)
  -- the application calls `Close`
  app_closes : (i : ℕ) → s.pc (app i) ≡ running → Step s (move (app i) closing s)
  -- the test of `closed`
  win :
      (t : Thread)
      → s.pc t ≡ closing
      → s.closed ≡ false
      → Step s (move t won (record s { closed = true }))
  lose : (t : Thread) → s.pc t ≡ closing → s.closed ≡ true → Step s (move t returned s)
  send_quit :
      (t : Thread)
      → s.pc t ≡ won
      → Step s (move t quit_sent (record s { quit_closes = suc s.quit_closes }))
  close_link :
      (t : Thread) → s.pc t ≡ quit_sent → Step s (move t waiting (record s { link_up = false }))
  wait_over : (t : Thread) → s.pc t ≡ waiting → s.wg ≡ 0 → Step s (move t returned s)
  -- the deferred `wg.Done()`
  finish :
      (t : Thread)
      → IsCounted t
      → s.pc t ≡ returned
      → Step s (move t finished (record s { wg = s.wg - 1 }))
  -- the application goes on
  app_goes_on : (i : ℕ) → s.pc (app i) ≡ returned → Step s (move (app i) running s)

-- The step needs nothing of the server, of the network or of the application.
abbrev pub is_own : {s t : State} → Step s t → Bool
is_own (receiver_quits e q) = true
is_own (receiver_goes_on e q) = true
is_own (read_closed e l) = true
is_own (delivery_quits e q) = true
is_own (sender_quits e q) = true
is_own (flush_closed e l) = true
is_own (win t e o) = true
is_own (lose t e o) = true
is_own (send_quit t e) = true
is_own (close_link t e) = true
is_own (wait_over t e w) = true
is_own (finish t c e) = true
is_own _ = false

pub data Steps (s : State) : State → Type 0 where
  here : Steps s s
  next : {t u : State} → Steps s t → Step t u → Steps s u

-- The goroutines go on by themselves.
pub data Runs (s : State) : State → Type 0 where
  no_run : Runs s s
  run : {t u : State} → Runs s t → (st : Step t u) → is_own st ≡ true → Runs s u

-- The connection after `wg.Add(2)` and the two `go` statements.
abbrev pub started : State
started = record { closed = false; quit_closes = 0; link_up = true; wg = 2; pc = λ t. running }

abbrev pub Reachable : State → Type 0
Reachable s = Steps started s
