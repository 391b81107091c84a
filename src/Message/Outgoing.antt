-- ===== src/Message/Outgoing.antt =====
-- The loop of outgoing messages: `handleOutgoingMessages` of client.go, from what the channel yields
-- before it is closed or the quit signal is taken. Its goroutine is started before the handler of the
-- handshake writes its two messages; the loop here takes its first message after that. `Close` shows
-- as the link that goes down; the goroutines that it waits for are in Lifecycle.
pub mod Order
use avacadovnc.Common.{List, [], ◌∷◌, ◌++◌, false}
use avacadovnc.Outcome.{Outcome, ok, err, panic, Error}
use avacadovnc.Conn.{Conn, M, resume, return, done, flush}
use avacadovnc.Message.ToServer.{FramebufferUpdateRequest, request_bytes, request_write}
use avacadovnc.Message.Aten.{AtenKeyEvent, AtenPointerEvent, aten_key_write, aten_pointer_write}

-- The types of the library with all the methods of the interface `ClientMessage`, and a message of the
-- application with its `Write`.
pub data ClientMessage : Type 0 where
  update_request : FramebufferUpdateRequest → ClientMessage
  aten_key : AtenKeyEvent → ClientMessage
  aten_pointer : AtenPointerEvent → ClientMessage
  custom : M (Unit {0}) → ClientMessage

message_write : ClientMessage → M (Unit {0})
message_write (update_request m) = request_write m
message_write (aten_key m) = aten_key_write m
message_write (aten_pointer m) = aten_pointer_write m
message_write (custom w) = w

-- Why the loop ended.
pub data Ended : Type 0 where
  -- the channel is closed, or the quit signal came
  no_more : Ended
  write_failed flush_failed : Error → Ended

-- After `Write`: `c.Close()` on an error, and otherwise on to `Flush`.
abbrev after_write : Outcome (Unit {0}) × Conn → M Ended → Outcome Ended × Conn
after_write (ok u, c) k = k c
after_write (err e, c) k = (ok (write_failed e), record c { link_up = false })
after_write (panic p, c) k = (panic p, c)

abbrev after_flush : Outcome (Unit {0}) × Conn → M Ended → Outcome Ended × Conn
after_flush (ok u, c) k = k c
after_flush (err e, c) k = (ok (flush_failed e), c)
after_flush (panic p, c) k = (panic p, c)

pub outgoing : List ClientMessage → M Ended
unfolding message_write
outgoing [] c = (ok no_more, c)
outgoing (m ∷ ms) c = after_write (message_write m c) (λ d. after_flush (flush d) (outgoing ms))
