-- ===== src/Message/Outgoing/Order.antt =====
-- What the loop of outgoing messages sends, and in which order.
use avacadovnc.Common.{
  ℕ, ◌≡◌, List, [], ◌∷◌, ◌++◌, true, false, arith, refl, append_assoc, append-nil, ap, ◌∙◌, sym,
}
use avacadovnc.Outcome.{ok, broken_pipe}
use avacadovnc.Conn.{Conn, write, flush}
use avacadovnc.Conn.Access.{is_client}
use avacadovnc.Message.ToServer.{FramebufferUpdateRequest, request_bytes, request_write}
use avacadovnc.Message.Aten.{AtenKeyEvent, AtenPointerEvent, aten_key_write, aten_pointer_write}
use avacadovnc.Message.Outgoing.{
  ClientMessage, update_request, aten_key, aten_pointer, custom, message_write, no_more,
  flush_failed, outgoing,
}
use avacadovnc.Handshake.{client_message_handle}
use avacadovnc.Handshake.Connect.{first_messages, client_message_handle_unsent}

-- A message whose `Write` succeeds with `bytes` in the buffer.
pub data Puts : ClientMessage → List ℕ → Type 0 where
  puts_request : (m : FramebufferUpdateRequest) → Puts (update_request m) (request_bytes m)
  -- The two Aten messages are not written at all.
  puts_aten_key : (m : AtenKeyEvent) → Puts (aten_key m) []
  puts_aten_pointer : (m : AtenPointerEvent) → Puts (aten_pointer m) []
  puts_custom : (bytes : List ℕ) → Puts (custom (write bytes)) bytes

pub data AllPut : List ClientMessage → List ℕ → Type 0 where
  put_none : AllPut [] []
  put_next :
      {m : ClientMessage} {ms : List ClientMessage} {bs rest : List ℕ}
      → Puts m bs
      → AllPut ms rest
      → AllPut (m ∷ ms) (bs ++ rest)

message_write-Puts :
    {m : ClientMessage} {bs : List ℕ} (c : Conn)
    → Puts m bs
    → message_write m c ≡ (ok tt, record c { pending = c.pending ++ bs })
unfolding message_write request_write write aten_key_write aten_pointer_write
message_write-Puts c (puts_request m) = refl
message_write-Puts c (puts_aten_key m) =
    ap (λ (l : List ℕ). (ok tt, record c { pending = l })) (sym (append-nil c.pending))
message_write-Puts c (puts_aten_pointer m) =
    ap (λ (l : List ℕ). (ok tt, record c { pending = l })) (sym (append-nil c.pending))
message_write-Puts c (puts_custom bytes) = refl

-- The connection with everything sent.
abbrev pub all_sent : Conn → List ℕ → Conn
all_sent c bs = record c { pending = []; sent = c.sent ++ (c.pending ++ bs) }

regroup : (s p a b : List ℕ) → (s ++ (p ++ a)) ++ b ≡ s ++ (p ++ (a ++ b))
regroup s p a b = simp append_assoc

regroup_all : (s p f a b : List ℕ) → (s ++ ((p ++ f) ++ a)) ++ b ≡ s ++ (p ++ (f ++ (a ++ b)))
regroup_all s p f a b = simp append_assoc

one_sent :
    {m : ClientMessage} {bs : List ℕ} (ms : List ClientMessage) (c : Conn)
    → Puts m bs
    → c.link_up ≡ true
    → outgoing (m ∷ ms) c ≡ outgoing ms (all_sent c bs)
unfolding outgoing flush
one_sent ms c p up = ground (arith, message_write-Puts c p)

nothing_sent : (c : Conn) → c.pending ≡ [] → c ≡ all_sent c []
nothing_sent c e =
    rw e (ap (λ (l : List ℕ). record c { pending = []; sent = l }) (sym (append-nil c.sent)))

outgoing_last :
    {ms : List ClientMessage} {bs : List ℕ} (c : Conn)
    → AllPut ms bs
    → c.link_up ≡ true
    → c.pending ≡ []
    → outgoing ms c ≡ (ok no_more, all_sent c bs)
unfolding outgoing
outgoing_last c put_none up e = ap (λ (d : Conn). (ok no_more, d)) (nothing_sent c e)
outgoing_last c (put_next {ms = ms} {bs = bs} {rest = rest} p ps) up e =
    one_sent ms c p up
    ∙ outgoing_last _ ps up refl
    ∙ ap (λ (l : List ℕ). (ok no_more, record c { pending = []; sent = l }))
        (regroup c.sent c.pending bs rest)

-- On a client that the handshake has just left, with the link up: as soon as the loop of outgoing
-- messages has taken one message, all that was pending, the two messages of the handshake and then the
-- bytes of the loop's messages in their order have reached the server, nothing is left in the buffer,
-- and the loop ends when there are no more messages. This is for the library's messages, of which the
-- two Aten ones put no byte, and for messages that write some bytes and succeed.
pub outgoing-client_message_handle :
    {m : ClientMessage} {ms : List ClientMessage} {bs : List ℕ} (c : Conn)
    → AllPut (m ∷ ms) bs
    → is_client c ≡ true
    → c.link_up ≡ true
    → outgoing (m ∷ ms) (client_message_handle c).1
      ≡ (ok no_more, all_sent c (first_messages c ++ bs))
outgoing-client_message_handle {ms = ms} c (put_next {bs = bs} {rest = rest} p ps) isc up =
    rw (client_message_handle_unsent c isc) (
      let d : Conn = record c { pending = c.pending ++ first_messages c } in
      one_sent ms d p up
      ∙ outgoing_last (all_sent d bs) ps up refl
      ∙ ap (λ (l : List ℕ). (ok no_more, record c { pending = []; sent = l }))
          (regroup_all c.sent c.pending (first_messages c) bs rest))

-- When the link is down, the loop ends at its first message, of which the bytes stay in the buffer, and
-- nothing is sent. It does not close the connection.
outgoing_broken :
    {m : ClientMessage} {bs : List ℕ} (ms : List ClientMessage) (c : Conn)
    → Puts m bs
    → c.link_up ≡ false
    → outgoing (m ∷ ms) c ≡ (ok (flush_failed broken_pipe), record c { pending = c.pending ++ bs })
unfolding outgoing flush
outgoing_broken ms c p down = ground (arith, message_write-Puts c p)
