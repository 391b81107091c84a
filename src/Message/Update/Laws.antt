-- ===== src/Message/Update/Laws.antt =====
-- What `FramebufferUpdateMessage.Read` and one round of `handleIncomingMessages` do.
use avacadovnc.Common.{ℕ, suc, ◌≡◌, refl, List, [], ◌∷◌, ◌++◌}
use avacadovnc.Wire.{IsU16, be16}
use avacadovnc.Outcome.{ok, err, invalid_type}
use avacadovnc.Conn.{Conn, binary_invalid, read_full}
use avacadovnc.Conn.Reads.{read_full_given, read_u16_given}
use avacadovnc.Decode.Inflate.{Codecs}
use avacadovnc.Message.Update.{update_rect, update_rects, update_read}

-- An update that announces a rectangle is never read: it ends in an error of binary.Read after the
-- count, whatever follows, and the canvas is as before.
pub update_read_fails :
    (cod : Codecs) (n pad : ℕ) (rest : List ℕ) (c : Conn)
    → IsU16 (suc n)
    → c.input ≡ pad ∷ (be16 (suc n) ++ rest)
    → update_read cod c ≡ (err invalid_type, record c { input = rest })
unfolding update_read update_rects update_rect binary_invalid
update_read_fails cod n pad rest c h inp =
    let one : read_full 1 c ≡ (ok (pad ∷ []), record c { input = be16 (suc n) ++ rest }) =
      read_full_given 1 (pad ∷ []) (be16 (suc n) ++ rest) c inp refl in
    rw (one, read_u16_given (suc n) rest (record c { input = be16 (suc n) ++ rest }) refl h)
