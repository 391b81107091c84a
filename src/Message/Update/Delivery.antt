-- ===== src/Message/Update/Delivery.antt =====
-- A stream of cut texts, through the loop of incoming messages, into one object.
use avacadovnc.Common.{
  ℕ, suc, ◌≡◌, List, [], ◌∷◌, ◌++◌, none, some, arith, refl, length, All, map, ◌-◌, ap, take-append,
  length-append, append-nil,
}
use avacadovnc.Wire.{IsU32, be32}
use avacadovnc.Outcome.{ok, err, eof}
use avacadovnc.Canvas.{Rgba}
use avacadovnc.Conn.{Conn, read_full, read_u8}
use avacadovnc.Conn.Reads.{read_full_given, read_u8_given, read_u32_given}
use avacadovnc.Decode.Inflate.{Codecs}
use avacadovnc.Message.ToClient.{CutText, cut_text_read}
use avacadovnc.Message.Update.{
  Kind, cut_text, lookup_kind, message_read, read_kind, incoming_message, incoming_messages,
  the_cut_text, blank_text, cut_text_after, object_after,
}

-- The message of the protocol: the type, three bytes of padding, the length and the text.
abbrev cut_text_bytes : List ℕ → List ℕ
cut_text_bytes text = 3 ∷ 0 ∷ 0 ∷ 0 ∷ (be32 (length text) ++ text)

abbrev pub stream_of : List (List ℕ) → List ℕ
stream_of [] = []
stream_of (t ∷ ts) = 3 ∷ 0 ∷ 0 ∷ 0 ∷ (be32 (length t) ++ (t ++ stream_of ts))

-- The last of the texts, if there is one.
abbrev last_of : List ℕ → List (List ℕ) → List ℕ
last_of text [] = text
last_of text (t ∷ ts) = last_of t ts

cut_text_read_given :
    (text rest : List ℕ) (c : Conn)
    → IsU32 (length text)
    → c.input ≡ 0 ∷ 0 ∷ 0 ∷ (be32 (length text) ++ (text ++ rest))
    → cut_text_read blank_text c
      ≡ (ok (record blank_text { text = text }), record c { input = rest })
unfolding cut_text_read
cut_text_read_given text rest c small inp =
    let tail : List ℕ = be32 (length text) ++ (text ++ rest) in
    ground (
      arith,
      read_full_given 3 (0 ∷ 0 ∷ 0 ∷ []) tail c inp refl,
      read_u32_given (length text) (text ++ rest) (record c { input = tail }) refl small,
      read_full_given (length text) text rest (record c { input = text ++ rest }) refl refl,
    )

module _ (blend : Rgba → ℕ → Rgba → Rgba) (cod : Codecs) (kinds : List Kind) where
  cut_text_round :
      (text rest : List ℕ) (c : Conn)
      → lookup_kind kinds 3 ≡ some cut_text
      → c.canvas ≡ none
      → IsU32 (length text)
      → c.input ≡ 3 ∷ 0 ∷ 0 ∷ 0 ∷ (be32 (length text) ++ (text ++ rest))
      → incoming_message blend cod kinds c ≡ (ok the_cut_text, record c { input = rest })
  unfolding incoming_message read_kind message_read
  cut_text_round text rest c known headless small inp =
      let tail : List ℕ = 0 ∷ 0 ∷ 0 ∷ (be32 (length text) ++ (text ++ rest)) in
      ground (
        arith,
        read_u8_given 3 tail c inp,
        cut_text_read_given text rest (record c { input = tail }) small refl,
      )

  object_round :
      (text rest : List ℕ) (obj : CutText) (c : Conn)
      → lookup_kind kinds 3 ≡ some cut_text
      → IsU32 (length text)
      → c.input ≡ 3 ∷ 0 ∷ 0 ∷ 0 ∷ (be32 (length text) ++ (text ++ rest))
      → object_after kinds obj c ≡ record obj { text = text }
  unfolding object_after cut_text_after
  object_round text rest obj c known small inp =
      let tail : List ℕ = be32 (length text) ++ (text ++ rest) in
      let none_missing : length text - length (text ++ rest) ≡ 0 =
        omega (arith, length-append text rest) in
      rw
        (
          read_u8_given 3 (0 ∷ 0 ∷ 0 ∷ tail) c inp,
          known,
          read_full_given 3 (0 ∷ 0 ∷ 0 ∷ []) tail (record c { input = 0 ∷ 0 ∷ 0 ∷ tail }) refl refl,
          read_u32_given (length text) (text ++ rest) (record c { input = tail }) refl small,
          take-append (length text) text rest refl,
          none_missing,
        )
        (ap (λ (l : List ℕ). record obj { text = l }) (append-nil text))

  end_round : (c : Conn) → c.input ≡ [] → incoming_message blend cod kinds c ≡ (err eof, c)
  unfolding incoming_message read_u8 read_full
  end_round c inp = ground arith

  end_object : (obj : CutText) (c : Conn) → c.input ≡ [] → object_after kinds obj c ≡ obj
  unfolding object_after cut_text_after read_u8 read_full
  end_object obj c inp = ground arith

  -- A client that knows the message and has no canvas, on a stream of cut texts of the protocol: the
  -- loop delivers a message for every text, in order, and then ends with EOF; one round more than there are
  -- texts is enough. Every message is the one registered object: it has its own text when it is delivered,
  -- and at the end the last text, for all that the application has not looked at by then.
  pub incoming_messages-stream_of :
      (texts : List (List ℕ)) (obj : CutText) (c : Conn)
      → lookup_kind kinds 3 ≡ some cut_text
      → c.canvas ≡ none
      → All (λ t. IsU32 (length t)) texts
      → c.input ≡ stream_of texts
      → incoming_messages blend cod kinds (suc (length texts)) obj c ≡ record {
        messages = map (λ t. (the_cut_text, record obj { text = t })) texts;
        object = record obj { text = last_of obj.text texts };
        outcome = err eof;
        conn = record c { input = [] };
      }
  unfolding incoming_messages
  incoming_messages-stream_of [] obj c known headless small inp =
      ground (arith, end_round c inp, end_object obj c inp)
  incoming_messages-stream_of (t ∷ ts) obj c known headless (one, others) inp =
      rw
        (
          cut_text_round t (stream_of ts) c known headless one inp,
          object_round t (stream_of ts) obj c known one inp,
          incoming_messages-stream_of ts (record obj { text = t })
              (record c { input = stream_of ts }) known headless others refl,
        )
        refl
