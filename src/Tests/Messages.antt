-- ===== src/Tests/Messages.antt =====
-- The messages at concrete inputs.
use avacadovnc.Common.{ℕ, ◌≡◌, refl, List, [], ◌∷◌, ◌++◌, none, arith}
use avacadovnc.Wire.{be16, be32}
use avacadovnc.Outcome.{eof, ok, err, invalid_type}
use avacadovnc.Canvas.{Rectangle}
use avacadovnc.Decode.Inflate.{Codecs}
use avacadovnc.Decode.Dispatch.{read_header, write_header}
use avacadovnc.Decode.Dispatch.Laws.{read_header-write_header}
use avacadovnc.Message.ToClient.{CutText}
use avacadovnc.Message.Update.{
  update_read, incoming_messages, lookup_kind, kind_type, bell, cut_text, the_cut_text,
}
use avacadovnc.Message.Update.Delivery.{stream_of, incoming_messages-stream_of}
use avacadovnc.Message.Update.Laws.{update_read_fails}
use avacadovnc.Tests.Data.{rect_of, client_of, server_of, viewer_of}

abbrev rect : Rectangle
rect = rect_of 1 2 300 4

read_header-write_header_example :
    read_header (client_of ((write_header rect (server_of [])).1.pending ++ 7 ∷ []))
    ≡ (ok rect, client_of (7 ∷ []))
read_header-write_header_example =
    read_header-write_header rect (server_of [])
      (client_of ((write_header rect (server_of [])).1.pending ++ 7 ∷ [])) (7 ∷ [])
      (record {
        x_u16 = omega arith;
        y_u16 = omega arith;
        width_u16 = omega arith;
        height_u16 = omega arith;
        enc_u32 = omega arith;
      })
      refl refl

abbrev hello : List ℕ
hello = 104 ∷ 105 ∷ []

-- A library that decodes nothing.
abbrev no_codecs : Codecs
no_codecs = record {
  inflate = λ b. none;
  jpeg = λ b. none;
  png = λ b. none;
  png_of_stream = λ s. none;
}

abbrev one_rect : List ℕ
one_rect = be16 0 ++ (be16 0 ++ (be16 1 ++ (be16 1 ++ (be32 0 ++ (1 ∷ 2 ∷ 3 ∷ 4 ∷ [])))))

update_read_fails_example :
    update_read no_codecs (viewer_of (0 ∷ (be16 1 ++ one_rect)))
    ≡ (err invalid_type, viewer_of one_rect)
update_read_fails_example =
    update_read_fails no_codecs 0 0 one_rect (viewer_of (0 ∷ (be16 1 ++ one_rect))) (omega arith)
      refl

abbrev registered : CutText
registered = record { length_field = 0; text = [] }

-- Two cut texts for a client without a canvas.
incoming_messages-stream_of_example :
    incoming_messages
      (λ colour mask old. colour)
      no_codecs
      (bell ∷ cut_text ∷ [])
      3
      registered
      (client_of (stream_of (hello ∷ (1 ∷ []) ∷ [])))
    ≡ record {
      messages =
          (the_cut_text, record registered { text = hello })
          ∷ (the_cut_text, record registered { text = 1 ∷ [] })
          ∷ [];
      object = record registered { text = 1 ∷ [] };
      outcome = err eof;
      conn = client_of [];
    }
incoming_messages-stream_of_example =
    incoming_messages-stream_of (λ colour mask old. colour) no_codecs (bell ∷ cut_text ∷ [])
      (hello ∷ (1 ∷ []) ∷ []) registered (client_of (stream_of (hello ∷ (1 ∷ []) ∷ [])))
      (unfold lookup_kind kind_type in refl) refl (omega arith, (omega arith, tt)) refl
