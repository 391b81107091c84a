-- ===== src/Message/Update.antt =====
-- `FramebufferUpdateMessage` (encoding_types.go, lines 565 to 627), and the loop of
-- `handleIncomingMessages` (client.go) with the messages that it knows.
pub mod Laws
pub mod Delivery
use avacadovnc.Common.{
  ℕ, zero, suc, ◌+◌, List, [], ◌∷◌, ◌++◌, Bool, true, false, Option, none, some, ◌==◌,
  if◌then◌else◌, length, take, replicate, ◌-◌,
}
use avacadovnc.Wire.{be16}
use avacadovnc.Outcome.{Outcome, ok, err, panic, Fault, message, out_of_fuel}
use avacadovnc.Canvas.{Canvas, Rectangle, Rgba, remove_cursor, paint_cursor}
use avacadovnc.Conn.{
  Conn, M, return, done, gets, resume, ◌>>=◌, ◌>>◌, read_full, read_u8, read_u16, read_u32, write,
  flush, binary_invalid,
}
use avacadovnc.Conn.Access.{get_enc_instance}
use avacadovnc.Decode.Inflate.{Codecs}
use avacadovnc.Decode.Dispatch.{found_read, rectangle_write}
use avacadovnc.Message.ToClient.{CutText, cut_text_read, ColorMapEntries, color_map_read}
use avacadovnc.Message.Aten.{AtenMessage, aten_type, aten_read}

-- One round of the loop over the rectangles. `Rectangle` holds an interface, so that binary.Read
-- refuses it.
pub update_rect : Codecs → M (Unit {0})
update_rect cod = do
  rect ← binary_invalid {A = Rectangle}
  encoding_type ← read_u32
  found ← gets (get_enc_instance encoding_type)
  found_read cod found rect

pub update_rects : Codecs → ℕ → M (Unit {0})
update_rects cod zero = done
update_rects cod (suc n) = update_rect cod >> update_rects cod n

pub update_read : Codecs → M (Unit {0})
update_read cod = do padding ← read_full 1; num_rects ← read_u16; update_rects cod num_rects

-- `depth` is the room on the stack.
unfoldable write_rects : ℕ → List Rectangle → M (Unit {0})
write_rects depth [] = done
write_rects depth (r ∷ rs) = rectangle_write depth r >> write_rects depth rs

unfoldable update_write : ℕ → ℕ → List Rectangle → M (Unit {0})
update_write depth num_rect rects = do
  write (0 ∷ [])
  write (0 ∷ [])
  write (be16 num_rect)
  write_rects depth rects
  flush

-- The kinds of messages that a configuration can list.
pub data Kind : Type 0 where
  framebuffer_update set_color_map_entries bell cut_text : Kind
  aten : AtenMessage → Kind

unfoldable pub kind_type : Kind → ℕ
unfolding aten_type
kind_type framebuffer_update = 0
kind_type set_color_map_entries = 1
kind_type bell = 2
kind_type cut_text = 3
kind_type (aten m) = aten_type m

-- What `Read` returns: a new message, or for a cut text a pointer to the one object that is registered.
pub data ServerMessage : Type 0 where
  an_update a_bell : ServerMessage
  a_color_map : ColorMapEntries → ServerMessage
  the_cut_text : ServerMessage
  an_aten : AtenMessage → ServerMessage

abbrev pub blank_text : CutText
blank_text = record { length_field = 0; text = [] }

-- `msg.Read(c)`
pub message_read : Codecs → Kind → M ServerMessage
message_read cod framebuffer_update = update_read cod >> return an_update
message_read cod set_color_map_entries = color_map_read >>= λ m. return (a_color_map m)
message_read cod bell = return a_bell
message_read cod cut_text = cut_text_read blank_text >> return the_cut_text
message_read cod (aten m) = aten_read m >>= λ made. return (an_aten made)

-- `m.Text = make([]byte, length)` and the read into it, which may end early.
abbrev text_made : CutText → Outcome ℕ × Conn → CutText
text_made obj (ok n, c) = record obj { text = take n c.input ++ replicate (n - length c.input) 0 }
text_made obj (err e, c) = obj
text_made obj (panic p, c) = obj

abbrev text_after_padding : CutText → Outcome (List ℕ) × Conn → CutText
text_after_padding obj (ok padding, c) = text_made obj (read_u32 c)
text_after_padding obj (err e, c) = obj
text_after_padding obj (panic p, c) = obj

-- The registered cut text after its `Read`, also where that fails.
cut_text_after : CutText → Conn → CutText
cut_text_after obj c = text_after_padding obj (read_full 3 c)

-- The map from types to messages: of two messages with one type the later one counts.
unfoldable pub lookup_kind : List Kind → ℕ → Option Kind
lookup_kind [] typ = none
lookup_kind (k ∷ ks) typ = elim (lookup_kind ks typ) [
  | some found ↦ some found
  | none ↦ if kind_type k == typ then some k else none
]

abbrev on_canvas_of : (Canvas → Canvas) → Conn → Conn
on_canvas_of f c = elim c.canvas [ none ↦ c | some k ↦ record c { canvas = some (f k) } ]

-- The message of the kind that was found, read with the cursor taken off the canvas.
pub read_kind : Codecs → Option Kind → M ServerMessage
unfolding message_read
read_kind cod none = λ c. (err (message "unsupported message type"), c)
read_kind cod (some k) = λ c. message_read cod k (on_canvas_of remove_cursor c)

-- One round of the loop: the type, the message, and the cursor painted again.
pub incoming_message : (Rgba → ℕ → Rgba → Rgba) → Codecs → List Kind → M ServerMessage
incoming_message blend cod kinds = do
  typ ← read_u8
  m ← read_kind cod (lookup_kind kinds typ)
  λ c. (ok m, on_canvas_of (paint_cursor blend) c)

abbrev kept_text : Option Kind → CutText → Conn → CutText
kept_text (some cut_text) obj c = cut_text_after obj c
kept_text _ obj c = obj

abbrev after_type : List Kind → CutText → Outcome ℕ × Conn → CutText
after_type kinds obj (ok typ, c) = kept_text (lookup_kind kinds typ) obj c
after_type kinds obj (err e, c) = obj
after_type kinds obj (panic p, c) = obj

-- The registered cut text after a round of the loop.
pub object_after : List Kind → CutText → Conn → CutText
unfolding cut_text_after
object_after kinds obj c = after_type kinds obj (read_u8 c)

-- What the loop delivers to the application, in order, each message with what the registered cut text
-- was at that moment; what this object is at the end; how the loop ends; and the connection then.
pub record Delivered : Type 0 where
  pub messages : List (ServerMessage × CutText)
  pub object : CutText
  pub outcome : Outcome (Unit {0})
  pub conn : Conn

abbrev stopped : Outcome (Unit {0}) → CutText → Conn → Delivered
stopped o obj c = record { messages = []; object = obj; outcome = o; conn = c }

abbrev delivered : CutText → Outcome ServerMessage × Conn → (CutText → Conn → Delivered) → Delivered
delivered obj (ok m, c) next =
    let rest = next obj c in record rest { messages = (m, obj) ∷ rest.messages }
delivered obj (err e, c) next = stopped (err e) obj c
delivered obj (panic p, c) next = stopped (panic p) obj c

-- The loop, for so many rounds; any error ends it.
pub incoming_messages :
    (Rgba → ℕ → Rgba → Rgba) → Codecs → List Kind → ℕ → CutText → Conn → Delivered
incoming_messages blend cod kinds zero obj c = stopped (panic out_of_fuel) obj c
incoming_messages blend cod kinds (suc fuel) obj c =
    delivered (object_after kinds obj c) (incoming_message blend cod kinds c)
      (incoming_messages blend cod kinds fuel)
