-- ===== src/Message/Aten.antt =====
-- messages_aten.go: the messages of Aten KVM servers, of which only the size is known, and the two of
-- their clients. Every `Supported` says no, so every `Write` returns at once.
use avacadovnc.Common.{ℕ, List, [], ◌∷◌, Bool, false, if◌then◌else◌, replicate}
use avacadovnc.Wire.{be_value}
use avacadovnc.Conn.{M, return, done, ◌>>=◌, ◌>>◌, read_full, write, flush}

pub data AtenMessage : Type 0 where
  front_ground keep_alive video_get_info mouse_get_info session_message get_viewer_lang :
      AtenMessage

unfoldable pub aten_type : AtenMessage → ℕ
aten_type front_ground = 4
aten_type keep_alive = 22
aten_type video_get_info = 51
aten_type mouse_get_info = 55
aten_type session_message = 57
aten_type get_viewer_lang = 60

-- The bytes that `Read` takes, and those that `Write` would pad with.
unfoldable read_size : AtenMessage → ℕ
read_size front_ground = 20
read_size keep_alive = 1
read_size video_get_info = 40
read_size mouse_get_info = 2
read_size session_message = 264
read_size get_viewer_lang = 8

unfoldable write_size : AtenMessage → ℕ
write_size front_ground = 20
write_size keep_alive = 1
write_size video_get_info = 4
write_size mouse_get_info = 2
write_size session_message = 264
write_size get_viewer_lang = 8

-- The message that `Read` returns: that of MouseGetInfo makes another one.
unfoldable made : AtenMessage → AtenMessage
made mouse_get_info = front_ground
made m = m

unfoldable pub aten_read : AtenMessage → M AtenMessage
unfolding read_size made
aten_read m = do pad ← read_full (read_size m); return (made m)

unfoldable supported : AtenMessage → Bool
supported m = false

-- The session message is not flushed.
abbrev last_flush : AtenMessage → M (Unit {0})
last_flush session_message = done
last_flush m = flush

unfoldable aten_write : AtenMessage → M (Unit {0})
unfolding supported write_size aten_type
aten_write m =
    if supported m
    then (do write (aten_type m ∷ []); write (replicate (write_size m) 0); last_flush m)
    else done

-- The wire form of the key event: padding, the flag, padding, the key, padding.
pub record AtenKeyEvent : Type 0 where
  pub down : ℕ
  pub key : ℕ

pub record AtenPointerEvent : Type 0 where
  pub mask : ℕ
  pub x : ℕ
  pub y : ℕ

unfoldable decode_key : List ℕ → AtenKeyEvent
unfolding be_value
decode_key (p ∷ d ∷ p1 ∷ p2 ∷ k3 ∷ k2 ∷ k1 ∷ k0 ∷ pad) = record {
  down = d;
  key = be_value (k3 ∷ k2 ∷ k1 ∷ k0 ∷ []);
}
decode_key _ = record { down = 0; key = 0 }

unfoldable decode_pointer : List ℕ → AtenPointerEvent
unfolding be_value
decode_pointer (p ∷ m ∷ x1 ∷ x0 ∷ y1 ∷ y0 ∷ pad) = record {
  mask = m;
  x = be_value (x1 ∷ x0 ∷ []);
  y = be_value (y1 ∷ y0 ∷ []);
}
decode_pointer _ = record { mask = 0; x = 0; y = 0 }

unfoldable aten_key_read : M AtenKeyEvent
unfolding decode_key
aten_key_read = do bs ← read_full 17; return (decode_key bs)

unfoldable aten_pointer_read : M AtenPointerEvent
unfolding decode_pointer
aten_pointer_read = do bs ← read_full 17; return (decode_pointer bs)

-- `Supported` of these two is false as well.
unfoldable pub aten_key_write : AtenKeyEvent → M (Unit {0})
aten_key_write m = done

unfoldable pub aten_pointer_write : AtenPointerEvent → M (Unit {0})
aten_pointer_write m = done
