-- ===== src/Decode/Dispatch/Laws.antt =====
-- The header of a rectangle reads back, and `Rectangle.Write` never returns.
use avacadovnc.Common.{
  ℕ, zero, suc, ◌+◌, ◌*◌, ◌≡◌, List, [], ◌++◌, length, length-append, arith, refl, append_assoc,
  ◌∙◌, ap,
}
use avacadovnc.Wire.{IsU16, IsU32, be16, be32}
use avacadovnc.Outcome.{Outcome, ok, panic, stack_overflow}
use avacadovnc.Canvas.{Rectangle}
use avacadovnc.Conn.{Conn, write}
use avacadovnc.Conn.Reads.{read_u16_given, read_u32_given}
use avacadovnc.Decode.Dispatch.{header_bytes, write_header, read_header, rectangle_write}

pub record IsRectangle (r : Rectangle) : Type 0 where
  pub x_u16 : IsU16 r.x
  pub y_u16 : IsU16 r.y
  pub width_u16 : IsU16 r.width
  pub height_u16 : IsU16 r.height
  pub enc_u32 : IsU32 r.enc_type

append_five :
    (p a b d e f : List ℕ) → ((((p ++ a) ++ b) ++ d) ++ e) ++ f ≡ p ++ (a ++ (b ++ (d ++ (e ++ f))))
append_five p a b d e f = simp append_assoc

write_header_bytes :
    (r : Rectangle) (c : Conn)
    → write_header r c ≡ (ok tt, record c { pending = c.pending ++ header_bytes r })
unfolding write_header write
write_header_bytes r c = ground (
  arith,
  append_five c.pending (be16 r.x) (be16 r.y) (be16 r.width) (be16 r.height) (be32 r.enc_type),
)

-- For a rectangle in the range of its fields, written by a sender that has nothing pending: the reader
-- of the header gets the rectangle back and leaves what follows it.
pub read_header-write_header :
    (r : Rectangle) (sender reader : Conn) (rest : List ℕ)
    → IsRectangle r
    → sender.pending ≡ []
    → reader.input ≡ (write_header r sender).1.pending ++ rest
    → read_header reader ≡ (ok r, record reader { input = rest })
unfolding read_header
read_header-write_header r sender reader rest v empty inp =
    let i4 : List ℕ = be32 r.enc_type ++ rest in
    let i3 : List ℕ = be16 r.height ++ i4 in
    let i2 : List ℕ = be16 r.width ++ i3 in
    let i1 : List ℕ = be16 r.y ++ i2 in
    let plain : reader.input ≡ be16 r.x ++ i1 =
      inp
      ∙ ap (λ (t : Outcome (Unit {0}) × Conn). t.1.pending ++ rest) (write_header_bytes r sender)
      ∙ rw empty (simp append_assoc) in
    ground (
      arith,
      read_u16_given r.x i1 reader plain v.x_u16,
      read_u16_given r.y i2 (record reader { input = i1 }) refl v.y_u16,
      read_u16_given r.width i3 (record reader { input = i2 }) refl v.width_u16,
      read_u16_given r.height i4 (record reader { input = i3 }) refl v.height_u16,
      read_u32_given r.enc_type rest (record reader { input = i4 }) refl v.enc_u32,
    )

-- The bytes that were written, whether they are still in the buffer or not.
abbrev written : Conn → ℕ
written c = length c.sent + length c.pending

-- Whatever room the stack has, `Rectangle.Write` ends in a stack overflow; by then it has written the
-- twelve bytes of the header once for each frame.
rectangle_write_overflows :
    (depth : ℕ) (r : Rectangle) (c : Conn)
    → ((rectangle_write depth r c).0 ≡ panic stack_overflow)
      × (written (rectangle_write depth r c).1 ≡ written c + 12 * depth)
unfolding rectangle_write
rectangle_write_overflows zero r c = ground arith
rectangle_write_overflows (suc depth) r c = rw (write_header_bytes r c) (
    let d : Conn = record c { pending = c.pending ++ header_bytes r } in
    let (stuck, grown) = rectangle_write_overflows depth r d in
    (stuck, omega (arith, grown, twelve)))
  where
    twelve : length (c.pending ++ header_bytes r) ≡ length c.pending + 12
    twelve = length-append c.pending (header_bytes r) ∙ unfold be16 be32 in omega arith
