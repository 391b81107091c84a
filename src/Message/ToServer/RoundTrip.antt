-- ===== src/Message/ToServer/RoundTrip.antt =====
-- Reading back what a client writes.
use avacadovnc.Common.{ℕ, ◌≡◌, List, [], ◌∷◌, ◌++◌, length, arith, refl}
use avacadovnc.Wire.{IsU8, IsU16, be_value}
use avacadovnc.Outcome.{ok}
use avacadovnc.Conn.{Conn, read_u8, write, ◌>>=◌}
use avacadovnc.Conn.Reads.{read_full_given, read_u8_given}
use avacadovnc.Message.ToServer.{
  FramebufferUpdateRequest, shifted16, request_bytes, request_write, request_read, decode_request,
}

pub record IsRequest (m : FramebufferUpdateRequest) : Type 0 where
  pub inc_u8 : IsU8 m.inc
  pub x_u16 : IsU16 m.x
  pub y_u16 : IsU16 m.y
  pub width_u16 : IsU16 m.width
  pub height_u16 : IsU16 m.height

abbrev payload : FramebufferUpdateRequest → List ℕ
payload m = m.inc ∷ (shifted16 m.x ++ (shifted16 m.y ++ (shifted16 m.width ++ shifted16 m.height)))

decode_request-bytes :
    (m : FramebufferUpdateRequest) (bytes : List ℕ)
    → IsRequest m
    → request_bytes m ≡ 3 ∷ bytes
    → (decode_request bytes ≡ m) × (length bytes ≡ 9)
unfolding decode_request be_value
decode_request-bytes m bytes h e = ground arith

-- A request in the range of its fields, written by a client that has nothing pending: a peer that
-- reads the type byte and then the message gets the request back and leaves what follows it.
request_read-request_write :
    (m : FramebufferUpdateRequest) (sender reader : Conn) (rest : List ℕ)
    → IsRequest m
    → sender.pending ≡ []
    → reader.input ≡ (request_write m sender).1.pending ++ rest
    → (read_u8 >>= λ kind. request_read) reader ≡ (ok m, record reader { input = rest })
unfolding request_read request_write write
request_read-request_write m sender reader rest h empty inp =
    let (same, nine) = decode_request-bytes m (payload m) h refl in
    ground (
      arith,
      read_u8_given 3 (payload m ++ rest) reader,
      read_full_given 9 (payload m) rest (record reader { input = payload m ++ rest }) refl nine,
    )
