-- ===== src/Handshake/Connect.antt =====
-- The end of the handshake: the client's first messages, and what `Connect` does on a failure.
use avacadovnc.Common.{
  ℕ, ◌≡◌, ◌≢◌, List, [], ◌∷◌, ◌++◌, true, false, none, map, arith, refl, length, append_assoc,
}
use avacadovnc.Wire.{be16, u16}
use avacadovnc.Outcome.{ok, err, Error, message}
use avacadovnc.Conn.{Conn, client, ClientConfig, write}
use avacadovnc.Conn.Access.{is_client, encoding_type}
use avacadovnc.Conn.Reads.{read_full_given, read_u8_given}
use avacadovnc.Message.ToServer.{
  FramebufferUpdateRequest, request_bytes, request_write, set_encodings_write, be32s,
}
use avacadovnc.Handshake.{
  client_message_handle, client_security_handle, choose, take_choice, connect, closed_on_error,
  Handler,
}

abbrev first_request : Conn → FramebufferUpdateRequest
first_request c = record { inc = 1; x = 0; y = 0; width = c.fb_width; height = c.fb_height }

-- The bytes of the SetEncodings message, and of the request for the whole screen.
abbrev pub first_messages : Conn → List ℕ
first_messages c =
    let types = map encoding_type c.encodings in
    2 ∷ 0 ∷ (be16 (u16 (length types)) ++ (be32s types ++ request_bytes (first_request c)))

append_four :
    (p a b d : List ℕ)
    → ((((p ++ 2 ∷ []) ++ 0 ∷ []) ++ a) ++ b) ++ d ≡ p ++ (2 ∷ 0 ∷ (a ++ (b ++ d)))
append_four p a b d = simp append_assoc

-- On a client the last handler of the handshake succeeds with its two messages in the write buffer: it flushes
-- nothing, and what the server has received is what it had received before. The buffer has no bound.
pub client_message_handle_unsent :
    (c : Conn)
    → is_client c ≡ true
    → client_message_handle c ≡ (ok tt, record c { pending = c.pending ++ first_messages c })
unfolding client_message_handle set_encodings_write request_write write
client_message_handle_unsent c isc = ground (
  arith,
  append_four c.pending (be16 (u16 (length (map encoding_type c.encodings))))
      (be32s (map encoding_type c.encodings)) (request_bytes (first_request c)),
)

-- With no common security type the client reads the whole list of types, sends nothing and keeps all
-- of its state, and the handshake ends in an error.
client_security_handle_refuses :
    (encrypt : List ℕ → List ℕ → List ℕ) (own : ClientConfig) (types rest : List ℕ) (c : Conn)
    → c.role ≡ client own
    → choose own.security_handlers types ≡ none
    → length types ≢ 0
    → c.input ≡ length types ∷ (types ++ rest)
    → client_security_handle encrypt c
      ≡ (err (message "no supported security types found"), record c { input = rest })
unfolding client_security_handle take_choice
client_security_handle_refuses encrypt own types rest c role none_chosen ne inp = ground (
  arith,
  read_u8_given (length types) (types ++ rest) c inp,
  read_full_given (length types) types rest (record c { input = types ++ rest }) refl refl,
)

-- `Connect` leaves the link down whenever it returns an error.
connect_error_closes :
    (encrypt : List ℕ → List ℕ → List ℕ) (hs : List Handler) (c : Conn) (e : Error)
    → (connect encrypt hs c).0 ≡ err e
    → (connect encrypt hs c).1.link_up ≡ false
unfolding connect closed_on_error
connect_error_closes encrypt [] c e h = ground arith
connect_error_closes encrypt (k ∷ hs) c e h = ground arith
