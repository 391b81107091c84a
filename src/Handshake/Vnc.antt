-- ===== src/Handshake/Vnc.antt =====
-- The handshake of a client with a server that asks for VNC authentication.
use avacadovnc.Common.{
  ℕ, ◌≡◌, ◌≢◌, refl, List, [], ◌∷◌, ◌++◌, some, true, ◌==◌, if◌then◌else◌, length, arith,
  append_assoc, String, replicate, take-append,
}
use avacadovnc.Wire.{IsU32, be32}
use avacadovnc.Outcome.{Outcome, ok, err, message}
use avacadovnc.Conn.{Conn, client, ClientConfig, security_vnc, write, flush}
use avacadovnc.Conn.Access.{security_type, set_security_handler}
use avacadovnc.Conn.Reads.{read_full_given, read_u8_given, read_u32_given}
use avacadovnc.Security.{
  check_result, vnc_key, vnc_response, vnc_authenticate_client, authenticate_client, authenticate,
}
use avacadovnc.Handshake.{client_security_handle, take_choice, choose}

-- What the client makes of the server's verdict.
abbrev pub verdict : ℕ → Outcome (Unit {0})
verdict result = if result == 0 then ok tt else err (message "vnc-auth: authentication failed")

check_result_given :
    (text : String) (result : ℕ) (rest : List ℕ) (c : Conn)
    → c.input ≡ be32 result ++ rest
    → IsU32 result
    → check_result text c
      ≡ (if result == 0 then ok tt else err (message text), record c { input = rest })
unfolding check_result
check_result_given text result rest c inp h = ground (arith, read_u32_given result rest c inp h)

-- The first eight bytes are the key: what the password has behind them does not count.
vnc_key-first : (first more : List ℕ) → length first ≡ 8 → vnc_key (first ++ more) ≡ first
unfolding vnc_key
vnc_key-first first more h =
    rw (append_assoc first more (replicate 8 0)) (take-append 8 first (more ++ replicate 8 0) h)

vnc_authenticate_client_run :
    (encrypt : List ℕ → List ℕ → List ℕ) (password challenge rest : List ℕ) (result : ℕ) (c : Conn)
    → c.input ≡ challenge ++ (be32 result ++ rest)
    → length challenge ≡ 16
    → IsU32 result
    → c.link_up ≡ true
    → vnc_authenticate_client encrypt password c ≡ (
      verdict result,
      record c {
        input = rest;
        pending = [];
        sent = c.sent ++ (c.pending ++ vnc_response encrypt password challenge);
      },
    )
unfolding vnc_authenticate_client write flush
vnc_authenticate_client_run encrypt password challenge rest result c inp h small up =
    let c1 : Conn = record c {
      input = be32 result ++ rest;
      pending = [];
      sent = c.sent ++ (c.pending ++ vnc_response encrypt password challenge);
    } in
    ground (
      arith,
      read_full_given 16 challenge (be32 result ++ rest) c inp h,
      check_result_given "vnc-auth: authentication failed" result rest c1 refl small,
    )

-- The type, and then the authentication.
take_choice_vnc :
    (encrypt : List ℕ → List ℕ → List ℕ) (cfg : ClientConfig) (password challenge rest : List ℕ)
    (result : ℕ) (c : Conn)
    → c.role ≡ client cfg
    → length challenge ≡ 16
    → IsU32 result
    → c.link_up ≡ true
    → c.pending ≡ []
    → c.input ≡ challenge ++ (be32 result ++ rest)
    → take_choice encrypt (some (security_vnc password)) c ≡ (
      verdict result,
      record c {
        input = rest;
        sent = c.sent ++ 2 ∷ vnc_response encrypt password challenge;
        security_handler = some (security_vnc password);
      },
    )
unfolding take_choice security_type write flush set_security_handler authenticate
    authenticate_client
take_choice_vnc encrypt cfg password challenge rest result c who h small up none_pending inp =
    let c2 : Conn = record c {
      pending = [];
      sent = c.sent ++ 2 ∷ [];
      security_handler = some (security_vnc password);
    } in
    ground (
      arith,
      vnc_authenticate_client_run encrypt password challenge rest result c2 inp h small up,
      append_assoc c.sent (2 ∷ []) (vnc_response encrypt password challenge),
    )

-- A client with nothing pending, whose first handler among those that the server offers is SecurityVNC with a
-- password: when the server sends the types that it offers, a challenge of 16 bytes and its verdict, and
-- anything after them, the client sends the type 2 and the two halves of the challenge, each encrypted with
-- the key of the password, and nothing else; it takes what the server has sent to the verdict and
-- leaves the rest; it succeeds if the verdict is 0, and fails for every other one.
pub client_security_handle_vnc :
    (encrypt : List ℕ → List ℕ → List ℕ) (cfg : ClientConfig)
    (password offered challenge rest : List ℕ) (result : ℕ) (c : Conn)
    → c.role ≡ client cfg
    → choose cfg.security_handlers offered ≡ some (security_vnc password)
    → length offered ≢ 0
    → length challenge ≡ 16
    → IsU32 result
    → c.link_up ≡ true
    → c.pending ≡ []
    → c.input ≡ length offered ∷ (offered ++ (challenge ++ (be32 result ++ rest)))
    → client_security_handle encrypt c ≡ (
      verdict result,
      record c {
        input = rest;
        sent = c.sent ++ 2 ∷ vnc_response encrypt password challenge;
        security_handler = some (security_vnc password);
      },
    )
unfolding client_security_handle
client_security_handle_vnc encrypt cfg password offered challenge rest result c who chosen
      some_types h small up none_pending inp =
    let i2 : List ℕ = challenge ++ (be32 result ++ rest) in
    let i1 : List ℕ = offered ++ i2 in
    let run =
      take_choice_vnc encrypt cfg password challenge rest result (record c { input = i2 }) who h
        small up none_pending refl in
    ground (
      arith,
      read_u8_given (length offered) i1 c inp,
      read_full_given (length offered) offered i2 (record c { input = i1 }) refl refl,
      run,
    )
