-- ===== src/Security.antt =====
-- The security schemes: security_none.go, security_aten.go, security_vencryptplain.go,
-- security_vnc.go, and the readers of security_tight.go. `encrypt key block` stands for the DES block
-- cipher of crypto/des, with a key and a block of eight bytes.
use avacadovnc.Common.{ℕ, List, ◌++◌, ◌==◌, if◌then◌else◌, take, drop, replicate, String}
use avacadovnc.Wire.{be32}
use avacadovnc.Outcome.{message}
use avacadovnc.Conn.{
  M, SecurityHandler, security_none, security_aten_hermon, security_vencrypt_plain, security_vnc,
  return, fail, done, gets, or_wrap, ◌>>=◌, ◌>>◌, read_full, read_u32, write, flush,
}
use avacadovnc.Conn.Access.{is_client}

-- `if securityResult != 0`, after it was read.
unfoldable pub check_result : String → M (Unit {0})
check_result text = do result ← read_u32; if result == 0 then done else fail (message text)

-- The first eight bytes of the password, padded with nulls.
unfoldable pub vnc_key : List ℕ → List ℕ
vnc_key password = take 8 (password ++ replicate 8 0)

-- The two halves of the challenge, each encrypted.
abbrev pub vnc_response : (List ℕ → List ℕ → List ℕ) → List ℕ → List ℕ → List ℕ
vnc_response encrypt password challenge =
    encrypt (vnc_key password) (take 8 challenge)
    ++ encrypt (vnc_key password) (take 8 (drop 8 challenge))

unfoldable pub vnc_authenticate_client : (List ℕ → List ℕ → List ℕ) → List ℕ → M (Unit {0})
vnc_authenticate_client encrypt password = do
  challenge ← or_wrap "vnc-auth: failed to read challenge" (read_full 16)
  write (vnc_response encrypt password challenge)
  flush
  check_result "vnc-auth: authentication failed"

-- The scheme on the client's side and on the server's.
unfoldable pub authenticate_client : (List ℕ → List ℕ → List ℕ) → SecurityHandler → M (Unit {0})
authenticate_client encrypt security_none = check_result "security-none: authentication failed"
authenticate_client encrypt security_aten_hermon = check_result "aten-hermon: authentication failed"
authenticate_client encrypt security_vencrypt_plain =
    check_result "vencrypt-plain: authentication failed"
authenticate_client encrypt (security_vnc password) = vnc_authenticate_client encrypt password

unfoldable pub authenticate_server : SecurityHandler → M (Unit {0})
authenticate_server security_none = do write (be32 0); flush
authenticate_server security_aten_hermon =
    fail (message "aten-hermon: server-side authentication not implemented")
authenticate_server security_vencrypt_plain =
    fail (message "vencrypt-plain: server-side authentication not implemented")
authenticate_server (security_vnc password) = fail (message "server-side VNC auth is not supported")

-- `Authenticate`: the configuration says which side it is.
unfoldable pub authenticate : (List ℕ → List ℕ → List ℕ) → SecurityHandler → M (Unit {0})
authenticate encrypt h = do
  for_client ← gets is_client
  if for_client then authenticate_client encrypt h else authenticate_server h

unfoldable read_tight_tunnels : M ℕ
read_tight_tunnels = read_u32

-- The code, the vendor and the signature of a capability.
unfoldable read_tight_caps : M (ℕ × List ℕ × List ℕ)
read_tight_caps = do
  code ← read_u32
  vendor ← read_full 4
  signature ← read_full 8
  return (code, vendor, signature)
