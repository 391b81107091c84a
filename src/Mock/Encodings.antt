-- ===== src/Mock/Encodings.antt =====
-- A mock connection finds the encodings that a connection with the same list finds.
use avacadovnc.Common.{ℕ, suc, ◌≡◌, List, [], ◌∷◌, Option, none, some, refl, arith}
use avacadovnc.Conn.{Conn, Encoding}
use avacadovnc.Conn.Access.{find_encoding, get_enc_instance}
use avacadovnc.Mock.{MockConn, first_of_type, mock_enc_instance}

abbrev without_place : Option (ℕ × Encoding) → Option Encoding
without_place none = none
without_place (some (i, e)) = some e

same_search :
    (typ i : ℕ) (es : List Encoding) → first_of_type typ es ≡ without_place (find_encoding typ i es)
unfolding first_of_type find_encoding
same_search typ i [] = refl
same_search typ i (e ∷ es) = ground (arith, same_search typ (suc i) es)

-- `GetEncInstance` of a mock connection and of a client or server connection with the same encodings
-- give the same encoding.
mock_enc_instance-get_enc_instance :
    {R W : Type 0} (typ : ℕ) (m : MockConn R W) (c : Conn)
    → m.encs ≡ c.encodings
    → mock_enc_instance typ m ≡ without_place (get_enc_instance typ c)
unfolding mock_enc_instance get_enc_instance
mock_enc_instance-get_enc_instance typ m c e = rw e (same_search typ 0 c.encodings)
