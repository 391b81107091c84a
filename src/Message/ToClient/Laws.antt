-- ===== src/Message/ToClient/Laws.antt =====
-- What a client makes of the messages that a server writes.
use avacadovnc.Common.{
  ℕ, append_assoc, ◌/◌, ◌%◌, suc, ◌≤◌, ◌≡◌, List, [], ◌∷◌, ◌++◌, length, arith, refl, true,
}
use avacadovnc.Wire.{IsU16, IsU32, be16, be32, be_value}
use avacadovnc.Outcome.{ok, err, panic, nil_dereference, invalid_type}
use avacadovnc.Conn.{Conn, Color, read_full, read_u8, read_u32, write, flush, ◌>>=◌, binary_invalid}
use avacadovnc.Conn.Rules.{Fails}
use avacadovnc.Conn.Reads.{read_full_given, read_u8_given, read_u16_given, read_u32_given}
use avacadovnc.Message.ToServer
use avacadovnc.Message.ToClient.{
  CutText, cut_text_read, cut_text_write, color_map_read, color_map_write, read_entries, color_read,
  write_colors, ColorMapEntries, colors_num_of,
}

-- The text that a client writes as ClientCutText, after its type byte, is what the reader of
-- ServerCutText takes: three bytes of padding, the length and the text.
cut_text_read-client_text :
    (text rest : List ℕ) (m : CutText) (sender reader : Conn)
    → IsU32 (length text)
    → sender.pending ≡ []
    → reader.input ≡ (ToServer.cut_text_write text sender).1.pending ++ rest
    → (read_u8 >>= λ kind. cut_text_read m) reader
      ≡ (ok (record m { text = text }), record reader { input = rest })
unfolding cut_text_read ToServer.cut_text_write write
cut_text_read-client_text text rest m sender reader small empty inp =
    let tail : List ℕ = be32 (length text) ++ (text ++ rest) in
    let plain : reader.input ≡ 6 ∷ 0 ∷ 0 ∷ 0 ∷ tail = unfold be32 in ground arith in
    ground (
      arith,
      read_u8_given 6 (0 ∷ 0 ∷ 0 ∷ tail) reader plain,
      read_full_given 3 (0 ∷ 0 ∷ 0 ∷ []) tail (record reader { input = 0 ∷ 0 ∷ 0 ∷ tail }) refl
          refl,
      read_u32_given (length text) (text ++ rest) (record reader { input = tail }) refl small,
      read_full_given (length text) text rest (record reader { input = text ++ rest }) refl refl,
    )

-- A cut text of 2 to 65535 bytes, as a server writes it, is not read back by the client that gets
-- exactly these bytes: the server pads with one byte, and the client skips three.
cut_text_read-server_text :
    (text : List ℕ) (m kept : CutText) (sender reader : Conn)
    → m.text ≡ text
    → m.length_field ≤ length text
    → 2 ≤ length text
    → IsU16 (length text)
    → sender.link_up ≡ true
    → sender.pending ≡ []
    → sender.sent ≡ []
    → reader.input ≡ (cut_text_write m sender).1.sent
    → Fails ((read_u8 >>= λ kind. cut_text_read kept) reader)
unfolding cut_text_read cut_text_write write flush be32 read_u8 read_u32 read_full be_value
cut_text_read-server_text (a ∷ b ∷ text) m kept sender reader same low two small up empty fresh
      inp =
    let n : ℕ = length (a ∷ b ∷ text) in
    let plain : reader.input ≡ 3 ∷ 0 ∷ 0 ∷ 0 ∷ (n / 256) ∷ (n % 256) ∷ a ∷ b ∷ text =
      ground arith in
    ground (arith, plain)
cut_text_read-server_text (a ∷ []) m kept sender reader same low two small up empty fresh inp =
    absurd (omega arith)
cut_text_read-server_text [] m kept sender reader same low two small up empty fresh inp =
    absurd (omega arith)

-- An announcement of one colour or more, however it goes on, panics: each entry is made with no pixel
-- format, which is dereferenced.
color_map_read_panics :
    (c : Conn) (pad first n : ℕ) (rest : List ℕ)
    → IsU16 first
    → IsU16 (suc n)
    → c.input ≡ pad ∷ (be16 first ++ (be16 (suc n) ++ rest))
    → color_map_read c ≡ (panic nil_dereference, record c { input = rest })
unfolding color_map_read read_entries color_read
color_map_read_panics c pad first n rest hf hn inp = ground (
  arith,
  read_full_given 1 (pad ∷ []) (be16 first ++ (be16 (suc n) ++ rest)) c inp refl,
  read_u16_given first (be16 (suc n) ++ rest)
      (record c { input = be16 first ++ (be16 (suc n) ++ rest) }) refl hf,
  read_u16_given (suc n) rest (record c { input = be16 (suc n) ++ rest }) refl hn,
)

header_append : (p a b : List ℕ) → (((p ++ 1 ∷ []) ++ 0 ∷ []) ++ a) ++ b ≡ p ++ (1 ∷ 0 ∷ (a ++ b))
header_append p a b = simp append_assoc

-- A message with colours is never written whole: the header of six bytes goes to the buffer, then the
-- call fails, and nothing reaches the peer.
color_map_write_fails :
    (m : ColorMapEntries) (col : Color) (cols : List Color) (c : Conn)
    → m.colors ≡ col ∷ cols
    → color_map_write m c ≡ (
      err invalid_type,
      record c { pending = c.pending ++ (1 ∷ 0 ∷ (be16 m.first_color ++ be16 (colors_num_of m))) },
    )
unfolding color_map_write write_colors write binary_invalid
color_map_write_fails m col cols c some_colors =
    ground (arith, header_append c.pending (be16 m.first_color) (be16 (colors_num_of m)))
