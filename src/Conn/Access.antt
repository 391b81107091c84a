-- ===== src/Conn/Access.antt =====
-- The methods of the connections that read and set their fields, and the constructors. On a
-- `ServerConn` the size and the name are the server's own: their setters do nothing.
use avacadovnc.Common.{
  ℕ, List, [], ◌∷◌, Bool, true, false, Option, none, some, ◌==◌, if◌then◌else◌, map, replicate, set,
  suc,
}
use avacadovnc.Outcome.{Outcome, ok, err, message}
use avacadovnc.Pixel.{PixelFormat}
use avacadovnc.Conn.{
  Encoding, raw, copy_rect, rre, corre, hextile, cursor, xcursor, pointer_pos, desktop_name,
  desktop_size, zlib, zrle, tight, tight_png, aten_hermon, SecurityHandler, security_none,
  security_aten_hermon, security_vencrypt_plain, security_vnc, ClientConfig, ServerConfig, client,
  server, Color, Conn, M, modify,
}

-- The `EncodingType` constants; the negative ones as the uint32 with the same bits.
pub encoding_type : Encoding → ℕ
encoding_type raw = 0
encoding_type copy_rect = 1
encoding_type rre = 2
encoding_type corre = 4
encoding_type hextile = 5
encoding_type (zlib _) = 6
encoding_type (tight _) = 7
encoding_type (zrle _) = 16
encoding_type tight_png = 4294967036
encoding_type desktop_size = 4294967073
encoding_type cursor = 4294967057
encoding_type xcursor = 4294967056
encoding_type (aten_hermon _) = 4294966991
encoding_type desktop_name = 4294966989
encoding_type pointer_pos = 4294967038

unfoldable pub security_type : SecurityHandler → ℕ
security_type security_none = 1
security_type (security_vnc _) = 2
security_type security_vencrypt_plain = 19
security_type security_aten_hermon = 20

-- The position of the first encoding of the type, and the encoding. The code returns a pointer: what
-- changes the encoding changes the entry at that position.
unfoldable pub find_encoding : ℕ → ℕ → List Encoding → Option (ℕ × Encoding)
unfolding encoding_type
find_encoding typ i [] = none
find_encoding typ i (e ∷ es) =
    if encoding_type e == typ then some (i, e) else find_encoding typ (suc i) es

unfoldable pub get_enc_instance : ℕ → Conn → Option (ℕ × Encoding)
unfolding find_encoding
get_enc_instance typ c = find_encoding typ 0 c.encodings

-- The state that an encoding of the connection keeps for its next rectangle.
unfoldable pub put_encoding : ℕ → Encoding → M (Unit {0})
put_encoding i e = modify (λ c. record c { encodings = set c.encodings i e })

-- `Reset` of each encoding.
unfoldable reset : Encoding → Encoding
reset (zlib _) = zlib none
reset (zrle _) = zrle none
reset (tight zs) = tight (map (λ _. none) zs)
reset e = e

unfoldable reset_all_encodings : M (Unit {0})
unfolding reset
reset_all_encodings = modify (λ c. record c { encodings = map reset c.encodings })

abbrev pub is_client : Conn → Bool
is_client c = elim c.role [ client _ ↦ true | server _ ↦ false ]

unfoldable pub set_width : ℕ → M (Unit {0})
set_width w = modify (λ c. if is_client c then record c { fb_width = w } else c)

unfoldable pub set_height : ℕ → M (Unit {0})
set_height h = modify (λ c. if is_client c then record c { fb_height = h } else c)

unfoldable pub set_desktop_name : List ℕ → M (Unit {0})
set_desktop_name name = modify (λ c. if is_client c then record c { desktop_name = name } else c)

unfoldable pub set_pixel_format : PixelFormat → M (Unit {0})
set_pixel_format pf = modify (λ c. record c { pixel_format = pf })

unfoldable pub set_proto_version : List ℕ → M (Unit {0})
set_proto_version v = modify (λ c. record c { protocol = v })

unfoldable pub set_security_handler : SecurityHandler → M (Unit {0})
set_security_handler h = modify (λ c. record c { security_handler = some h })

unfoldable pub set_color_map : List Color → M (Unit {0})
set_color_map cm = modify (λ c. record c { color_map = cm })

abbrev pub zero_color : Color
zero_color = record { cm_index = 0; red = 0; green = 0; blue = 0 }

-- `NewClientConn` over the bytes that the server will send.
unfoldable new_client_conn : List ℕ → ClientConfig → Outcome Conn
new_client_conn input cfg = elim cfg.encodings [
  | [] ↦ err (message "at least one encoding must be specified in the client config")
  | e ∷ es ↦ ok (record {
    role = client cfg;
    input = input;
    pending = [];
    sent = [];
    link_up = true;
    protocol = [];
    color_map = replicate 256 zero_color;
    canvas = none;
    desktop_name = [];
    encodings = cfg.encodings;
    security_handler = none;
    fb_width = 0;
    fb_height = 0;
    pixel_format = cfg.pixel_format;
  })
]

-- `NewServerConn` over the bytes that the client will send.
unfoldable pub new_server_conn : List ℕ → ServerConfig → Conn
new_server_conn input cfg = record {
  role = server cfg;
  input = input;
  pending = [];
  sent = [];
  link_up = true;
  protocol = [];
  color_map = replicate 256 zero_color;
  canvas = none;
  desktop_name = cfg.desktop_name;
  encodings = cfg.encodings;
  security_handler = none;
  fb_width = cfg.width;
  fb_height = cfg.height;
  pixel_format = cfg.pixel_format;
}
