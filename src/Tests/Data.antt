-- ===== src/Tests/Data.antt =====
-- The connections, rectangles and formats of the examples.
use avacadovnc.Common.{ℕ, List, [], ◌∷◌, ◌++◌, replicate, true, none, some, false}
use avacadovnc.Pixel.{default_pixel_format}
use avacadovnc.Canvas.{Canvas, Rectangle, new_vnc_canvas}
use avacadovnc.Conn.{
  Conn, ClientConfig, ServerConfig, Role, client, server, raw, copy_rect, hextile, security_none,
  security_vnc,
}

abbrev pub client_config : ClientConfig
client_config = record {
  security_handlers = security_vnc (112 ∷ 119 ∷ []) ∷ security_none ∷ [];
  encodings = raw ∷ copy_rect ∷ hextile ∷ [];
  pixel_format = default_pixel_format;
  exclusive = false;
}

abbrev pub server_config : ServerConfig
server_config = record {
  security_handlers = security_none ∷ [];
  encodings = raw ∷ [];
  pixel_format = default_pixel_format;
  width = 640;
  height = 480;
  desktop_name = 97 ∷ 98 ∷ [];
}

abbrev pub screen : Canvas
screen = new_vnc_canvas 8 8

abbrev conn_of : Role → List ℕ → Conn
conn_of r input = record {
  role = r;
  input = input;
  pending = [];
  sent = [];
  link_up = true;
  protocol = [];
  color_map = [];
  canvas = none;
  desktop_name = [];
  encodings = raw ∷ [];
  security_handler = none;
  fb_width = 0;
  fb_height = 0;
  pixel_format = default_pixel_format;
}

-- A client that waits for its first byte.
abbrev pub client_of : List ℕ → Conn
client_of input = conn_of (client client_config) input

abbrev pub server_of : List ℕ → Conn
server_of input = conn_of (server server_config) input

-- A client with a screen and the default format, of 32 bits.
abbrev pub viewer_of : List ℕ → Conn
viewer_of input = record (client_of input) { canvas = some screen }

abbrev pub rect_of : ℕ → ℕ → ℕ → ℕ → Rectangle
rect_of x y w h = record { x = x; y = y; width = w; height = h; enc_type = 0 }

-- A colour with as many bytes as the decoders take for one of 32 bits.
abbrev pub wide : List ℕ → List ℕ
wide colour = colour ++ replicate 28 0
