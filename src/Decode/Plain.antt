-- ===== src/Decode/Plain.antt =====
-- The decoders with no loop over the data: encoding_raw.go, encoding_copyrect.go,
-- encoding_desktopname.go, encoding_desktopsize.go, encoding_pointer_pos.go and
-- encoding_atenhermon.go.
pub mod Laws
use avacadovnc.Common.{
  ℕ, ◌+◌, ◌*◌, List, [], ◌∷◌, ◌++◌, Bool, true, false, Option, none, some, ◌==◌, if◌then◌else◌, suc,
}
use avacadovnc.Outcome.{Outcome, ok, err, panic, message}
use avacadovnc.Canvas.{Canvas, Rectangle, draw_bytes, copy, move_cursor}
use avacadovnc.Conn.{
  Conn, M, Encoding, aten_hermon, return, fail, done, gets, modify, or_wrap, resume, wrapped, ◌>>=◌,
  ◌>>◌, read_full, read_u8, read_u16, read_u32,
}
use avacadovnc.Conn.Access.{is_client, set_width, set_height, set_desktop_name, put_encoding}

abbrev painted : Outcome Canvas → Conn → Outcome (Unit {0}) × Conn
painted (ok k) c = (ok tt, record c { canvas = some k })
painted (err e) c = (err e, c)
painted (panic p) c = (panic p, c)

abbrev pub paint_on : Option Canvas → (Canvas → Outcome Canvas) → M (Unit {0})
paint_on none f c = (ok tt, c)
paint_on (some k) f c = painted (f k) c

-- `clientConn, ok := c.(*ClientConn)`, and nothing without a client connection or a canvas.
abbrev pub paint : (Canvas → Outcome Canvas) → M (Unit {0})
paint f c = if is_client c then paint_on c.canvas f c else (ok tt, c)

abbrev pub bytes_per_pixel : Conn → ℕ
bytes_per_pixel c = c.pixel_format.bpp

unfoldable pub raw_read : Rectangle → M (Unit {0})
raw_read rect = do
  bpp ← gets bytes_per_pixel
  if bpp == 0
      then fail (message "raw: bytes per pixel is zero")
      else (if rect.width * rect.height * bpp == 0 then done else (do
        pixel_data ←
            or_wrap "raw: failed to read pixel data" (read_full (rect.width * rect.height * bpp))
        paint (draw_bytes pixel_data rect)))

pub copy_rect_read : Rectangle → M (Unit {0})
copy_rect_read rect = do
  src_x ← or_wrap "copyrect: failed to read source X" read_u16
  src_y ← or_wrap "copyrect: failed to read source Y" read_u16
  paint (λ k. ok (copy src_x src_y rect.x rect.y rect.width rect.height k))

pub desktop_name_read : Rectangle → M (Unit {0})
desktop_name_read rect = do
  name_length ← or_wrap "desktop-name: failed to read name length" read_u32
  name ← or_wrap "desktop-name: failed to read name" (read_full name_length)
  set_desktop_name name

-- The canvas keeps its size.
unfoldable pub desktop_size_read : Rectangle → M (Unit {0})
desktop_size_read rect = do set_width rect.width; set_height rect.height; done

unfoldable pub pointer_pos_read : Rectangle → M (Unit {0})
pointer_pos_read rect = do
  for_client ← gets is_client
  if for_client
      then paint (λ k. ok (move_cursor rect.x rect.y k))
      else fail (message "pointer-pos: connection is not a client connection")

unfoldable aten_hermon_subrect_read : Rectangle → M (Unit {0})
aten_hermon_subrect_read rect =
    or_wrap "aten-hermon-subrect: failed to read data" (read_full 8) >> done

-- `i` is the place of the encoding among those of the connection, and `n` the number of its
-- sub-encodings so far.
unfoldable pub aten_hermon_read : ℕ → ℕ → Rectangle → M (Unit {0})
unfolding aten_hermon_subrect_read
aten_hermon_read i n rect = do
  sub_encoding ← or_wrap "aten-hermon: failed to read sub-encoding type" read_u8
  if sub_encoding == 129
      then (put_encoding i (aten_hermon (suc n)) >> aten_hermon_subrect_read rect)
      else fail (message "aten-hermon: unsupported sub-encoding")
