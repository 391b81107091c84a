-- ===== src/Decode/Dispatch.antt =====
-- `Encoding.Read` on the dynamic type of the encoding; `Rectangle.Read` and `Rectangle.Write`
-- (encoding_types.go, lines 176 to 251).
pub mod Laws
use avacadovnc.Common.{
  ℕ, zero, suc, ◌+◌, ◌*◌, List, [], ◌∷◌, ◌++◌, Option, none, some, ◌==◌, if◌then◌else◌,
}
use avacadovnc.Wire.{be16, be32}
use avacadovnc.Outcome.{Outcome, ok, err, panic, message, stack_overflow}
use avacadovnc.Canvas.{Rectangle}
use avacadovnc.Conn.{
  Conn, M, Encoding, raw, copy_rect, rre, corre, hextile, cursor, xcursor, pointer_pos,
  desktop_name, desktop_size, zlib, zrle, tight, tight_png, aten_hermon, return, fail, crash, done,
  gets, resume, ◌>>=◌, ◌>>◌, read_u16, read_u32, write,
}
use avacadovnc.Conn.Access.{get_enc_instance}
use avacadovnc.Decode.Plain.{
  raw_read, copy_rect_read, desktop_name_read, desktop_size_read, pointer_pos_read,
  aten_hermon_read,
}
use avacadovnc.Decode.Rre.{rre_read, corre_read}
use avacadovnc.Decode.Hextile.{hextile_read}
use avacadovnc.Decode.Inflate.{Codecs, zlib_read}
use avacadovnc.Decode.Zrle.{zrle_read}
use avacadovnc.Decode.Tight.{tight_read, tight_png_read}
use avacadovnc.Decode.Cursors.{cursor_read, xcursor_read}

-- `enc.Read(c, rect)` for the encoding at place `i` of the connection.
unfoldable pub encoding_read : Codecs → ℕ → Encoding → Rectangle → M (Unit {0})
encoding_read cod i raw rect = raw_read rect
encoding_read cod i copy_rect rect = copy_rect_read rect
encoding_read cod i rre rect = rre_read rect
encoding_read cod i corre rect = corre_read rect
encoding_read cod i hextile rect = hextile_read rect
encoding_read cod i cursor rect = cursor_read rect
encoding_read cod i xcursor rect = xcursor_read rect
encoding_read cod i pointer_pos rect = pointer_pos_read rect
encoding_read cod i desktop_name rect = desktop_name_read rect
encoding_read cod i desktop_size rect = desktop_size_read rect
encoding_read cod i (zlib s) rect = zlib_read cod i s rect
encoding_read cod i (zrle s) rect = zrle_read cod i s rect
encoding_read cod i (tight zs) rect = tight_read cod i zs rect
encoding_read cod i tight_png rect = tight_png_read cod rect
encoding_read cod i (aten_hermon n) rect = aten_hermon_read i n rect

unfoldable pub found_read : Codecs → Option (ℕ × Encoding) → Rectangle → M (Unit {0})
found_read cod none rect = fail (message "unsupported encoding")
found_read cod (some (i, e)) rect = encoding_read cod i e rect

-- Two pseudo-encodings need no entry in the list of the connection.
unfoldable rectangle_dispatch : Codecs → Rectangle → M (Unit {0})
rectangle_dispatch cod rect =
    if rect.enc_type == 4294967073
    then desktop_size_read rect
    else if rect.enc_type == 4294966989
    then desktop_name_read rect
    else (gets (get_enc_instance rect.enc_type) >>= λ e. found_read cod e rect)

-- The five fields of the header, one after the other.
pub read_header : M Rectangle
read_header = do
  x ← read_u16
  y ← read_u16
  width ← read_u16
  height ← read_u16
  enc_type ← read_u32
  return (record { x = x; y = y; width = width; height = height; enc_type = enc_type })

unfoldable rectangle_read : Codecs → M (Unit {0})
rectangle_read cod = do rect ← read_header; rectangle_dispatch cod rect

abbrev pub header_bytes : Rectangle → List ℕ
header_bytes r = be16 r.x ++ (be16 r.y ++ (be16 r.width ++ (be16 r.height ++ be32 r.enc_type)))

pub write_header : Rectangle → M (Unit {0})
write_header r = do
  write (be16 r.x)
  write (be16 r.y)
  write (be16 r.width)
  write (be16 r.height)
  write (be32 r.enc_type)

-- `Rectangle.Write` ends in a call of itself; `depth` is the room on the stack.
pub rectangle_write : ℕ → Rectangle → M (Unit {0})
rectangle_write zero r = crash stack_overflow
rectangle_write (suc depth) r = write_header r >> rectangle_write depth r

unfoldable area : Rectangle → ℕ
area r = r.width * r.height
