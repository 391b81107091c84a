-- ===== src/Decode/Rre.antt =====
-- encoding_rre.go and encoding_corre.go. `Rectangle` holds an interface, so binary.Read refuses it:
-- the read of a sub-rectangle's header is `binary_invalid`.
pub mod Laws
use avacadovnc.Common.{
  ℕ, zero, suc, ◌+◌, List, [], ◌∷◌, ◌++◌, Bool, true, false, Option, none, some, ◌==◌,
  if◌then◌else◌, ◌||◌, not, String,
}
use avacadovnc.Wire.{u16}
use avacadovnc.Outcome.{Outcome, ok, err, panic, message, wrap, invalid_type}
use avacadovnc.Canvas.{Canvas, Rectangle, fill}
use avacadovnc.Conn.{
  Conn, M, return, fail, done, gets, or_wrap, resume, wrapped, ◌>>=◌, ◌>>◌, read_full, read_u32,
  binary_invalid,
}
use avacadovnc.Conn.Access.{is_client}
use avacadovnc.Decode.Plain.{paint, bytes_per_pixel}

-- The two decoders differ in the texts of their errors.
pub record Texts : Type 0 where
  pub no_pixel_size : String
  pub no_background : String
  pub no_colour : String
  pub no_header : String

abbrev pub rre_texts : Texts
rre_texts = record {
  no_pixel_size = "rre: bytes per pixel is zero";
  no_background = "rre: failed to read background color";
  no_colour = "rre: failed to read sub-rectangle color";
  no_header = "rre: failed to read sub-rectangle header";
}

abbrev pub corre_texts : Texts
corre_texts = record {
  no_pixel_size = "corre: bytes per pixel is zero";
  no_background = "corre: failed to read background color";
  no_colour = "corre: failed to read sub-rectangle color";
  no_header = "corre: failed to read sub-rectangle header";
}

-- One round of the loop over the sub-rectangles.
pub sub_rect : Texts → ℕ → Rectangle → M (Unit {0})
sub_rect texts bpp rect = do
  colour ← or_wrap texts.no_colour (read_full bpp)
  sub ← or_wrap texts.no_header (binary_invalid {A = Rectangle})
  paint
      (λ k. ok (fill colour (record sub { x = u16 (sub.x + rect.x); y = u16 (sub.y + rect.y) }) k))

pub sub_rects : Texts → ℕ → ℕ → Rectangle → M (Unit {0})
sub_rects texts zero bpp rect = done
sub_rects texts (suc n) bpp rect = sub_rect texts bpp rect >> sub_rects texts n bpp rect

-- After the number of sub-rectangles and the checks: the background and the sub-rectangles.
pub rre_body : Texts → ℕ → Rectangle → M (Unit {0})
rre_body texts n rect = do
  bpp ← gets bytes_per_pixel
  if bpp == 0 then fail (message texts.no_pixel_size) else (do
    background ← or_wrap texts.no_background (read_full bpp)
    paint (λ k. ok (fill background rect k))
    sub_rects texts n bpp rect)

pub rre_read : Rectangle → M (Unit {0})
rre_read rect = do
  n ← or_wrap "rre: failed to read number of sub-rectangles" read_u32
  for_client ← gets is_client
  if for_client
      then rre_body rre_texts n rect
      else fail (message "rre: connection is not a client connection")

abbrev has_canvas : Conn → Bool
has_canvas c = if is_client c then elim c.canvas [ none ↦ false | some _ ↦ true ] else false

-- Without a canvas the decoder returns after the number, and leaves the rest of its data unread.
pub corre_read : Rectangle → M (Unit {0})
corre_read rect = do
  n ← or_wrap "corre: failed to read number of sub-rectangles" read_u32
  drawable ← gets has_canvas
  if drawable then rre_body corre_texts n rect else done
