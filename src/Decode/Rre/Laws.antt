-- ===== src/Decode/Rre/Laws.antt =====
-- RRE and CoRRE: the background, and the sub-rectangles that can never be read.
use avacadovnc.Common.{ℕ, suc, ◌≡◌, ◌≢◌, List, ◌++◌, true, some, length, arith, refl}
use avacadovnc.Wire.{IsU32, be32}
use avacadovnc.Outcome.{ok}
use avacadovnc.Canvas.{Canvas, Rectangle, fill}
use avacadovnc.Conn.{Conn, read_full, binary_invalid}
use avacadovnc.Conn.Access.{is_client}
use avacadovnc.Conn.Rules.{Fails}
use avacadovnc.Conn.Reads.{read_full_given, read_u32_given}
use avacadovnc.Decode.Rre.{
  rre_read, corre_read, rre_body, sub_rects, sub_rect, Texts, rre_texts, corre_texts,
}

-- On a client with a canvas and a pixel format that is not empty, a rectangle with no
-- sub-rectangles takes its background and leaves the rest of the stream.
pub rre_read_background :
    (r : Rectangle) (c : Conn) (k : Canvas) (colour rest : List ℕ)
    → is_client c ≡ true
    → c.canvas ≡ some k
    → c.pixel_format.bpp ≢ 0
    → length colour ≡ c.pixel_format.bpp
    → c.input ≡ be32 0 ++ (colour ++ rest)
    → (rre_read r c ≡ (ok tt, record c { input = rest; canvas = some (fill colour r k) }))
      × (corre_read r c ≡ (ok tt, record c { input = rest; canvas = some (fill colour r k) }))
unfolding rre_read corre_read rre_body sub_rects
rre_read_background r c k colour rest isc hk hb len inp = ground (
  arith,
  read_u32_given 0 (colour ++ rest) c inp,
  read_full_given c.pixel_format.bpp colour rest (record c { input = colour ++ rest }) refl len,
)

sub_rects-Fails :
    (texts : Texts) (n bpp : ℕ) (r : Rectangle) (c : Conn) → Fails (sub_rects texts (suc n) bpp r c)
unfolding sub_rects sub_rect binary_invalid read_full
sub_rects-Fails texts n bpp r c = ground arith

rre_body-Fails :
    (texts : Texts) (n : ℕ) (r : Rectangle) (c : Conn) → Fails (rre_body texts (suc n) r c)
unfolding rre_body
rre_body-Fails texts n r c = grind (arith, sub_rects-Fails)

-- On a client a rectangle that announces sub-rectangles is never decoded, whatever the stream holds;
-- the same is true of CoRRE on a client with a canvas.
pub rre_read_sub_rects :
    (r : Rectangle) (c : Conn) (k : Canvas) (n : ℕ) (rest : List ℕ)
    → is_client c ≡ true
    → c.canvas ≡ some k
    → IsU32 (suc n)
    → c.input ≡ be32 (suc n) ++ rest
    → Fails (rre_read r c) × Fails (corre_read r c)
unfolding rre_read corre_read
rre_read_sub_rects r c k n rest isc hk small inp = ground (
  arith,
  read_u32_given (suc n) rest c inp small,
  rre_body-Fails rre_texts n r (record c { input = rest }),
  rre_body-Fails corre_texts n r (record c { input = rest }),
)
