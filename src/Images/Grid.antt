-- ===== src/Images/Grid.antt =====
-- The points of an image by their row and column.
use avacadovnc.Common.{ℕ, ◌<◌, ◌≡◌, refl, true, ◌&&◌, arith, ℤ, above, shift, leb_ℤ, ltb_ℤ}
use avacadovnc.Images.{Image, within, dx, dy}

pub above-shift : (a : ℤ) (k : ℕ) → above (shift a k) a ≡ k
above-shift a k = ground arith

shift_inside :
    (a b : ℤ) (k : ℕ) → k < above b a → (leb_ℤ a (shift a k) && ltb_ℤ (shift a k) b) ≡ true
shift_inside a b k h = ground arith

-- The point in a row and a column.
abbrev pub point_x : Image → ℕ → ℤ
point_x p k = shift p.rect.min_x k

abbrev pub point_y : Image → ℕ → ℤ
point_y p r = shift p.rect.min_y r

pub within-point :
    (p : Image) (r k : ℕ)
    → r < dy p.rect
    → k < dx p.rect
    → within p.rect (point_x p k) (point_y p r) ≡ true
within-point p r k h g =
    rw (shift_inside p.rect.min_x p.rect.max_x k g, shift_inside p.rect.min_y p.rect.max_y r h) refl
