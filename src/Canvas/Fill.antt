-- ===== src/Canvas/Fill.antt =====
-- Where `Fill` of canvas.go paints, and where it leaves the canvas alone.
use avacadovnc.Common.{ℕ, ◌+◌, ◌<◌, ◌≤◌, ◌≡◌, List, arith, if◌then◌else◌, ltb, leb, ◌&&◌, Bool}
use avacadovnc.Canvas.{Canvas, Rectangle, fill, fill_rgba, rect_bounds, on_canvas}

-- The point lies in the rectangle, with sums that do not wrap.
abbrev pub covers : Rectangle → ℕ → ℕ → Bool
covers r x y = (leb r.x x && ltb x (r.x + r.width)) && (leb r.y y && ltb y (r.y + r.height))

-- The sums of the rectangle fit a uint16.
abbrev pub Fits : Rectangle → Type 0
Fits r = (r.x + r.width < 65536) × (r.y + r.height < 65536)

-- For a rectangle whose far corner is below 65536: after `Fill` a pixel has the new colour if it is
-- on the canvas and in the rectangle, and its old colour if not.
pixel-fill :
    (bytes : List ℕ) (r : Rectangle) (c : Canvas) (x y : ℕ)
    → Fits r
    → (fill bytes r c).pixel x y
      ≡ (if on_canvas c x y && covers r x y then fill_rgba bytes else c.pixel x y)
unfolding fill rect_bounds
pixel-fill bytes r c x y f = ground arith

-- For a rectangle that starts below 65536 and whose right edge is at 65536 or beyond, `Fill` leaves
-- every pixel from the rectangle's left edge on as it was.
fill_wrapped :
    (bytes : List ℕ) (r : Rectangle) (c : Canvas) (x y : ℕ)
    → r.x < 65536
    → r.width < 65536
    → 65536 ≤ r.x + r.width
    → r.x ≤ x
    → (fill bytes r c).pixel x y ≡ c.pixel x y
unfolding fill rect_bounds
fill_wrapped bytes r c x y hx hw far h = ground arith
