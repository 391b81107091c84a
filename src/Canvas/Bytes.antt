-- ===== src/Canvas/Bytes.antt =====
-- `DrawBytes` of canvas.go, on data of four bytes for each pixel.
use avacadovnc.Common.{
  ℕ, zero, suc, ◌+◌, ◌-◌, ◌*◌, ◌<◌, ◌≤◌, ◌≡◌, List, length, arith, if◌then◌else◌, ◌&&◌, false, ltb,
  [], ◌∷◌, ◌++◌, get_or, true, refl, Bool-cases, inl, inr,
}
use native.Mathlib.Numerals.{unary_clauses}
use avacadovnc.Outcome.{ok}
use avacadovnc.Canvas.{
  Canvas, Rectangle, Bounds, draw_bytes, draw_bytes_at, too_short, rect_bounds, rgba_at, on_canvas,
  clip, drawn,
}
use avacadovnc.Canvas.Fill.{Fits, covers}

clip-le : (lo hi limit size : ℕ) → clip lo hi limit size ≤ size
clip-le lo hi limit size = ground arith

last_row : (dx dy w h : ℕ) → dx ≤ w → dy ≤ h → 0 < dy → ((dy - 1) * w + dx) * 4 ≤ w * h * 4
last_row dx zero w h hx hy pos = absurd (omega arith)
last_row dx (suc d) w h hx hy pos = grind arith

-- The canvas after `DrawBytes` of data that is long enough.
abbrev pub blit : List ℕ → Rectangle → Canvas → Canvas
blit pix r c = record c {
  pixel = λ x y.
      if on_canvas c x y && covers r x y
      then rgba_at pix (((y - r.y) * r.width + (x - r.x)) * 4)
      else c.pixel x y;
}

abbrev plain_bounds : Rectangle → Bounds
plain_bounds r = record { min_x = r.x; min_y = r.y; max_x = r.x + r.width; max_y = r.y + r.height }

rect_bounds-Fits : (r : Rectangle) → Fits r → rect_bounds r ≡ plain_bounds r
unfolding rect_bounds
rect_bounds-Fits r f = ground arith

-- Four bytes for each pixel are never too short.
too_short-full :
    (pix : List ℕ) (r : Rectangle) (b : Bounds) (c : Canvas)
    → r.width * r.height * 4 ≤ length pix
    → too_short pix r b c ≡ false
unfolding too_short
too_short-full pix r b c h =
    let dx = clip b.min_x b.max_x c.width r.width in
    let dy = clip b.min_y b.max_y c.height r.height in
    let wide = clip-le b.min_x b.max_x c.width r.width in
    let high = clip-le b.min_y b.max_y c.height r.height in go dx dy wide high
  where
    go :
        (dx dy : ℕ)
        → dx ≤ r.width
        → dy ≤ r.height
        → ((ltb 0 dx && ltb 0 dy) && ltb (length pix) (((dy - 1) * r.width + dx) * 4)) ≡ false
    go dx dy hx hy = ground (arith, last_row dx dy r.width r.height hx hy)

blit-pixel :
    (pix : List ℕ) (r : Rectangle) (c : Canvas) (x y : ℕ)
    → (if drawn c (plain_bounds r) r.width r.height x y
        then rgba_at pix (((y - r.y) * r.width + (x - r.x)) * 4)
        else c.pixel x y)
      ≡ (blit pix r c).pixel x y
blit-pixel pix r c x y = ground arith

-- For a rectangle whose far corner is below 65536 and data of at least four bytes for each pixel, the
-- call does not panic: a pixel of the rectangle on the canvas gets its four bytes, in row order, and
-- every other pixel and the cursor stay.
pub draw_bytes-blit :
    (pix : List ℕ) (r : Rectangle) (c : Canvas)
    → Fits r
    → r.width * r.height * 4 ≤ length pix
    → draw_bytes pix r c ≡ ok (blit pix r c)
unfolding draw_bytes draw_bytes_at
draw_bytes-blit pix r c f h =
    rw (rect_bounds-Fits r f, too_short-full pix r (plain_bounds r) c h)
      (λ i. ok (record c { pixel = λ x y. blit-pixel pix r c x y i }))

get_or-append : (xs ys : List ℕ) (i d : ℕ) → i < length xs → get_or (xs ++ ys) i d ≡ get_or xs i d
get_or-append [] ys i d h = absurd (omega arith)
get_or-append (x ∷ xs) ys zero d h = refl
get_or-append (x ∷ xs) ys (suc i) d h = get_or-append xs ys i d (omega arith)

rgba_at-append :
    (pix more : List ℕ) (i : ℕ) → i + 3 < length pix → rgba_at (pix ++ more) i ≡ rgba_at pix i
rgba_at-append pix more i h =
    rw
      (
        get_or-append pix more i 0 (omega arith),
        get_or-append pix more (i + 1) 0 (omega arith),
        get_or-append pix more (i + 2) 0 (omega arith),
        get_or-append pix more (i + 3) 0 h,
      )
      refl

last_place : (dx dy w h : ℕ) → dx < w → dy < h → (dy * w + dx) * 4 + 3 < w * h * 4
last_place dx dy w h hx hy =
    let row = simp unary_clauses at (last_row (suc dx) (suc dy) w h hx hy (omega arith)) in
    omega (arith, row)

inner_index :
    (r : Rectangle) (x y : ℕ)
    → covers r x y ≡ true
    → ((y - r.y) * r.width + (x - r.x)) * 4 + 3 < r.width * r.height * 4
inner_index r x y h = last_place (x - r.x) (y - r.y) r.width r.height (ground arith) (ground arith)

-- What comes behind four bytes for each pixel is not drawn.
pub blit-append :
    (pix more : List ℕ) (r : Rectangle) (c : Canvas)
    → length pix ≡ r.width * r.height * 4
    → blit (pix ++ more) r c ≡ blit pix r c
blit-append pix more r c h = λ i. record c { pixel = λ x y. at_point x y i }
  where
    at_point : (x y : ℕ) → (blit (pix ++ more) r c).pixel x y ≡ (blit pix r c).pixel x y
    at_point x y = elim (Bool-cases (covers r x y)) [
      | inl inner ↦
          rw
            (rgba_at-append pix more (((y - r.y) * r.width + (x - r.x)) * 4)
              (omega (arith, inner_index r x y inner)))
            refl
      | inr outer ↦ rw outer (ground arith)
    ]
