-- ===== src/Canvas/Copy.antt =====
-- `Copy` of canvas.go moves a rectangle of pixels, and reads each before it is overwritten.
use avacadovnc.Common.{ℕ, ◌+◌, ◌-◌, ◌<◌, ◌≤◌, ◌≡◌, arith, ◌⊎◌}
use avacadovnc.Canvas.{Canvas, copy}

add_sub_add : (d s i : ℕ) → d + i - d + s ≡ s + i
add_sub_add d s i = omega arith

-- A pixel of the target whose source is on the canvas gets the source's old colour, also where the
-- two rectangles overlap.
copy_moves :
    (c : Canvas) (src_x src_y dst_x dst_y w h i j : ℕ)
    → i < w
    → j < h
    → dst_x + i < c.width
    → dst_y + j < c.height
    → src_x + i < c.width
    → src_y + j < c.height
    → (copy src_x src_y dst_x dst_y w h c).pixel (dst_x + i) (dst_y + j)
      ≡ c.pixel (src_x + i) (src_y + j)
unfolding copy
copy_moves c src_x src_y dst_x dst_y w h i j hi hj tx ty sx sy =
    rw (add_sub_add dst_x src_x i, add_sub_add dst_y src_y j) (ground arith)

-- A pixel outside of the target keeps its colour.
copy_keeps :
    (c : Canvas) (src_x src_y dst_x dst_y w h x y : ℕ)
    → (x < dst_x) ⊎ ((dst_x + w ≤ x) ⊎ ((y < dst_y) ⊎ (dst_y + h ≤ y)))
    → (copy src_x src_y dst_x dst_y w h c).pixel x y ≡ c.pixel x y
unfolding copy
copy_keeps c src_x src_y dst_x dst_y w h x y out = ground arith
