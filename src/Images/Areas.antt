-- ===== src/Images/Areas.antt =====
-- The points of an intersection of two rectangles, and its place in the second one.
use avacadovnc.Common.{
  ◌+◌, ◌-◌, ◌≤◌, ◌≡◌, refl, Bool, true, false, ◌&&◌, ◌||◌, arith, ℤ, above, leb_ℤ, ltb_ℤ, max_ℤ,
  min_ℤ,
}
use avacadovnc.Images.{Area, within, is_empty, meet, dx, dy}

-- The points between two ends.
abbrev between : ℤ → ℤ → ℤ → Bool
between lo hi x = leb_ℤ lo x && ltb_ℤ x hi

between-max : (a b c d x : ℤ) → between (max_ℤ a c) (min_ℤ b d) x ≡ (between a b x && between c d x)
between-max a b c d x = ground arith

both_axes : (a b c d : Bool) → ((a && b) && (c && d)) ≡ ((a && c) && (b && d))
both_axes a b c d = ground arith

pub within-empty : (r : Area) (x y : ℤ) → is_empty r ≡ true → within r x y ≡ false
within-empty r x y h = ground arith

-- The points of an intersection.
pub meet_points : (r s : Area) (x y : ℤ) → within (meet r s) x y ≡ (within r x y && within s x y)
meet_points r s x y =
    rw
      (between-max r.min_x r.max_x s.min_x s.max_x x, between-max r.min_y r.max_y s.min_y s.max_y y)
      (both_axes (between r.min_x r.max_x x) (between s.min_x s.max_x x) (between r.min_y r.max_y y)
        (between s.min_y s.max_y y))

-- The part is not wider or higher than what is left of the rectangle.
axis_room :
    (a b c d : ℤ)
    → leb_ℤ (min_ℤ b d) (max_ℤ a c) ≡ false
    → (leb_ℤ d c ≡ false)
      × (between c d (max_ℤ a c) ≡ true)
      × (above (max_ℤ a c) c + above (min_ℤ b d) (max_ℤ a c) ≤ above d c)
      × (1 ≤ above (min_ℤ b d) (max_ℤ a c))
axis_room a b c d h = ground arith

neither : (a b : Bool) → (a || b) ≡ false → (a ≡ false) × (b ≡ false)
neither a b h = ground arith

pub part_room :
    (r s : Area)
    → is_empty (meet r s) ≡ false
    → (is_empty s ≡ false)
      × (within s (meet r s).min_x (meet r s).min_y ≡ true)
      × (above (meet r s).min_x s.min_x + dx (meet r s) ≤ dx s)
      × (above (meet r s).min_y s.min_y + (dy (meet r s) - 1) ≤ dy s - 1)
part_room r s h =
    let t : Area = meet r s in
    let (some_x, some_y) = neither (leb_ℤ t.max_x t.min_x) (leb_ℤ t.max_y t.min_y) h in
    let (x_points, x_here, x_room, x_some) = axis_room r.min_x r.max_x s.min_x s.max_x some_x in
    let (y_points, y_here, y_room, y_some) = axis_room r.min_y r.max_y s.min_y s.max_y some_y in
    (rw (x_points, y_points) refl, rw (x_here, y_here) refl, x_room, omega (arith, y_room, y_some))
