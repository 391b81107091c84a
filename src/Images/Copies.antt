-- ===== src/Images/Copies.antt =====
-- `NewFromImage` shows what its source shows.
use avacadovnc.Common.{ℕ, ◌≡◌, List, Bool, ◌&&◌, if◌then◌else◌, ℤ, shift, leb_ℤ, ltb_ℤ, eqb_ℤ}
use avacadovnc.Outcome.{Outcome, ok}
use avacadovnc.Canvas.{Rgba}
use avacadovnc.Images.{Area, Image, within, dx, at, AnyColor, converted}
use avacadovnc.Images.Laws.{IsImage}

-- The first `n` points of a row from `x` on.
abbrev in_row : ℤ → ℕ → ℤ → ℤ → ℤ → Bool
in_row x n y u w = eqb_ℤ w y && (leb_ℤ x u && ltb_ℤ u (shift x n))

-- The first `n` rows from `y` on.
abbrev in_rows : Area → ℕ → ℤ → ℤ → ℤ → Bool
in_rows r n y u w =
    (leb_ℤ r.min_x u && ltb_ℤ u (shift r.min_x (dx r))) && (leb_ℤ y w && ltb_ℤ w (shift y n))

module _ {A : Type 0} (convert : A → Rgba) (source : ℤ → ℤ → AnyColor A) (p : Image) where
  abbrev shown : ℤ → ℤ → Rgba
  shown u w = converted convert (source u w)

  -- After a drawing the image shows the source at the points of `part`, and what it showed before at the others.
  abbrev Draws : (ℤ → ℤ → Bool) → List ℕ → Outcome (List ℕ) → Type 0
  Draws part array o =
      (after : List ℕ) × (o ≡ ok after)
      × IsImage 4 after p
      × ((u w : ℤ)
          → at after p u w
            ≡ (if within p.rect u w && part u w then ok (shown u w) else at array p u w))
