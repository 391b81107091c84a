-- ===== src/Images/Scans.antt =====
-- The loops of `Opaque` find out whether all the bytes that they look at are 0xff.
use avacadovnc.Common.{
  ℕ, zero, suc, ◌+◌, ◌*◌, ◌<◌, ◌≡◌, ◌≢◌, ◌⊎◌, refl, sym, ◌∙◌, inl, inr, ap, List, Bool, true, false,
  if◌then◌else◌, ◌==◌, arith, Bool-cases,
}
use native.Mathlib.Nat.{suc-mul}
use avacadovnc.Outcome.{Outcome, ok}
use avacadovnc.Images.{Image, byte_of, row_full, rows_full, and_then}

-- A scan of `n` bytes gives true where all are 0xff, and false where one is not.
abbrev Scan : List ℕ → Outcome Bool → ℕ → (ℕ → ℕ) → Type 0
Scan array o n place =
    ((o ≡ ok true) × ((k : ℕ) → k < n → byte_of array (place k) ≡ 255))
    ⊎ ((o ≡ ok false) × ((k : ℕ) × (k < n) × (byte_of array (place k) ≢ 255)))

-- A scan of the first, and then of the others.
cons-Scan :
    (array : List ℕ) (o rest : Outcome Bool) (n : ℕ) (place later : ℕ → ℕ)
    → o ≡ (if byte_of array (place 0) == 255 then rest else ok false)
    → ((k : ℕ) → later k ≡ place (suc k))
    → Scan array rest n later
    → Scan array o (suc n) place
cons-Scan array o rest n place later e same scan =
    elim (Bool-cases (byte_of array (place 0) == 255)) [
      | inl full ↦ elim scan [
        | inl (good, all) ↦
            inl (
              ground arith,
              each (ground arith) (λ k h. ap (byte_of array) (sym (same k)) ∙ all k h),
            )
        | inr (bad, (k, low, odd)) ↦
            inr (ground arith, (suc k, omega arith, λ f. odd (ap (byte_of array) (same k) ∙ f)))
      ]
      | inr odd ↦ inr (ground arith, (0, omega arith, λ f. ground arith))
    ]
  where
    each :
        byte_of array (place 0) ≡ 255
        → ((k : ℕ) → k < n → byte_of array (place (suc k)) ≡ 255)
        → (k : ℕ) → k < suc n
        → byte_of array (place k) ≡ 255
    each first others zero h = first
    each first others (suc k) h = others k (omega arith)

module _ (array : List ℕ) (p : Image) (size : ℕ) where
  next_place : (i k : ℕ) → p.start + (i + size + k * size) ≡ p.start + (i + suc k * size)
  next_place i k = omega (arith, suc-mul k size)

  row-Scan :
      (n i : ℕ)
      → ((k : ℕ) → k < n → i + k * size < p.len)
      → Scan array (row_full array p size n i) n (λ k. p.start + (i + k * size))
  unfolding row_full
  row-Scan zero i fits = inl (refl, λ k h. omega arith)
  row-Scan (suc n) i fits =
      let first : i < p.len = omega (arith, fits 0 (omega arith)) in
      cons-Scan array (row_full array p size (suc n) i) (row_full array p size n (i + size)) n
        (λ k. p.start + (i + k * size)) (λ k. p.start + (i + size + k * size)) (ground arith)
        (next_place i)
        (row-Scan n (i + size) (λ k h. omega (arith, next_place i k, fits (suc k) (omega arith))))

abbrev pub ScanRows : List ℕ → Outcome Bool → ℕ → ℕ → (ℕ → ℕ → ℕ) → Type 0
ScanRows array o rows n place =
    ((o ≡ ok true) × ((r k : ℕ) → r < rows → k < n → byte_of array (place r k) ≡ 255))
    ⊎ ((o ≡ ok false)
        × ((r : ℕ) × (k : ℕ) × (r < rows) × (k < n) × (byte_of array (place r k) ≢ 255)))

cons_rows :
    (array : List ℕ) (o first rest : Outcome Bool) (rows n : ℕ) (own : ℕ → ℕ)
    (place later : ℕ → ℕ → ℕ)
    → o ≡ and_then first rest
    → ((k : ℕ) → own k ≡ place 0 k)
    → ((r k : ℕ) → later r k ≡ place (suc r) k)
    → Scan array first n own
    → ScanRows array rest rows n later
    → ScanRows array o (suc rows) n place
cons_rows array o first rest rows n own place later e mine same (inr (bad, (k, low, odd))) others =
    inr (
      e ∙ ap (λ (f : Outcome Bool). and_then f rest) bad,
      (0, k, omega arith, low, λ f. odd (ap (byte_of array) (mine k) ∙ f)),
    )
cons_rows array o first rest rows n own place later e mine same (inl (good, all))
      (inr (bad, (r, k, high, low, odd))) =
    inr (
      e ∙ ap (λ (f : Outcome Bool). and_then f rest) good ∙ bad,
      (suc r, k, omega arith, low, λ f. odd (ap (byte_of array) (same r k) ∙ f)),
    )
cons_rows array o first rest rows n own place later e mine same (inl (good, all))
      (inl (fine, more)) =
    inl (e ∙ ap (λ (f : Outcome Bool). and_then f rest) good ∙ fine, each)
  where
    each : (r k : ℕ) → r < suc rows → k < n → byte_of array (place r k) ≡ 255
    each zero k high low = ap (byte_of array) (sym (mine k)) ∙ all k low
    each (suc r) k high low = ap (byte_of array) (sym (same r k)) ∙ more r k (omega arith) low

module _ (array : List ℕ) (p : Image) (size n : ℕ) where
  abbrev pub place_in : ℕ → ℕ → ℕ → ℕ
  place_in i r k = p.start + (i + r * p.stride + k * size)

  pub rows_scan :
      (rows i : ℕ)
      → ((r k : ℕ) → r < rows → k < n → i + r * p.stride + k * size < p.len)
      → ScanRows array (rows_full array p size rows n i) rows n (place_in i)
  unfolding rows_full
  rows_scan zero i fits = inl (refl, λ r k h g. omega arith)
  rows_scan (suc rows) i fits =
      cons_rows array (rows_full array p size (suc rows) n i) (row_full array p size n i)
        (rows_full array p size rows n (i + p.stride)) rows n (λ k. p.start + (i + k * size))
        (place_in i) (place_in (i + p.stride)) refl (λ k. omega arith)
        (λ r k. omega (arith, suc-mul r p.stride))
        (row-Scan array p size n i (λ k h. omega (arith, fits 0 k (omega arith) h)))
        (rows_scan rows (i + p.stride)
          (λ r k h g. omega (arith, suc-mul r p.stride, fits (suc r) k (omega arith) g)))
