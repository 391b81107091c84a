-- ===== src/Decode/Cursors/Picture.antt =====
-- The picture that an XCursor rectangle gives, where the cursor is a square.
use native.Mathlib.Nat.{
  div-eq_of_lt, mod-eq_of_lt, mul-add-div_right, mul-add-mod_self_right, div-add-mod,
}
use avacadovnc.Common.{
  ℕ, zero, suc, ◌+◌, ◌*◌, ◌/◌, ◌%◌, ◌<◌, ◌≡◌, ◌≢◌, ◌∙◌, refl, sym, ap, List, [], ◌∷◌, ◌++◌, Option,
  none, some, true, get_elem?, length, arith, All, map, append_assoc,
}
use avacadovnc.Wire.{IsU16, be16}
use avacadovnc.Outcome.{ok}
use avacadovnc.Canvas.{Canvas, Cursor, Rectangle, Rgba, transparent, set_cursor}
use avacadovnc.Conn.{Conn}
use avacadovnc.Conn.Access.{is_client}
use avacadovnc.Conn.Reads.{read_full_given, read_u16_given}
use avacadovnc.Decode.Cursors.{
  put_value, xcursor_loop, reds, xcursor_of, xcursor_read, read_palette, read_entry, num_pixels,
}

column : (n x y : ℕ) → x < n → (y * n + x) % n ≡ x
column n x y h = mul-add-mod_self_right y n x ∙ mod-eq_of_lt h

row : (n x y : ℕ) → x < n → (y * n + x) / n ≡ y
row n x y h =
    let quotient : (y * n + x) / n ≡ y + x / n = mul-add-div_right {m = n} (omega arith) y x in
    omega (arith, quotient, div-eq_of_lt h)

-- The value of a place, or what was there.
abbrev or_old {ℓ} : {A : Type ℓ} → Option A → A → A
or_old none d = d
or_old (some v) d = v

module _ {ℓ} {A : Type ℓ} (value : ℕ → Option A) (rect : Rectangle) (n x y : ℕ) (w : rect.width ≡ n)
    (h : rect.height ≡ n) (inside : x < n) where
  put_here :
      (v : Option A) (f : ℕ → ℕ → A)
      → put_value v ((y * n + x) % rect.width) ((y * n + x) / rect.height) f x y ≡ or_old v (f x y)
  put_here none f = refl
  put_here (some v) f = rw (w, h) (ground (arith, column n x y inside, row n x y inside))

  put_at :
      (i : ℕ) (v : Option A) (f : ℕ → ℕ → A)
      → i ≡ y * n + x
      → put_value v (i % rect.width) (i / rect.height) f x y ≡ or_old v (f x y)
  put_at i v f e = rw e (put_here v f)

  same_cell : (i : ℕ) → x ≡ i % n → y ≡ i / n → i ≡ y * n + x
  same_cell i p q = rw (p, q) (omega (arith, div-add-mod i n))

  -- A write at another place of the square.
  put_there :
      (i : ℕ) (v : Option A) (f : ℕ → ℕ → A)
      → i ≢ y * n + x
      → put_value v (i % rect.width) (i / rect.height) f x y ≡ f x y
  put_there i none f e = refl
  put_there i (some v) f e = rw (w, h) (grind (arith, same_cell i))

  loop_past :
      (i : ℕ) (ps : List ℕ) (f : ℕ → ℕ → A)
      → y * n + x < i
      → xcursor_loop value rect i ps f x y ≡ f x y
  unfolding xcursor_loop
  loop_past i [] f past = refl
  loop_past i (p ∷ ps) f past =
      loop_past (suc i) ps (put_value (value p) (i % rect.width) (i / rect.height) f) (omega arith)
      ∙ put_there i (value p) f (λ e. omega arith)

  -- The byte `k` places ahead gives the pixel its value.
  loop_at :
      (i k p : ℕ) (ps : List ℕ) (f : ℕ → ℕ → A)
      → y * n + x ≡ i + k
      → get_elem? ps k ≡ some p
      → xcursor_loop value rect i ps f x y ≡ or_old (value p) (f x y)
  unfolding xcursor_loop
  loop_at i k p [] f e g = cc
  loop_at i zero p (q ∷ ps) f e g =
      loop_past (suc i) ps (put_value (value q) (i % rect.width) (i / rect.height) f) (omega arith)
      ∙ put_at i (value q) f (omega arith)
      ∙ ap (λ (t : ℕ). or_old (value t) (f x y)) (ground arith)
  loop_at i (suc k) p (q ∷ ps) f e g =
      loop_at (suc i) k p ps (put_value (value q) (i % rect.width) (i / rect.height) f)
        (omega arith) g
      ∙ ap (or_old (value p)) (put_there i (value q) f (λ same. omega arith))

-- An entry of the palette as the server sends it: 16 bits for each component.
abbrev pub Entry : Type 0
Entry = ℕ × (ℕ × ℕ)

abbrev entry_bytes : Entry → List ℕ
entry_bytes (r, (g, b)) = be16 r ++ (be16 g ++ be16 b)

abbrev entry_colour : Entry → Rgba
entry_colour (r, (g, b)) = record { red = r / 256; green = g / 256; blue = b / 256; alpha = 255 }

abbrev IsEntry : Entry → Type 0
IsEntry (r, (g, b)) = IsU16 r × (IsU16 g × IsU16 b)

abbrev pub palette_bytes : List Entry → List ℕ
palette_bytes [] = []
palette_bytes (e ∷ es) = entry_bytes e ++ palette_bytes es

abbrev colours : List Entry → List Rgba
colours es = map entry_colour es

read_entry_given :
    (e : Entry) (rest : List ℕ) (c : Conn)
    → IsEntry e
    → c.input ≡ entry_bytes e ++ rest
    → read_entry c ≡ (ok (entry_colour e), record c { input = rest })
unfolding read_entry
read_entry_given (r, (g, b)) rest c (hr, (hg, hb)) inp =
    let i2 : List ℕ = be16 b ++ rest in
    let i1 : List ℕ = be16 g ++ i2 in
    let plain : c.input ≡ be16 r ++ i1 = inp ∙ simp append_assoc in
    ground (
      arith,
      read_u16_given r i1 c plain hr,
      read_u16_given g i2 (record c { input = i1 }) refl hg,
      read_u16_given b rest (record c { input = i2 }) refl hb,
    )

read_palette_given :
    (es : List Entry) (rest : List ℕ) (c : Conn)
    → All IsEntry es
    → c.input ≡ palette_bytes es ++ rest
    → read_palette (length es) c ≡ (ok (colours es), record c { input = rest })
unfolding read_palette
read_palette_given [] rest c h inp = ground (arith, inp)
read_palette_given (e ∷ es) rest c (h, hs) inp =
    let after : List ℕ = palette_bytes es ++ rest in
    let c1 : Conn = record c { input = after } in
    let first : read_entry c ≡ (ok (entry_colour e), c1) =
      read_entry_given e after c h (inp ∙ append_assoc (entry_bytes e) (palette_bytes es) rest) in
    let others = read_palette_given es rest c1 hs refl in rw (first, others) refl

-- The cursor shows the bytes: a byte is the place of its pixel's colour in the palette, and one that is no
-- place leaves the pixel transparent; the mask takes the red of the palette in the same way.
pub record IsShown (n : ℕ) (es : List Entry) (picture mask : List ℕ) (cur : Cursor) : Type 0 where
  pub wide : cur.width ≡ n
  pub high : cur.height ≡ n
  pub colour_at :
      (x y p : ℕ)
      → x < n
      → y < n
      → get_elem? picture (y * n + x) ≡ some p
      → cur.colour x y ≡ or_old (get_elem? (colours es) p) transparent
  pub mask_at :
      (x y p : ℕ)
      → x < n
      → y < n
      → get_elem? mask (y * n + x) ≡ some p
      → cur.mask x y ≡ or_old (reds (colours es) p) 0

xcursor_of-IsShown :
    (n : ℕ) (es : List Entry) (picture mask : List ℕ) (r : Rectangle)
    → r.width ≡ n
    → r.height ≡ n
    → IsShown n es picture mask (xcursor_of (colours es) picture mask r)
unfolding xcursor_of
xcursor_of-IsShown n es picture mask r w h = record {
  wide = w;
  high = h;
  colour_at = λ x y p hx hy at.
      let loop =
        loop_at (get_elem? (colours es)) r n x y w h hx 0 (y * n + x) p picture (λ a b. transparent)
          (omega arith) at in
      ground (arith, loop);
  mask_at = λ x y p hx hy at.
      let loop =
        loop_at (reds (colours es)) r n x y w h hx 0 (y * n + x) p mask (λ a b. 0) (omega arith)
          at in
      ground (arith, loop);
}

-- On a client with a canvas, for a square of fewer than 65536 pixels and a palette in range of at most 65535
-- colours: the decoder of XCursor takes the palette, the byte of each pixel and the byte of each place of
-- the mask, and leaves the rest; the canvas has a cursor with this picture and this mask then, with the
-- place of the rectangle as its hot spot, and is otherwise as it was.
pub xcursor_read_square :
    (r : Rectangle) (n : ℕ) (es : List Entry) (picture mask rest : List ℕ) (c : Conn) (k : Canvas)
    → is_client c ≡ true
    → c.canvas ≡ some k
    → r.width ≡ n
    → r.height ≡ n
    → n * n < 65536
    → IsU16 (length es)
    → All IsEntry es
    → length picture ≡ n * n
    → length mask ≡ n * n
    → c.input ≡ be16 (length es) ++ (palette_bytes es ++ (picture ++ (mask ++ rest)))
    → (cur : Cursor) × IsShown n es picture mask cur
      × (xcursor_read r c
          ≡ (ok tt, record c { input = rest; canvas = some (set_cursor cur r.x r.y k) }))
unfolding xcursor_read
xcursor_read_square r n es picture mask rest c k isc hk w h small few ranged lp lm inp =
    let i3 : List ℕ = mask ++ rest in
    let i2 : List ℕ = picture ++ i3 in
    let i1 : List ℕ = palette_bytes es ++ i2 in
    let pixels : num_pixels r ≡ n * n = rw (w, h) (omega arith) in
    let cur = xcursor_of (colours es) picture mask r in
    (
      cur,
      xcursor_of-IsShown n es picture mask r w h,
      ground (
        arith,
        read_u16_given (length es) i1 c inp few,
        read_palette_given es i2 (record c { input = i1 }) ranged refl,
        read_full_given (num_pixels r) picture i3 (record c { input = i2 }) refl (lp ∙ sym pixels),
        read_full_given (num_pixels r) mask rest (record c { input = i3 }) refl (lm ∙ sym pixels),
      ),
    )
