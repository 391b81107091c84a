-- ===== src/Ppm/Frames.antt =====
-- The frames of an image.RGBA, which share the buffer `convImage`.
use avacadovnc.Common.{
  ℕ, zero, suc, ◌+◌, ◌*◌, ◌%◌, ◌≤◌, ◌<◌, ◌≡◌, refl, sym, ◌∙◌, inl, inr, ap, List, [], ◌∷◌, ◌++◌,
  Bool, true, none, some, if◌then◌else◌, leb, length, length-append, length-replicate, set, drop,
  arith, append_assoc, append-nil, Bool-cases,
}
use avacadovnc.Outcome.{Outcome, ok, panic, index_out_of_range}
use avacadovnc.Canvas.{Rgba}
use avacadovnc.Images.{Area, dx, dy}
use avacadovnc.Images.Points.{length-set}
use avacadovnc.Ppm.{
  rgba_image, ConvImage, Put, header, conv_loop, conv_start, put_conv, after_header, encode_rgba,
  encode_ppm,
}

-- The bytes of pixels in `Pix`, and in a PPM file.
abbrev pub pixel_bytes : List Rgba → List ℕ
pixel_bytes [] = []
pixel_bytes (c ∷ cs) = c.red ∷ c.green ∷ c.blue ∷ c.alpha ∷ pixel_bytes cs

abbrev pub color_bytes : List Rgba → List ℕ
color_bytes [] = []
color_bytes (c ∷ cs) = c.red ∷ c.green ∷ c.blue ∷ color_bytes cs

pub length-color_bytes : (cs : List Rgba) → length (color_bytes cs) ≡ 3 * length cs
length-color_bytes [] = refl
length-color_bytes (c ∷ cs) = omega (arith, length-color_bytes cs)

-- The four bytes of a pixel.
abbrev three_set : List ℕ → ℕ → Rgba → List ℕ
three_set conv count c =
    set (set (set conv count c.red) (suc count) c.green) (suc (suc count)) c.blue

length-three_set :
    (conv : List ℕ) (count : ℕ) (c : Rgba) → length (three_set conv count c) ≡ length conv
length-three_set conv count c = omega (
  arith,
  length-set conv count c.red,
  length-set (set conv count c.red) (suc count) c.green,
  length-set (set (set conv count c.red) (suc count) c.green) (suc (suc count)) c.blue,
)

loop_pixel :
    (i count : ℕ) (c : Rgba) (bs conv : List ℕ)
    → i % 4 ≡ 0
    → conv_loop i count (c.red ∷ c.green ∷ c.blue ∷ c.alpha ∷ bs) conv ≡ (
        if leb (count + 3) (length conv)
        then conv_loop (suc (suc (suc (suc i)))) (suc (suc (suc count))) bs (three_set conv count c)
        else panic index_out_of_range)
unfolding conv_loop
loop_pixel i count c bs conv h =
    ground
      (arith, length-set conv count c.red, length-set (set conv count c.red) (suc count) c.green)

three_set-append :
    (front back : List ℕ) (x y z : ℕ) (c : Rgba)
    → three_set (front ++ x ∷ y ∷ z ∷ back) (length front) c
      ≡ front ++ c.red ∷ c.green ∷ c.blue ∷ back
three_set-append [] back x y z c = refl
three_set-append (a ∷ front) back x y z c =
    ap (λ (l : List ℕ). a ∷ l) (three_set-append front back x y z c)

three_more : (n : ℕ) → suc (suc (suc (3 * n))) ≡ 3 * suc n
three_more n = omega arith

pixel_later : (i : ℕ) → i % 4 ≡ 0 → suc (suc (suc (suc i))) % 4 ≡ 0
pixel_later i h = omega arith

-- The loop over whole pixels, with the bytes before `count` in front.
loop_fills :
    (cs : List Rgba) (front back : List ℕ) (i : ℕ)
    → i % 4 ≡ 0
    → 3 * length cs ≤ length back
    → conv_loop i (length front) (pixel_bytes cs) (front ++ back)
      ≡ ok (front ++ (color_bytes cs ++ drop (3 * length cs) back))
unfolding conv_loop
loop_fills [] front back i h room = refl
loop_fills (c ∷ cs) front [] i h room = ground arith
loop_fills (c ∷ cs) front (x ∷ []) i h room = ground arith
loop_fills (c ∷ cs) front (x ∷ y ∷ []) i h room = ground arith
loop_fills (c ∷ cs) front (x ∷ y ∷ z ∷ back) i h room =
    let front' : List ℕ = front ++ c.red ∷ c.green ∷ c.blue ∷ [] in
    let fits : leb (length front + 3) (length (front ++ x ∷ y ∷ z ∷ back)) ≡ true =
      ground (arith, length-append front (x ∷ y ∷ z ∷ back)) in
    let count' : suc (suc (suc (length front))) ≡ length front' =
      omega (arith, length-append front (c.red ∷ c.green ∷ c.blue ∷ [])) in
    let later : List ℕ → Outcome (List ℕ) = λ l.
      conv_loop (suc (suc (suc (suc i)))) (suc (suc (suc (length front)))) (pixel_bytes cs) l in
    loop_pixel i (length front) c (pixel_bytes cs) (front ++ x ∷ y ∷ z ∷ back) h
    ∙ ap
        (λ (b : Bool).
          if b
          then later (three_set (front ++ x ∷ y ∷ z ∷ back) (length front) c)
          else panic index_out_of_range)
        fits
    ∙ ap later (
        three_set-append front back x y z c
        ∙ sym (append_assoc front (c.red ∷ c.green ∷ c.blue ∷ []) back))
    ∙ ap (λ (n : ℕ). conv_loop (suc (suc (suc (suc i)))) n (pixel_bytes cs) (front' ++ back)) count'
    ∙ loop_fills cs front' back (suc (suc (suc (suc i)))) (pixel_later i h) (omega arith)
    ∙ ap ok (regrouped cs front c (drop (3 * length cs) back))
    ∙ ap (λ (l : List ℕ). ok (front ++ (color_bytes (c ∷ cs) ++ l)))
        (ap (λ (n : ℕ). drop n (x ∷ y ∷ z ∷ back)) (three_more (length cs)))
  where
    regrouped :
        (cs : List Rgba) (front : List ℕ) (c : Rgba) (l : List ℕ)
        → (front ++ c.red ∷ c.green ∷ c.blue ∷ []) ++ (color_bytes cs ++ l)
          ≡ front ++ (color_bytes (c ∷ cs) ++ l)
    regrouped cs front c l =
        append_assoc front (c.red ∷ c.green ∷ c.blue ∷ []) (color_bytes cs ++ l)

loop_overruns :
    (cs : List Rgba) (conv : List ℕ) (i count : ℕ)
    → i % 4 ≡ 0
    → count ≤ length conv
    → length conv < count + 3 * length cs
    → conv_loop i count (pixel_bytes cs) conv ≡ panic index_out_of_range
loop_overruns [] conv i count h room short = ground arith
loop_overruns (c ∷ cs) conv i count h room short =
    loop_pixel i count c (pixel_bytes cs) conv h
    ∙ elim (Bool-cases (leb (count + 3) (length conv))) [
      | inl fits ↦ rw fits (
          loop_overruns cs (three_set conv count c) (suc (suc (suc (suc i))))
            (suc (suc (suc count))) (pixel_later i h)
            (ground (arith, length-three_set conv count c))
            (omega (arith, length-three_set conv count c)))
      | inr e ↦ rw e refl
    ]

-- What the loop makes of the buffer that it finds.
abbrev pub conv_after : List Rgba → List ℕ → Outcome (List ℕ)
conv_after cs conv =
    if leb (3 * length cs) (length conv)
    then ok (color_bytes cs ++ drop (3 * length cs) conv)
    else panic index_out_of_range

loop_result :
    (cs : List Rgba) (conv : List ℕ) → conv_loop 0 0 (pixel_bytes cs) conv ≡ conv_after cs conv
loop_result cs conv = elim (Bool-cases (leb (3 * length cs) (length conv))) [
  | inl fits ↦ rw fits (loop_fills cs [] conv 0 refl (ground arith))
  | inr short ↦ rw short (loop_overruns cs conv 0 0 refl (ground arith) (ground arith))
]

-- A frame of an image.RGBA of which `Pix` is whole pixels: after the header, its colours are written without
-- their alpha, and then the rest of the buffer that earlier frames left, when that has room for the
-- frame; when it has not, the call panics. The buffer never changes its size.
pub encode_rgba_frame :
    {A W : Type 0} (put : Put W) (decimal : ℕ → List ℕ) (convert : A → Rgba) (cs : List Rgba)
    (r : Area) (w : W) (old : ConvImage)
    → encode_ppm put decimal convert (rgba_image (pixel_bytes cs) r) w old
      ≡ after_header old
          (put (header decimal r) w)
          (λ v. put_conv put v old (conv_after cs (conv_start r old)))
unfolding encode_ppm encode_rgba
encode_rgba_frame {W = W} put decimal convert cs r w old =
    ap
      (λ (o : Outcome (List ℕ)).
        after_header old (put (header decimal r) w) (λ v. put_conv put v old o))
      (loop_result cs (conv_start r old))

drop_all : (conv : List ℕ) (n : ℕ) → length conv ≡ n → drop n conv ≡ []
drop_all [] zero h = refl
drop_all [] (suc n) h = refl
drop_all (x ∷ conv) zero h = ground arith
drop_all (x ∷ conv) (suc n) h = drop_all conv n (omega arith)

conv_exact :
    (cs : List Rgba) (conv : List ℕ)
    → length conv ≡ 3 * length cs
    → conv_after cs conv ≡ ok (color_bytes cs)
conv_exact cs conv h = ground (arith, drop_all conv (3 * length cs) h, append-nil (color_bytes cs))

-- The buffer is nil, or it has the given size.
abbrev pub SameSize : ConvImage → ℕ → Type 0
SameSize none n = Unit {0}
SameSize (some conv) n = length conv ≡ n

start_size :
    (r : Area) (old : ConvImage) (n : ℕ)
    → n ≡ dy r * dx r
    → SameSize old (3 * n)
    → length (conv_start r old) ≡ 3 * n
start_size r none n h same = omega (arith, length-replicate {A = ℕ} (dy r * dx r * 3) 0)
start_size r (some conv) n h same = same

-- The first frame, or one after another frame of the same size, of an image of which `Pix` is the pixels of
-- its rectangle: after the header its colours are written without their alpha and nothing else, and then
-- the buffer has the size for the next such frame.
pub encode_rgba-SameSize :
    {A W : Type 0} (put : Put W) (decimal : ℕ → List ℕ) (convert : A → Rgba) (cs : List Rgba)
    (r : Area) (w : W) (old : ConvImage)
    → length cs ≡ dy r * dx r
    → SameSize old (3 * length cs)
    → (encode_ppm put decimal convert (rgba_image (pixel_bytes cs) r) w old
        ≡ after_header old
            (put (header decimal r) w)
            (λ v. (put (color_bytes cs) v, some (color_bytes cs))))
      × SameSize (some (color_bytes cs)) (3 * length cs)
encode_rgba-SameSize put decimal convert cs r w old size room = (
  encode_rgba_frame put decimal convert cs r w old
      ∙ ap
          (λ (o : Outcome (List ℕ)).
            after_header old (put (header decimal r) w) (λ v. put_conv put v old o))
          (conv_exact cs (conv_start r old) (start_size r old (length cs) size room)),
  length-color_bytes cs,
)
