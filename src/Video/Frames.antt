-- ===== src/Video/Frames.antt =====
-- What the process gets from the frames of a video.
use avacadovnc.Common.{
  ℕ, ◌*◌, ◌≡◌, refl, sym, ◌∙◌, ap, List, [], ◌∷◌, Bool, true, false, Option, some, length, All,
  arith,
}
use mathlib.Core.Path.{subst}
use avacadovnc.Outcome.{Outcome, ok}
use avacadovnc.Canvas.{Rgba}
use avacadovnc.Images.{Area, dx, dy}
use avacadovnc.Ppm.{rgba_image, ConvImage, Put, header, after_header, encode_ppm}
use avacadovnc.Ppm.Frames.{
  pixel_bytes, color_bytes, SameSize, length-color_bytes, encode_rgba-SameSize,
}
use avacadovnc.Video.{Codec, Encoder, is_guarded, encode, close, Call, frame, finish, calls, go_on}

closed_close :
    {W : Type 0} (codec : Codec) (enc : Encoder W)
    → is_guarded codec ≡ true
    → close codec enc ≡ record enc { closed = true }
unfolding close
closed_close codec enc g = rw g refl

-- A frame of an image.RGBA.
abbrev pub rgba_frame : {A : Type 0} → Area → List Rgba → Call A
rgba_frame r cs = frame (rgba_image (pixel_bytes cs) r)

abbrev pub rgba_frames : {A : Type 0} → Area → List (List Rgba) → List (Call A) → List (Call A)
rgba_frames r [] rest = rest
rgba_frames r (cs ∷ frames) rest = rgba_frame r cs ∷ rgba_frames r frames rest

-- The bytes of frames: for each the header and its colours.
abbrev pub video : {W : Type 0} → (List ℕ → W → W) → List ℕ → List (List Rgba) → W → W
video into head [] w = w
video into head (cs ∷ frames) w = video into head frames (into (color_bytes cs) (into head w))

abbrev pub last_conv : List (List Rgba) → ConvImage → ConvImage
last_conv [] conv = conv
last_conv (cs ∷ frames) conv = last_conv frames (some (color_bytes cs))

abbrev with_input : {W : Type 0} → Encoder W → W → Encoder W
with_input enc w = record enc { input = some w }

module _ {A W : Type 0} (put : Put W) (decimal : ℕ → List ℕ) (convert : A → Rgba) (codec : Codec)
    (guarded : is_guarded codec ≡ true) where
  -- After `Close` no call changes anything.
  closed_calls :
      (cs : List (Call A)) (enc : Encoder W) (conv : ConvImage)
      → enc.closed ≡ true
      → calls put decimal convert codec cs enc conv ≡ (ok tt, (enc, conv))
  unfolding calls encode
  closed_calls [] enc conv h = refl
  closed_calls (frame img ∷ cs) enc conv h = ground (arith, closed_calls cs enc conv h)
  closed_calls (finish ∷ cs) enc conv h =
      ap (λ (e : Encoder W). calls put decimal convert codec cs e conv)
        (closed_close codec enc guarded ∙ ap (λ (b : Bool). record enc { closed = b }) (sym h))
      ∙ closed_calls cs enc conv h

  closing :
      (cs : List (Call A)) (enc : Encoder W) (conv : ConvImage)
      → calls put decimal convert codec (finish ∷ cs) enc conv
        ≡ (ok tt, (record enc { closed = true }, conv))
  unfolding calls
  closing cs enc conv =
      ap (λ (e : Encoder W). calls put decimal convert codec cs e conv)
        (closed_close codec enc guarded)
      ∙ closed_calls cs (record enc { closed = true }) conv refl

  module _ (r : Area) (into : List ℕ → W → W)
      (takes : (bs : List ℕ) (w : W) → put bs w ≡ (ok tt, into bs w)) where
    frame_written :
        (cs : List Rgba) (w : W) (conv : ConvImage)
        → length cs ≡ dy r * dx r
        → SameSize conv (3 * (dy r * dx r))
        → encode_ppm put decimal convert (rgba_image (pixel_bytes cs) r) w conv
          ≡ ((ok tt, into (color_bytes cs) (into (header decimal r) w)), some (color_bytes cs))
    frame_written cs w conv size same =
        let fits : SameSize conv (3 * length cs) =
          subst (λ (n : ℕ). SameSize conv (3 * n)) (sym size) same in
        (encode_rgba-SameSize put decimal convert cs r w conv size fits).0
        ∙ ap
            (λ (o : Outcome (Unit {0}) × W).
              after_header conv o (λ v. (put (color_bytes cs) v, some (color_bytes cs))))
            (takes (header decimal r) w)
        ∙ ap (λ (o : Outcome (Unit {0}) × W). (o, some (color_bytes cs)))
            (takes (color_bytes cs) (into (header decimal r) w))

    frame_encoded :
        (cs : List Rgba) (enc : Encoder W) (w : W) (conv : ConvImage)
        → length cs ≡ dy r * dx r
        → SameSize conv (3 * (dy r * dx r))
        → enc.input ≡ some w
        → enc.closed ≡ false
        → encode put decimal convert codec (rgba_image (pixel_bytes cs) r) enc conv ≡ (
          ok tt,
          (
            with_input enc (into (color_bytes cs) (into (header decimal r) w)),
            some (color_bytes cs),
          ),
        )
    unfolding encode
    frame_encoded cs enc w conv size same open_pipe not_closed =
        ground (arith, frame_written cs w conv size same, guarded)

    same_after :
        (cs : List Rgba)
        → length cs ≡ dy r * dx r
        → SameSize (some (color_bytes cs)) (3 * (dy r * dx r))
    same_after cs size = omega (arith, length-color_bytes cs, size)

    -- The frames, `Close`, and any calls after it.
    frames_written :
        (frames : List (List Rgba)) (rest : List (Call A)) (enc : Encoder W) (w : W)
        (conv : ConvImage)
        → All (λ cs. length cs ≡ dy r * dx r) frames
        → SameSize conv (3 * (dy r * dx r))
        → enc.input ≡ some w
        → enc.closed ≡ false
        → calls put decimal convert codec (rgba_frames r frames (finish ∷ rest)) enc conv ≡ (
          ok tt,
          (
            record enc { input = some (video into (header decimal r) frames w); closed = true },
            last_conv frames conv,
          ),
        )
    unfolding calls
    frames_written [] rest enc w conv sizes same open_pipe not_closed =
        closing rest enc conv
        ∙ ap (λ (i : Option W). (ok tt, (record enc { input = i; closed = true }, conv))) open_pipe
    frames_written (cs ∷ frames) rest enc w conv (size, sizes) same open_pipe not_closed =
        ap
          (λ (o : Outcome (Unit {0}) × (Encoder W × ConvImage)).
            go_on o (calls put decimal convert codec (rgba_frames r frames (finish ∷ rest))))
          (frame_encoded cs enc w conv size same open_pipe not_closed)
        ∙ frames_written frames rest
            (with_input enc (into (color_bytes cs) (into (header decimal r) w)))
            (into (color_bytes cs) (into (header decimal r) w)) (some (color_bytes cs)) sizes
            (same_after cs size) refl not_closed

-- An encoder whose process has a pipe that takes all bytes, but for the encoder of dv9-enc.go, and that is not
-- closed: given frames of one size, then `Close`, and then any calls, it writes the header and the
-- colours of each frame before `Close` in their order and nothing else, no call panics, and it is
-- closed. `convImage` is nil before, or of the size of the frames.
pub calls-video :
    {A W : Type 0} (put : Put W) (decimal : ℕ → List ℕ) (convert : A → Rgba) (codec : Codec)
    (r : Area) (into : List ℕ → W → W) (frames : List (List Rgba)) (rest : List (Call A))
    (enc : Encoder W) (w : W) (conv : ConvImage)
    → is_guarded codec ≡ true
    → ((bs : List ℕ) (v : W) → put bs v ≡ (ok tt, into bs v))
    → All (λ cs. length cs ≡ dy r * dx r) frames
    → SameSize conv (3 * (dy r * dx r))
    → enc.input ≡ some w
    → enc.closed ≡ false
    → calls put decimal convert codec (rgba_frames r frames (finish ∷ rest)) enc conv ≡ (
      ok tt,
      (
        record enc { input = some (video into (header decimal r) frames w); closed = true },
        last_conv frames conv,
      ),
    )
calls-video put decimal convert codec r into frames rest enc w conv guarded takes sizes same
      open_pipe not_closed =
    frames_written put decimal convert codec guarded r into takes frames rest enc w conv sizes same
      open_pipe not_closed
