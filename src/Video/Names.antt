-- ===== src/Video/Names.antt =====
-- The name of the video file, and the binary.
use avacadovnc.Common.{
  ℕ, ◌-◌, ◌≡◌, refl, List, [], ◌∷◌, ◌++◌, Bool, true, Option, none, length, length-append, drop,
  drop-append, arith, Bool-cases, inl, inr,
}
use avacadovnc.Outcome.{Outcome, err, message}
use avacadovnc.Video.{
  Codec, Arg, Name, Encoder, extension, same_bytes, has_suffix, video_name, found_binary, run,
}

same_bytes_self : (xs : List ℕ) → same_bytes xs xs ≡ true
same_bytes_self [] = refl
same_bytes_self (x ∷ xs) = ground (arith, same_bytes_self xs)

has_suffix-append : (name end : Name) → has_suffix (name ++ end) end ≡ true
has_suffix-append name end =
    let place : length name ≡ length (name ++ end) - length end =
      omega (arith, length-append name end) in
    let rest : drop (length (name ++ end) - length end) (name ++ end) ≡ end =
      drop-append (length (name ++ end) - length end) name end place in
    ground (arith, rest, same_bytes_self end, length-append name end)

named : (codec : Codec) (name : Name) → has_suffix (video_name codec name) (extension codec) ≡ true
unfolding video_name
named codec name = elim (Bool-cases (has_suffix name (extension codec))) [
  | inl e ↦ ground (arith, e)
  | inr e ↦ ground (arith, e, has_suffix-append name (extension codec))
]

video_name_kept :
    (codec : Codec) (name : Name)
    → has_suffix name (extension codec) ≡ true
    → video_name codec name ≡ name
unfolding video_name
video_name_kept codec name h = rw h refl

-- The name of the file has the extension of the codec, and naming it once more changes nothing.
has_suffix-video_name :
    (codec : Codec) (name : Name)
    → (has_suffix (video_name codec name) (extension codec) ≡ true)
      × (video_name codec (video_name codec name) ≡ video_name codec name)
has_suffix-video_name codec name =
    (named codec name, video_name_kept codec (video_name codec name) (named codec name))

-- Without a binary, `Run` returns an error and changes nothing of the encoder.
run_missing :
    {W : Type 0} (codec : Codec) (exists : Name → Bool)
    (process : Name → List Arg → Outcome (Unit {0})) (pipe : Option W) (name : Name)
    (enc : Encoder W)
    → found_binary codec exists enc.bin_path ≡ none
    → run codec exists process pipe name enc
      ≡ (err (message "encoder file doesn't exist in path"), enc)
unfolding run
run_missing codec exists process pipe name enc h = ground (arith, h)
