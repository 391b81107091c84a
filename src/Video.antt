-- ===== src/Video.antt =====
-- The encoders that run ffmpeg: x264-enc.go, dv8-enc.go, dv9-enc.go, huffyuv-enc.go and qtrle-enc.go of
-- encoders/. The standard input of the process is a writer of Ppm. Which files there are, whether the
-- pipe can be made and how the process ends are arguments. A frame rate is not negative.
pub mod Commands
pub mod Frames
pub mod Names
use avacadovnc.Common.{
  ℕ, zero, suc, ◌-◌, List, [], ◌∷◌, ◌++◌, Bool, true, false, Option, none, some, length, drop, leb,
  ◌==◌, if◌then◌else◌, ◌&&◌, ◌||◌, String,
}
pub use avacadovnc.Video.Commands.{Name, Arg, flag, rate, file}
use avacadovnc.Video.Commands.{x264_args, vp8_args, dv9_args, huffyuv_args, qtrle_args}
use avacadovnc.Outcome.{Outcome, ok, err, panic, Error, nil_dereference, message}
use avacadovnc.Canvas.{Rgba}
use avacadovnc.Ppm.{AnyImage, nil_image, ConvImage, Put, encode_ppm}

-- The encoder types.
pub data Codec : Type 0 where
  x264 vp8 dv9 huffyuv qtrle : Codec

-- The fields of an encoder; `closed` is not a field of the one of dv9-enc.go. The command is its
-- binary and its arguments.
pub record Encoder (W : Type 0) : Type 0 where
  pub bin_path : Name
  pub command : Option (Name × List Arg)
  pub input : Option W
  pub closed : Bool
  pub framerate : ℕ

-- ".webm", ".mp4", ".avi" and ".mov"; x264-enc.go takes the name as it is.
abbrev pub extension : Codec → Name
extension x264 = []
extension vp8 = 46 ∷ 119 ∷ 101 ∷ 98 ∷ 109 ∷ []
extension dv9 = 46 ∷ 109 ∷ 112 ∷ 52 ∷ []
extension huffyuv = 46 ∷ 97 ∷ 118 ∷ 105 ∷ []
extension qtrle = 46 ∷ 109 ∷ 111 ∷ 118 ∷ []

abbrev pub same_bytes : List ℕ → List ℕ → Bool
same_bytes [] [] = true
same_bytes (x ∷ xs) (y ∷ ys) = x == y && same_bytes xs ys
same_bytes _ _ = false

-- `strings.HasSuffix`
abbrev pub has_suffix : Name → Name → Bool
has_suffix name end =
    leb (length end) (length name) && same_bytes (drop (length name - length end) name) end

-- The name of the video file.
video_name : Codec → Name → Name
video_name codec name = if has_suffix name (extension codec) then name else name ++ extension codec

unfoldable args_of : Codec → ℕ → Name → List Arg
unfolding x264_args vp8_args dv9_args huffyuv_args qtrle_args
args_of x264 = x264_args
args_of vp8 = vp8_args
args_of dv9 = dv9_args
args_of huffyuv = huffyuv_args
args_of qtrle = qtrle_args

-- `Init`, with the pipe that the command gives, or none and an error that is logged.
unfoldable init : {W : Type 0} → Codec → Option W → Name → Encoder W → Encoder W
unfolding video_name args_of
init codec pipe name enc =
    let framerate = if enc.framerate == 0 then 12 else enc.framerate in
    record enc {
      framerate = framerate;
      input = pipe;
      command = some (enc.bin_path, args_of codec framerate (video_name codec name));
    }

-- The path with ".exe".
abbrev exe : Name → Name
exe path = path ++ 46 ∷ 101 ∷ 120 ∷ 101 ∷ []

-- x264-enc.go and qtrle-enc.go look for the path with ".exe" as well.
abbrev tries_exe : Codec → Bool
tries_exe x264 = true
tries_exe qtrle = true
tries_exe _ = false

-- The binary that `Run` finds: at the path, or with ".exe".
abbrev pub found_binary : Codec → (Name → Bool) → Name → Option Name
found_binary codec exists path =
    if exists path
    then some path
    else if tries_exe codec && exists (exe path)
    then some (exe path)
    else none

-- `Run`: an error when there is no binary, and what the process ends in. The encoders of dv8-enc.go and
-- dv9-enc.go only log the errors.
run :
    {W : Type 0}
    → Codec
    → (Name → Bool)
    → (Name → List Arg → Outcome (Unit {0}))
    → Option W
    → Name
    → Encoder W
    → Outcome (Unit {0}) × Encoder W
unfolding init
run codec exists process pipe name enc = elim (found_binary codec exists enc.bin_path) [
  | none ↦ (err (message "encoder file doesn't exist in path"), enc)
  | some path ↦
      let started = init codec pipe name (record enc { bin_path = path }) in
      (process path (args_of codec started.framerate (video_name codec name)), started)
]

-- What is left of the encoder and of `convImage` after a frame: an error of the writer is only logged.
abbrev after_frame :
    {W : Type 0}
    → Encoder W
    → (Outcome (Unit {0}) × W) × ConvImage
    → Outcome (Unit {0}) × (Encoder W × ConvImage)
after_frame enc ((ok u, w), conv) = (ok tt, (record enc { input = some w }, conv))
after_frame enc ((err e, w), conv) = (ok tt, (record enc { input = some w }, conv))
after_frame enc ((panic p, w), conv) = (panic p, (record enc { input = some w }, conv))

-- A writer that is nil: an image that is nil is an error before it is used.
abbrev without_pipe :
    {A W : Type 0}
    → AnyImage A
    → Encoder W
    → ConvImage
    → Outcome (Unit {0}) × (Encoder W × ConvImage)
without_pipe nil_image enc conv = (ok tt, (enc, conv))
without_pipe _ enc conv = (panic nil_dereference, (enc, conv))

-- The test that `Encode` of dv9-enc.go has not.
abbrev pub is_guarded : Codec → Bool
is_guarded dv9 = false
is_guarded _ = true

-- `encodePPM(enc.input, img)`
abbrev write_frame :
    {A W : Type 0}
    → Put W
    → (ℕ → List ℕ)
    → (A → Rgba)
    → AnyImage A
    → Encoder W
    → ConvImage
    → Outcome (Unit {0}) × (Encoder W × ConvImage)
write_frame put decimal convert img enc conv = elim enc.input [
  | none ↦ without_pipe img enc conv
  | some w ↦ after_frame enc (encode_ppm put decimal convert img w conv)
]

abbrev no_input : {W : Type 0} → Option W → Bool
no_input none = true
no_input (some w) = false

-- `Encode`
unfoldable pub encode :
    {A W : Type 0}
    → Put W
    → (ℕ → List ℕ)
    → (A → Rgba)
    → Codec
    → AnyImage A
    → Encoder W
    → ConvImage
    → Outcome (Unit {0}) × (Encoder W × ConvImage)
encode put decimal convert codec img enc conv =
    if is_guarded codec && (no_input enc.input || enc.closed)
    then (ok tt, (enc, conv))
    else write_frame put decimal convert img enc conv

-- `Close`, which does nothing in dv9-enc.go.
close : {W : Type 0} → Codec → Encoder W → Encoder W
close codec enc = if is_guarded codec then record enc { closed = true } else enc

-- Calls of an encoder, one after the other; a panic ends them.
pub data Call (A : Type 0) : Type 0 where
  frame : AnyImage A → Call A
  finish : Call A

abbrev pub go_on :
    {W : Type 0}
    → Outcome (Unit {0}) × (Encoder W × ConvImage)
    → (Encoder W → ConvImage → Outcome (Unit {0}) × (Encoder W × ConvImage))
    → Outcome (Unit {0}) × (Encoder W × ConvImage)
go_on (ok u, (enc, conv)) k = k enc conv
go_on (err e, s) k = (err e, s)
go_on (panic p, s) k = (panic p, s)

pub calls :
    {A W : Type 0}
    → Put W
    → (ℕ → List ℕ)
    → (A → Rgba)
    → Codec
    → List (Call A)
    → Encoder W
    → ConvImage
    → Outcome (Unit {0}) × (Encoder W × ConvImage)
unfolding encode close
calls put decimal convert codec [] enc conv = (ok tt, (enc, conv))
calls put decimal convert codec (frame img ∷ cs) enc conv =
    go_on (encode put decimal convert codec img enc conv) (calls put decimal convert codec cs)
calls put decimal convert codec (finish ∷ cs) enc conv =
    calls put decimal convert codec cs (close codec enc) conv
