-- ===== src/Video/Commands.antt =====
-- The commands of `Init` in the encoders of encoders/: the arguments of ffmpeg.
use avacadovnc.Common.{ℕ, List, [], ◌∷◌, String}

-- A name as its bytes.
abbrev pub Name : Type 0
Name = List ℕ

-- An argument of ffmpeg: a text, the frame rate, or the name of the video file.
pub data Arg : Type 0 where
  flag : String → Arg
  rate : ℕ → Arg
  file : Name → Arg

unfoldable pub x264_args : ℕ → Name → List Arg
x264_args framerate name =
    flag "-f"
    ∷ flag "image2pipe"
    ∷ flag "-vcodec"
    ∷ flag "ppm"
    ∷ flag "-r"
    ∷ rate framerate
    ∷ flag "-an"
    ∷ flag "-y"
    ∷ flag "-i"
    ∷ flag "-"
    ∷ flag "-vcodec"
    ∷ flag "libx264"
    ∷ flag "-threads"
    ∷ flag "8"
    ∷ flag "-preset"
    ∷ flag "veryfast"
    ∷ flag "-g"
    ∷ flag "250"
    ∷ flag "-crf"
    ∷ flag "37"
    ∷ file name
    ∷ []

unfoldable pub vp8_args : ℕ → Name → List Arg
vp8_args framerate name =
    flag "-f"
    ∷ flag "image2pipe"
    ∷ flag "-vcodec"
    ∷ flag "ppm"
    ∷ flag "-vsync"
    ∷ flag "2"
    ∷ flag "-r"
    ∷ rate framerate
    ∷ flag "-probesize"
    ∷ flag "10000000"
    ∷ flag "-an"
    ∷ flag "-y"
    ∷ flag "-i"
    ∷ flag "-"
    ∷ flag "-vcodec"
    ∷ flag "libvpx"
    ∷ flag "-b:v"
    ∷ flag "0.5M"
    ∷ flag "-threads"
    ∷ flag "8"
    ∷ flag "-quality"
    ∷ flag "good"
    ∷ flag "-cpu-used"
    ∷ flag "-16"
    ∷ flag "-minrate"
    ∷ flag "0.2M"
    ∷ flag "-maxrate"
    ∷ flag "0.7M"
    ∷ flag "-bufsize"
    ∷ flag "50M"
    ∷ flag "-g"
    ∷ flag "180"
    ∷ flag "-keyint_min"
    ∷ flag "180"
    ∷ flag "-rc_lookahead"
    ∷ flag "20"
    ∷ flag "-qmax"
    ∷ flag "51"
    ∷ flag "-qmin"
    ∷ flag "3"
    ∷ file name
    ∷ []

unfoldable pub dv9_args : ℕ → Name → List Arg
dv9_args framerate name =
    flag "-f"
    ∷ flag "image2pipe"
    ∷ flag "-vcodec"
    ∷ flag "ppm"
    ∷ flag "-r"
    ∷ rate framerate
    ∷ flag "-i"
    ∷ flag "-"
    ∷ flag "-vcodec"
    ∷ flag "libvpx-vp9"
    ∷ flag "-b:v"
    ∷ flag "1M"
    ∷ flag "-threads"
    ∷ flag "8"
    ∷ flag "-cpu-used"
    ∷ flag "-8"
    ∷ flag "-deadline"
    ∷ flag "realtime"
    ∷ flag "-maxrate"
    ∷ flag "2.5M"
    ∷ flag "-bufsize"
    ∷ flag "10M"
    ∷ flag "-g"
    ∷ flag "120"
    ∷ flag "-qmax"
    ∷ flag "51"
    ∷ flag "-qmin"
    ∷ flag "11"
    ∷ file name
    ∷ []

unfoldable pub huffyuv_args : ℕ → Name → List Arg
huffyuv_args framerate name =
    flag "-f"
    ∷ flag "image2pipe"
    ∷ flag "-vcodec"
    ∷ flag "ppm"
    ∷ flag "-r"
    ∷ rate framerate
    ∷ flag "-an"
    ∷ flag "-y"
    ∷ flag "-i"
    ∷ flag "-"
    ∷ flag "-vcodec"
    ∷ flag "huffyuv"
    ∷ flag "-threads"
    ∷ flag "7"
    ∷ flag "-preset"
    ∷ flag "veryfast"
    ∷ flag "-maxrate"
    ∷ flag "0.5M"
    ∷ flag "-bufsize"
    ∷ flag "50M"
    ∷ flag "-g"
    ∷ flag "250"
    ∷ flag "-crf"
    ∷ flag "34"
    ∷ file name
    ∷ []

unfoldable pub qtrle_args : ℕ → Name → List Arg
qtrle_args framerate name =
    flag "-f"
    ∷ flag "image2pipe"
    ∷ flag "-vcodec"
    ∷ flag "ppm"
    ∷ flag "-r"
    ∷ rate framerate
    ∷ flag "-an"
    ∷ flag "-y"
    ∷ flag "-i"
    ∷ flag "-"
    ∷ flag "-vcodec"
    ∷ flag "qtrle"
    ∷ flag "-threads"
    ∷ flag "7"
    ∷ flag "-preset"
    ∷ flag "veryfast"
    ∷ flag "-maxrate"
    ∷ flag "0.5M"
    ∷ flag "-bufsize"
    ∷ flag "50M"
    ∷ flag "-g"
    ∷ flag "250"
    ∷ flag "-crf"
    ∷ flag "34"
    ∷ file name
    ∷ []
