-- ===== src/Tests/Videos.antt =====
-- The encoders of videos at concrete calls.
use avacadovnc.Common.{ℕ, ◌+◌, ◌≡◌, refl, List, [], ◌∷◌, ◌++◌, false, true, none, some, pos}
use avacadovnc.Outcome.{ok, panic, nil_dereference}
use avacadovnc.Canvas.{Rgba}
use avacadovnc.Images.{Area}
use avacadovnc.Ppm.{Put, header, rgba_image}
use avacadovnc.Ppm.Frames.{pixel_bytes}
use avacadovnc.Video.{x264, dv9, Encoder, finish, calls, encode}
use avacadovnc.Video.Frames.{rgba_frames, rgba_frame, video, last_conv, calls-video}

abbrev put_bytes : Put (List ℕ)
put_bytes bs w = (ok tt, w ++ bs)

abbrev one_digit : ℕ → List ℕ
one_digit n = (n + 48) ∷ []

abbrev same_color : Rgba → Rgba
same_color c = c

abbrev one_point : Area
one_point = record { min_x = pos 0; min_y = pos 0; max_x = pos 1; max_y = pos 1 }

abbrev red : Rgba
red = record { red = 255; green = 0; blue = 0; alpha = 255 }

abbrev blue : Rgba
blue = record { red = 0; green = 0; blue = 255; alpha = 255 }

abbrev running : Encoder (List ℕ)
running = record { bin_path = []; command = none; input = some []; closed = false; framerate = 12 }

abbrev two_frames : List (List Rgba)
two_frames = (red ∷ []) ∷ (blue ∷ []) ∷ []

-- The frame after `Close` is not written.
calls-video_example :
    calls put_bytes one_digit same_color x264
      (rgba_frames one_point two_frames (finish ∷ rgba_frame one_point (blue ∷ []) ∷ []))
      running
      none
    ≡ (
      ok tt,
      (
        record running {
          input = some (video (λ bs w. w ++ bs) (header one_digit one_point) two_frames []);
          closed = true;
        },
        last_conv two_frames none,
      ),
    )
calls-video_example =
    calls-video put_bytes one_digit same_color x264 one_point (λ bs w. w ++ bs) two_frames
      (rgba_frame one_point (blue ∷ []) ∷ []) running [] none refl (λ bs v. refl) (refl, (refl, tt))
      tt refl refl

-- Before `Run` the encoder of dv9-enc.go has no pipe: its `Encode` panics.
encode_before_run :
    (encode put_bytes one_digit same_color dv9
      (rgba_image (pixel_bytes (red ∷ [])) one_point)
      (record running { input = none })
      none).0
    ≡ panic nil_dereference
unfolding encode
encode_before_run = refl
