-- ===== src/Tests/Drawings.antt =====
-- Images, their files and the outgoing messages at concrete inputs.
use avacadovnc.Common.{
  ℕ, ◌+◌, ◌≡◌, ◌⊎◌, ◌&&◌, refl, List, [], ◌∷◌, ◌++◌, true, false, none, some, if◌then◌else◌, arith,
  ℤ, pos, negsuc, eqb_ℤ, append-nil, append_assoc,
}
use avacadovnc.Outcome.{ok}
use avacadovnc.Canvas.{Rgba, transparent}
use avacadovnc.Handshake.{client_message_handle}
use avacadovnc.Handshake.Connect.{first_messages}
use avacadovnc.Images.{
  Area, Image, within, at, set_rgba, sub_image, opaque, rgb_opaque, row_full, rows_full, rgb_at,
}
use avacadovnc.Images.Laws.{IsImage, at-set_rgba}
use avacadovnc.Images.Shares.{at-sub_image}
use avacadovnc.Images.Opaque.{IsFull, IsClear, opaque-at}
use avacadovnc.Message.ToServer.{FramebufferUpdateRequest, request_bytes}
use avacadovnc.Message.Outgoing.{update_request, no_more, outgoing}
use avacadovnc.Message.Outgoing.Order.{
  put_none, put_next, puts_request, all_sent, outgoing-client_message_handle,
}
use avacadovnc.Ppm.{
  rgb_image, rgba_image, any_image, Put, header, after_header, put_conv, conv_start, encode_ppm,
}
use avacadovnc.Ppm.Rows.{IsStream, IsWhole, as_any, encode_rgb_generic}
use avacadovnc.Ppm.Frames.{pixel_bytes, conv_after, encode_rgba_frame}
use avacadovnc.Tests.Data.{client_of}

-- Two pixels side by side, the left one at (-1, 1).
abbrev two_points : Area
two_points = record { min_x = negsuc 0; min_y = pos 1; max_x = pos 1; max_y = pos 2 }

abbrev two_pixels : Image
two_pixels = record { start = 0; len = 8; stride = 8; rect = two_points }

abbrev array : List ℕ
array = 1 ∷ 2 ∷ 3 ∷ 255 ∷ 4 ∷ 5 ∷ 6 ∷ 0 ∷ []

two_pixels-IsImage : IsImage 4 array two_pixels
two_pixels-IsImage = record {
  in_array = omega arith;
  wide = λ e. omega arith;
  long = λ e. omega arith;
}

abbrev red : Rgba
red = record { red = 255; green = 0; blue = 0; alpha = 255 }

at-set_rgba_example :
    (after : List ℕ) × (set_rgba two_pixels (pos 0) (pos 1) red array ≡ ok after)
    × IsImage 4 after two_pixels
    × ((u w : ℤ)
        → at after two_pixels u w ≡ (
            if within two_points (pos 0) (pos 1) && (eqb_ℤ u (pos 0) && eqb_ℤ w (pos 1))
            then ok red
            else at array two_pixels u w))
at-set_rgba_example = at-set_rgba array two_pixels (pos 0) (pos 1) red two_pixels-IsImage

abbrev right_half : Area
right_half = record { min_x = pos 0; min_y = pos 0; max_x = pos 9; max_y = pos 9 }

at-sub_image_example :
    IsImage 4 array (sub_image 4 right_half two_pixels)
    × ((x y : ℤ)
        → at array (sub_image 4 right_half two_pixels) x y
          ≡ (if within right_half x y then at array two_pixels x y else ok transparent))
at-sub_image_example = at-sub_image array two_pixels right_half two_pixels-IsImage

opaque-at_example :
    ((opaque array two_pixels ≡ ok true)
      × ((x y : ℤ) → within two_points x y ≡ true → IsFull array two_pixels x y))
    ⊎ ((opaque array two_pixels ≡ ok false)
        × ((x : ℤ) × (y : ℤ) × (within two_points x y ≡ true) × IsClear array two_pixels x y))
opaque-at_example = opaque-at array two_pixels two_pixels-IsImage

-- A buffer as a writer.
abbrev put_bytes : Put (List ℕ)
put_bytes bs w = (ok tt, w ++ bs)

put_bytes-IsStream : IsStream put_bytes
put_bytes-IsStream = record {
  nothing = λ w. simp append-nil;
  appends = λ bs cs w. simp append_assoc;
}

-- One digit is enough here, for the sizes.
abbrev one_digit : ℕ → List ℕ
one_digit n = (n + 48) ∷ []

abbrev same_color : Rgba → Rgba
same_color c = c

abbrev rgb_pixels : Image
rgb_pixels = record { start = 1; len = 6; stride = 6; rect = two_points }

rgb_pixels-IsWhole : IsWhole array rgb_pixels
rgb_pixels-IsWhole = record { row_bytes = refl; all_bytes = refl; in_array = omega arith }

-- Every colour of an RGBImage has full alpha, but `Opaque` looks at the red of the second pixel.
rgb_opaque_red : rgb_opaque array rgb_pixels ≡ ok false
unfolding rgb_opaque row_full rows_full
rgb_opaque_red = refl

encode_rgb_generic_example :
    encode_ppm put_bytes one_digit same_color (rgb_image array rgb_pixels) [] none
    ≡ encode_ppm put_bytes one_digit same_color
        (any_image (λ x y. as_any (rgb_at array rgb_pixels x y)) two_points)
        []
        none
encode_rgb_generic_example =
    encode_rgb_generic put_bytes one_digit same_color array rgb_pixels [] none put_bytes-IsStream
      rgb_pixels-IsWhole

-- A frame of one pixel after one of two.
abbrev one_point : Area
one_point = record two_points { max_x = pos 0 }

encode_rgba_frame_example :
    encode_ppm put_bytes one_digit same_color
      (rgba_image (pixel_bytes (red ∷ [])) one_point)
      []
      (some (1 ∷ 2 ∷ 3 ∷ 4 ∷ 5 ∷ 6 ∷ []))
    ≡ after_header
        (some (1 ∷ 2 ∷ 3 ∷ 4 ∷ 5 ∷ 6 ∷ []))
        (put_bytes (header one_digit one_point) [])
        (λ v.
          put_conv put_bytes v
            (some (1 ∷ 2 ∷ 3 ∷ 4 ∷ 5 ∷ 6 ∷ []))
            (conv_after (red ∷ []) (conv_start one_point (some (1 ∷ 2 ∷ 3 ∷ 4 ∷ 5 ∷ 6 ∷ [])))))
encode_rgba_frame_example =
    encode_rgba_frame put_bytes one_digit same_color (red ∷ []) one_point []
      (some (1 ∷ 2 ∷ 3 ∷ 4 ∷ 5 ∷ 6 ∷ []))

abbrev request : FramebufferUpdateRequest
request = record { inc = 1; x = 0; y = 0; width = 640; height = 480 }

outgoing-client_message_handle_example :
    outgoing (update_request request ∷ []) (client_message_handle (client_of [])).1 ≡ (
      ok no_more,
      all_sent (client_of []) (first_messages (client_of []) ++ (request_bytes request ++ [])),
    )
outgoing-client_message_handle_example =
    outgoing-client_message_handle (client_of []) (put_next (puts_request request) put_none) refl
      refl
