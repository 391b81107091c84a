-- ===== src/Tests/Pictures.antt =====
-- Canvas and pixel formats at concrete inputs.
use avacadovnc.Common.{◌≡◌, [], ◌∷◌, arith}
use avacadovnc.Outcome.{ok}
use avacadovnc.Canvas.{draw_bytes}
use avacadovnc.Canvas.Bytes.{blit, draw_bytes-blit}
use avacadovnc.Tests.Data.{screen, rect_of}

draw_bytes-blit_example :
    draw_bytes (1 ∷ 2 ∷ 3 ∷ 255 ∷ 4 ∷ 5 ∷ 6 ∷ 255 ∷ []) (rect_of 7 0 2 1) screen
    ≡ ok (blit (1 ∷ 2 ∷ 3 ∷ 255 ∷ 4 ∷ 5 ∷ 6 ∷ 255 ∷ []) (rect_of 7 0 2 1) screen)
draw_bytes-blit_example =
    draw_bytes-blit (1 ∷ 2 ∷ 3 ∷ 255 ∷ 4 ∷ 5 ∷ 6 ∷ 255 ∷ []) (rect_of 7 0 2 1) screen
      (omega arith, omega arith) (omega arith)
