-- ===== src/Tests/Updates.antt =====
-- A whole update on a small screen.
use avacadovnc.Common.{ℕ, ◌≡◌, ◌<◌, refl, List, [], ◌∷◌, ◌++◌, All, none, arith}
use avacadovnc.Outcome.{ok}
use avacadovnc.Canvas.{Rectangle}
use avacadovnc.Conn.{hextile, Conn, raw, copy_rect, rre, pointer_pos}
use avacadovnc.Decode.Inflate.{Codecs}
use avacadovnc.Decode.Hextile.{hextile_read}
use avacadovnc.Decode.Hextile.Tiles.{
  Spot, Tile, same_tile, spotted_tile, draw_rows, rows_bytes, IsSpot, AreRows,
}
use avacadovnc.Decode.Hextile.Draws.{hextile_read_draws}
use avacadovnc.FileReader.{read_update}
use avacadovnc.FileReader.Jobs.{
  Job, Placed, IsJob, raw_pixels, copy_from, one_colour, point_here, tiles, apply_all, update_bytes,
  IsPlaced,
}
use avacadovnc.FileReader.Draws.{IsReady, onward, read_update_jobs}
use avacadovnc.Tests.Data.{screen, rect_of, viewer_of, wide}

abbrev grey : List ℕ
grey = wide (9 ∷ 9 ∷ 9 ∷ 255 ∷ [])

abbrev spot : Spot
spot = record { colour = wide (1 ∷ 2 ∷ 3 ∷ 255 ∷ []); dx = 2; dy = 1; width = 3; height = 1 }

abbrev one_tile : List (List Tile)
one_tile = (spotted_tile grey (spot ∷ []) ∷ []) ∷ []

-- What the decoder takes for two pixels.
abbrev two_places : List ℕ
two_places = wide (wide (1 ∷ 2 ∷ 3 ∷ 255 ∷ 4 ∷ 5 ∷ 6 ∷ 255 ∷ []))

abbrev jobs : List Placed
jobs =
    (rect_of 0 0 2 1, raw_pixels two_places)
    ∷ (rect_of 4 4 2 1, copy_from 0 0)
    ∷ (rect_of 0 6 8 2, one_colour (wide (9 ∷ 8 ∷ 7 ∷ 255 ∷ [])))
    ∷ (rect_of 3 3 0 0, point_here)
    ∷ (rect_of 0 0 8 8, tiles one_tile)
    ∷ []

-- A tile with one rectangle on it, and one that takes its background.
abbrev two_tiles : List (List Tile)
two_tiles = (spotted_tile grey (spot ∷ []) ∷ same_tile ∷ []) ∷ []

abbrev watching : List ℕ → Conn
watching input = record (viewer_of input) {
  encodings = raw ∷ copy_rect ∷ rre ∷ pointer_pos ∷ hextile ∷ [];
}

abbrev no_library : Codecs
no_library = record {
  inflate = λ bytes. none;
  jpeg = λ bytes. none;
  png = λ bytes. none;
  png_of_stream = λ s. none;
}

watching-IsReady : (input : List ℕ) → IsReady (watching input) screen
unfolding avacadovnc.Conn.Access.get_enc_instance
watching-IsReady input = record {
  a_client = refl;
  canvas = refl;
  pixels = omega arith;
  supports = record {
    raw_at = 0;
    copy_at = 1;
    rre_at = 2;
    pointer_at = 3;
    hextile_at = 4;
    has_raw = refl;
    has_copy = refl;
    has_rre = refl;
    has_pointer = refl;
    has_hextile = refl;
  };
}

at_small :
    (r : Rectangle) (j : Job)
    → r.x < 9
    → r.y < 9
    → r.width < 9
    → r.height < 9
    → r.enc_type ≡ 0
    → IsJob 32 r j
    → IsPlaced 32 (r, j)
at_small r j x y w h e job = record {
  x_u16 = omega arith;
  y_u16 = omega arith;
  width_u16 = omega arith;
  height_u16 = omega arith;
  no_type = e;
  job = job;
}

spot-IsSpot : IsSpot 32 spot
spot-IsSpot = record {
  coloured = refl;
  dx_fits = omega arith;
  dy_fits = omega arith;
  some_width = λ e. omega arith;
  some_height = λ e. omega arith;
  width_fits = omega arith;
  height_fits = omega arith;
}

jobs-IsPlaced : All (IsPlaced 32) jobs
jobs-IsPlaced = (
  at_small (rect_of 0 0 2 1) (raw_pixels two_places) (omega arith) (omega arith) (omega arith)
      (omega arith) refl ((omega arith, omega arith), omega arith, refl),
  (
    at_small (rect_of 4 4 2 1) (copy_from 0 0) (omega arith) (omega arith) (omega arith)
        (omega arith) refl (omega arith, omega arith),
    (
      at_small (rect_of 0 6 8 2) (one_colour (wide (9 ∷ 8 ∷ 7 ∷ 255 ∷ []))) (omega arith)
          (omega arith) (omega arith) (omega arith) refl refl,
      (
        at_small (rect_of 3 3 0 0) point_here (omega arith) (omega arith) (omega arith)
            (omega arith) refl tt,
        (
          at_small (rect_of 0 0 8 8) (tiles one_tile) (omega arith) (omega arith) (omega arith)
              (omega arith) refl
              (
                omega arith,
                omega arith,
                (
                  omega arith,
                  (omega arith, (refl, omega arith, (spot-IsSpot, tt)), omega arith),
                  omega arith,
                ),
              ),
          tt,
        ),
      ),
    ),
  ),
)

read_update_jobs_example :
    read_update no_library (watching (update_bytes jobs ++ 7 ∷ []))
    ≡ (ok tt, onward (watching (update_bytes jobs ++ 7 ∷ [])) (7 ∷ []) (apply_all jobs screen))
read_update_jobs_example =
    read_update_jobs no_library jobs (7 ∷ []) (watching (update_bytes jobs ++ 7 ∷ [])) screen
      (watching-IsReady (update_bytes jobs ++ 7 ∷ [])) jobs-IsPlaced (omega arith) refl

two_tiles-AreRows : AreRows 32 (rect_of 0 0 20 2) 0 two_tiles
two_tiles-AreRows = (
  omega arith,
  (omega arith, (refl, omega arith, (spot-IsSpot, tt)), (omega arith, tt, omega arith)),
  omega arith,
)

hextile_read_draws_example :
    hextile_read (rect_of 0 0 20 2) (viewer_of (rows_bytes two_tiles ++ 7 ∷ [])) ≡ (
      ok tt,
      onward (viewer_of []) (7 ∷ []) (draw_rows two_tiles (rect_of 0 0 20 2) 0 (none, screen)),
    )
hextile_read_draws_example =
    hextile_read_draws (rect_of 0 0 20 2) two_tiles (7 ∷ [])
      (viewer_of (rows_bytes two_tiles ++ 7 ∷ [])) screen refl refl (omega arith) (omega arith)
      (omega arith) two_tiles-AreRows refl
