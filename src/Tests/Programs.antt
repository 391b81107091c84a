-- ===== src/Tests/Programs.antt =====
-- The example programs at concrete inputs.
use avacadovnc.Common.{◌≡◌, List, [], ◌∷◌, true, false, All, ltb}
use avacadovnc.ClientApp.{Disk, Event, request_of, app_started, event_loop}
use avacadovnc.ClientApp.Blank.{IsBlank, names, event_loop-IsBlank}
use avacadovnc.Tests.Data.{screen}

-- A cut text, and two updates with a resize between them.
abbrev events : List Event
events =
    record { is_update = false; drawn = λ k. k; width = 8; height = 8 }
    ∷ record { is_update = true; drawn = λ k. k; width = 8; height = 8 }
    ∷ record { is_update = true; drawn = λ k. record k { width = 4 }; width = 4; height = 8 }
    ∷ []

-- A disk on which the first file cannot be made.
abbrev poor_disk : Disk
poor_disk = record { create = λ i. ltb 0 i; encode = λ i img. true }

event_loop-IsBlank_example :
    let a = event_loop poor_disk events (app_started screen 8 8) in
    (names a.saved ≡ 1 ∷ [])
    × All IsBlank a.saved
    × (a.requests ≡ request_of 0 8 8 ∷ request_of 1 8 8 ∷ request_of 1 4 8 ∷ [])
event_loop-IsBlank_example = event_loop-IsBlank poor_disk events screen 8 8
