-- ===== src/ClientApp.antt =====
-- example/client/main.go: `saveFrame` and the loop of `main` over the messages of the server. The drawing that
-- the connection does between two messages is an argument. example/file-reader/main.go makes its frames
-- in the same way.
pub mod Blank
use avacadovnc.Common.{
  ℕ, suc, List, [], ◌∷◌, ◌++◌, Bool, true, false, Option, none, some, if◌then◌else◌,
}
use avacadovnc.Wire.{u16}
use avacadovnc.Canvas.{Canvas, Rectangle, Rgba, transparent, draw}
use avacadovnc.Message.ToServer.{FramebufferUpdateRequest}

-- An image.RGBA that is written to a file.
pub record Frame : Type 0 where
  pub width : ℕ
  pub height : ℕ
  pub pixel : ℕ → ℕ → Rgba

abbrev pub new_frame : ℕ → ℕ → Frame
new_frame width height = record { width = width; height = height; pixel = λ x y. transparent }

-- The rectangle of the whole canvas, with its sizes as uint16.
abbrev whole : Canvas → Rectangle
whole k = record { x = 0; y = 0; width = u16 k.width; height = u16 k.height; enc_type = 0 }

-- `os.Create` of the file with a number, and `png.Encode` into it: whether they succeed.
pub record Disk : Type 0 where
  pub create : ℕ → Bool
  pub encode : ℕ → Frame → Bool

-- A file: its number, and its image if that was written whole.
abbrev pub Saved : Type 0
Saved = ℕ × Option Frame

abbrev pub save_file : Disk → ℕ → Frame → List Saved
save_file disk i img =
    if disk.create i then (i, if disk.encode i img then some img else none) ∷ [] else []

-- The file that is made, if any, and the canvas after the call of its `Draw`.
pub save_frame : Disk → ℕ → Canvas → List Saved × Canvas
save_frame disk i k =
    let img = new_frame k.width k.height in
    (save_file disk i img, draw img.pixel img.width img.height (whole k) k)

-- What the loop takes from the channel: a message, with what was drawn since the last one and the size of
-- the connection then.
pub record Event : Type 0 where
  pub is_update : Bool
  pub drawn : Canvas → Canvas
  pub width : ℕ
  pub height : ℕ

pub record App : Type 0 where
  pub canvas : Canvas
  pub frame_count : ℕ
  -- the files, with their numbers, and the requests that were sent
  pub saved : List Saved
  pub requests : List FramebufferUpdateRequest

abbrev pub request_of : ℕ → ℕ → ℕ → FramebufferUpdateRequest
request_of inc width height = record { inc = inc; x = 0; y = 0; width = width; height = height }

-- Before the loop: the canvas has the size of the connection, and all of it is asked for.
pub app_started : Canvas → ℕ → ℕ → App
app_started k width height = record {
  canvas = k;
  frame_count = 0;
  saved = [];
  requests = request_of 0 width height ∷ [];
}

abbrev after_save : Event → App → List Saved × Canvas → App
after_save e a (files, k) = record {
  canvas = k;
  frame_count = suc a.frame_count;
  saved = a.saved ++ files;
  requests = a.requests ++ request_of 1 e.width e.height ∷ [];
}

pub on_message : Disk → Event → App → App
unfolding save_frame
on_message disk e a = elim e.is_update [
  | true ↦ after_save e a (save_frame disk a.frame_count (e.drawn a.canvas))
  | false ↦ record a { canvas = e.drawn a.canvas }
]

-- The loop, until the channel is closed.
pub event_loop : Disk → List Event → App → App
unfolding on_message
event_loop disk [] a = a
event_loop disk (e ∷ es) a = event_loop disk es (on_message disk e a)
