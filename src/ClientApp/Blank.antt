-- ===== src/ClientApp/Blank.antt =====
-- What the frames show.
use avacadovnc.Common.{
  ℕ, zero, suc, ◌<◌, ◌≡◌, ◌∙◌, refl, ap, sym, List, [], ◌∷◌, ◌++◌, true, false, Bool-cases, inl,
  inr, arith, All, map, if◌then◌else◌, append-nil, append_assoc, none, some,
}
use avacadovnc.Canvas.{Canvas, transparent, draw, on_canvas, rect_bounds}
use avacadovnc.ClientApp.{
  Frame, new_frame, Disk, Saved, save_file, save_frame, Event, App, request_of, app_started,
  on_message, event_loop,
}
use avacadovnc.Message.ToServer.{FramebufferUpdateRequest}

-- A canvas of fewer than 65536 columns and rows: saveFrame writes an image of its size without any
-- colour, and wipes the canvas itself, so that every pixel of it is transparent then.
save_frame_wipes :
    (disk : Disk) (i : ℕ) (k : Canvas) (x y : ℕ)
    → k.width < 65536
    → k.height < 65536
    → on_canvas k x y ≡ true
    → ((save_frame disk i k).0 ≡ save_file disk i (new_frame k.width k.height))
      × ((save_frame disk i k).1.pixel x y ≡ transparent)
unfolding save_frame draw rect_bounds
save_frame_wipes disk i k x y w h on = (refl, ground arith)

-- The number of updates among the messages.
abbrev updates : List Event → ℕ
updates [] = 0
updates (e ∷ es) = if e.is_update then suc (updates es) else updates es

-- A file whose image has no colour at all.
abbrev pub IsBlank : Saved → Type 0
IsBlank (i, none) = Unit {0}
IsBlank (i, some img) = (x y : ℕ) → img.pixel x y ≡ transparent

-- The numbers from `i` on whose files can be made.
abbrev numbers : Disk → ℕ → ℕ → List ℕ
numbers disk i zero = []
numbers disk i (suc n) = (if disk.create i then i ∷ [] else []) ++ numbers disk (suc i) n

abbrev pub names : List Saved → List ℕ
names fs = map (λ (f : Saved). f.0) fs

-- The request for the changes after each update, in the size that the connection has then.
abbrev asked : List Event → List FramebufferUpdateRequest
asked [] = []
asked (e ∷ es) = if e.is_update then request_of 1 e.width e.height ∷ asked es else asked es

names-append : (fs gs : List Saved) → names (fs ++ gs) ≡ names fs ++ names gs
names-append [] gs = refl
names-append (f ∷ fs) gs = ap (λ (l : List ℕ). f.0 ∷ l) (names-append fs gs)

All-append : (fs gs : List Saved) → All IsBlank fs → All IsBlank gs → All IsBlank (fs ++ gs)
All-append [] gs h b = b
All-append (f ∷ fs) gs (h, hs) b = (h, All-append fs gs hs b)

module _ (disk : Disk) where
  names-save_file :
      (i : ℕ) (img : Frame) → names (save_file disk i img) ≡ (if disk.create i then i ∷ [] else [])
  names-save_file i img = ground arith

  save_file-IsBlank :
      (i : ℕ) (img : Frame)
      → ((x y : ℕ) → img.pixel x y ≡ transparent)
      → All IsBlank (save_file disk i img)
  save_file-IsBlank i img h = elim (Bool-cases (disk.create i)) [
    | inl made ↦ elim (Bool-cases (disk.encode i img)) [
      | inl whole ↦ rw (made, whole) (h, tt)
      | inr cut ↦ rw (made, cut) (tt, tt)
    ]
    | inr not_made ↦ rw not_made tt
  ]

  record IsRun (a b : App) (es : List Event) : Type 0 where
    files : names b.saved ≡ names a.saved ++ numbers disk a.frame_count (updates es)
    blank : All IsBlank a.saved → All IsBlank b.saved
    sent : b.requests ≡ a.requests ++ asked es

  record IsSaved (e : Event) (a b : App) : Type 0 where
    file :
        b.saved
        ≡ a.saved
          ++ save_file disk a.frame_count
              (new_frame (e.drawn a.canvas).width (e.drawn a.canvas).height)
    count : b.frame_count ≡ suc a.frame_count
    asks : b.requests ≡ a.requests ++ request_of 1 e.width e.height ∷ []

  update_saves : (e : Event) (a : App) → e.is_update ≡ true → IsSaved e a (on_message disk e a)
  unfolding on_message save_frame
  update_saves e a u = rw u (record { file = refl; count = refl; asks = refl })

  record IsSame (a b : App) : Type 0 where
    file : b.saved ≡ a.saved
    count : b.frame_count ≡ a.frame_count
    asks : b.requests ≡ a.requests

  other_message : (e : Event) (a : App) → e.is_update ≡ false → IsSame a (on_message disk e a)
  unfolding on_message
  other_message e a u = rw u (record { file = refl; count = refl; asks = refl })

  module _ (e : Event) (es : List Event) (a c : App) where
    saved_first :
        IsRun (on_message disk e a) c es
        → e.is_update ≡ true
        → IsSaved e a (on_message disk e a)
        → IsRun a c (e ∷ es)
    saved_first run u s = record {
      files =
          run.files
          ∙ rw (s.file, s.count, u)
              (ap (λ (l : List ℕ). l ++ numbers disk (suc a.frame_count) (updates es))
                  (names-append a.saved _
                    ∙ ap (λ (l : List ℕ). names a.saved ++ l) (names-save_file a.frame_count _))
                ∙ append_assoc (names a.saved)
                    (if disk.create a.frame_count then a.frame_count ∷ [] else [])
                    (numbers disk (suc a.frame_count) (updates es)));
      blank = λ h.
          run.blank
            (rw s.file (All-append a.saved _ h (save_file-IsBlank a.frame_count _ (λ x y. refl))));
      sent =
          run.sent
          ∙ rw (s.asks, u)
              (append_assoc a.requests (request_of 1 e.width e.height ∷ []) (asked es));
    }

    other_first :
        IsRun (on_message disk e a) c es
        → e.is_update ≡ false
        → IsSame a (on_message disk e a)
        → IsRun a c (e ∷ es)
    other_first run u s = record {
      files = run.files ∙ rw (s.file, s.count, u) refl;
      blank = λ h. run.blank (rw s.file h);
      sent = run.sent ∙ rw (s.asks, u) refl;
    }

  event_loop-IsRun : (es : List Event) (a : App) → IsRun a (event_loop disk es a) es
  unfolding event_loop
  event_loop-IsRun [] a = record {
    files = sym (append-nil (names a.saved));
    blank = λ h. h;
    sent = sym (append-nil a.requests);
  }
  event_loop-IsRun (e ∷ es) a =
      let run = event_loop-IsRun es (on_message disk e a) in
      let last = event_loop disk es (on_message disk e a) in
      elim (Bool-cases e.is_update) [
        | inl one ↦ saved_first e es a last run one (update_saves e a one)
        | inr not_one ↦ other_first e es a last run not_one (other_message e a not_one)
      ]

-- Whatever messages come, whatever is drawn between them and whichever files can be made and written: the
-- updates are numbered from 0, and the loop of the program makes the files of those numbers that can be
-- made; no image that is written whole has any colour; the loop asks for the whole screen once, and after each
-- update, also if its file could not be made, for the changes in the size that the connection has then.
pub event_loop-IsBlank :
    (disk : Disk) (es : List Event) (k : Canvas) (width height : ℕ)
    → let a = event_loop disk es (app_started k width height) in
      (names a.saved ≡ numbers disk 0 (updates es))
      × All IsBlank a.saved
      × (a.requests ≡ request_of 0 width height ∷ asked es)
unfolding app_started
event_loop-IsBlank disk es k width height =
    let run = event_loop-IsRun disk es (app_started k width height) in
    (run.files, run.blank tt, run.sent)
