-- ===== src/FileReader/Draws.antt =====
-- An update does to the canvas what it asks for.
use avacadovnc.Common.{
  ℕ, ◌≤◌, ◌≡◌, List, [], ◌∷◌, ◌++◌, true, some, Option, length, All, arith, refl, ap, ◌∙◌,
  append_assoc,
}
use avacadovnc.Wire.{IsU16, IsU32, be16, be32}
use avacadovnc.Outcome.{ok}
use avacadovnc.Canvas.{Canvas, Rectangle}
use avacadovnc.Conn.{hextile, Conn, raw, copy_rect, rre, pointer_pos, read_u32}
use avacadovnc.Conn.Access.{get_enc_instance, is_client}
use avacadovnc.Conn.Reads.{read_full_given, read_u16_given, read_u32_given}
use avacadovnc.Decode.Inflate.{Codecs}
use avacadovnc.Decode.Plain.{pointer_pos_read}
use avacadovnc.Decode.Plain.Laws.{raw_read_draws, copy_rect_read_copies}
use avacadovnc.Decode.Rre.Laws.{rre_read_background}
use avacadovnc.Decode.Hextile.Draws.{hextile_read_draws}
use avacadovnc.Decode.Dispatch.{found_read, encoding_read}
use avacadovnc.FileReader.{read_fields, read_rect, read_rects, read_update}
use avacadovnc.FileReader.Jobs.{
  tiles, Job, raw_pixels, copy_from, one_colour, point_here, tiles, Placed, apply, apply_all,
  job_type, job_data, field_bytes, placed_bytes, placed_all, update_bytes, IsJob, IsPlaced,
}

-- The encodings that the jobs need, each the first of its type.
pub record Supports (c : Conn) : Type 0 where
  pub raw_at : ℕ
  pub copy_at : ℕ
  pub rre_at : ℕ
  pub pointer_at : ℕ
  pub hextile_at : ℕ
  pub has_raw : get_enc_instance 0 c ≡ some (raw_at, raw)
  pub has_copy : get_enc_instance 1 c ≡ some (copy_at, copy_rect)
  pub has_rre : get_enc_instance 2 c ≡ some (rre_at, rre)
  pub has_pointer : get_enc_instance 4294967038 c ≡ some (pointer_at, pointer_pos)
  pub has_hextile : get_enc_instance 5 c ≡ some (hextile_at, hextile)

-- The connection after a part of the stream and of the drawing.
abbrev pub onward : Conn → List ℕ → Canvas → Conn
onward c rest k = record c { input = rest; canvas = some k }

module _ (cod : Codecs) (c : Conn) (k : Canvas) (isc : is_client c ≡ true) (hk : c.canvas ≡ some k)
    (pixels : 4 ≤ c.pixel_format.bpp) where
  point_read :
      (r : Rectangle) (rest : List ℕ)
      → c.input ≡ rest
      → pointer_pos_read r c ≡ (ok tt, onward c rest (apply (r, point_here) k))
  unfolding pointer_pos_read
  point_read r rest inp = ground arith

  job_read :
      (r : Rectangle) (j : Job) (rest : List ℕ)
      → Supports c
      → IsJob c.pixel_format.bpp r j
      → c.input ≡ job_data j ++ rest
      → found_read cod (get_enc_instance (job_type j) c) r c
        ≡ (ok tt, onward c rest (apply (r, j) k))
  unfolding found_read encoding_read
  job_read r (raw_pixels bytes) rest s (f, some_pixels, len) inp =
      rw s.has_raw (raw_read_draws r c k bytes rest isc hk pixels f some_pixels len inp)
  job_read r (copy_from x y) rest s (hx, hy) inp = rw s.has_copy (
      copy_rect_read_copies r c k x y rest isc hk hx hy (inp ∙ append_assoc (be16 x) (be16 y) rest))
  job_read r (one_colour colour) rest s len inp = rw s.has_rre (
      (rre_read_background r c k colour rest isc hk (λ e. omega arith) len
        (inp ∙ append_assoc (be32 0) colour rest)).0)
  job_read r point_here rest s t inp = rw s.has_pointer (point_read r rest inp)
  job_read r (tiles rows) rest s (fx, fy, v) inp =
      rw s.has_hextile (hextile_read_draws r rows rest c k isc hk pixels fx fy v inp)

read_fields_given :
    (r : Rectangle) (rest : List ℕ) (c : Conn)
    → IsU16 r.x
    → IsU16 r.y
    → IsU16 r.width
    → IsU16 r.height
    → r.enc_type ≡ 0
    → c.input ≡ field_bytes r ++ rest
    → read_fields c ≡ (ok r, record c { input = rest })
unfolding read_fields
read_fields_given r rest c hx hy hw hh e inp =
    let i3 : List ℕ = be16 r.height ++ rest in
    let i2 : List ℕ = be16 r.width ++ i3 in
    let i1 : List ℕ = be16 r.y ++ i2 in
    let plain : c.input ≡ be16 r.x ++ i1 = inp ∙ simp append_assoc in
    ground (
      arith,
      read_u16_given r.x i1 c plain hx,
      read_u16_given r.y i2 (record c { input = i1 }) refl hy,
      read_u16_given r.width i3 (record c { input = i2 }) refl hw,
      read_u16_given r.height rest (record c { input = i3 }) refl hh,
    )

job_type-IsU32 : (j : Job) → IsU32 (job_type j)
job_type-IsU32 j = ground arith

-- A connection that can take the jobs: a client with a canvas, with a `BPP` of at least four.
pub record IsReady (c : Conn) (k : Canvas) : Type 0 where
  pub a_client : is_client c ≡ true
  pub canvas : c.canvas ≡ some k
  pub pixels : 4 ≤ c.pixel_format.bpp
  pub supports : Supports c

Supports-elsewhere :
    (c : Conn) (rest : List ℕ) (screen : Option Canvas)
    → Supports c
    → Supports (record c { input = rest; canvas = screen })
unfolding get_enc_instance
Supports-elsewhere c rest screen s = record {
  raw_at = s.raw_at;
  copy_at = s.copy_at;
  rre_at = s.rre_at;
  pointer_at = s.pointer_at;
  hextile_at = s.hextile_at;
  has_raw = s.has_raw;
  has_copy = s.has_copy;
  has_rre = s.has_rre;
  has_pointer = s.has_pointer;
  has_hextile = s.has_hextile;
}

onward-IsReady :
    (c : Conn) (k k' : Canvas) (rest : List ℕ) → IsReady c k → IsReady (onward c rest k') k'
onward-IsReady c k k' rest h = record {
  a_client = h.a_client;
  canvas = refl;
  pixels = h.pixels;
  supports = Supports-elsewhere c rest (some k') h.supports;
}

read_rect_job :
    (cod : Codecs) (p : Placed) (rest : List ℕ) (c : Conn) (k : Canvas)
    → IsReady c k
    → IsPlaced c.pixel_format.bpp p
    → c.input ≡ placed_bytes p ++ rest
    → read_rect cod c ≡ (ok tt, onward c rest (apply p k))
unfolding read_rect get_enc_instance
read_rect_job cod (r, j) rest c k h v inp =
    let after : List ℕ = job_data j ++ rest in
    let typed : List ℕ = be32 (job_type j) ++ after in
    let c1 : Conn = record c { input = typed } in
    let c2 : Conn = record c { input = after } in
    let e1 : read_fields c ≡ (ok r, c1) =
      read_fields_given r typed c v.x_u16 v.y_u16 v.width_u16 v.height_u16 v.no_type
        (inp ∙ simp append_assoc) in
    let e2 : read_u32 c1 ≡ (ok (job_type j), c2) =
      read_u32_given (job_type j) after c1 refl (job_type-IsU32 j) in
    let e3 =
      job_read cod c2 k h.a_client h.canvas h.pixels r j rest
        (Supports-elsewhere c after c.canvas h.supports) v.job refl in
    rw (e1, e2) e3

nothing_read :
    (c : Conn) (k : Canvas) (rest : List ℕ) → IsReady c k → c.input ≡ rest → c ≡ onward c rest k
nothing_read c k rest h inp = ground (arith, h.canvas)

read_rects_jobs :
    (cod : Codecs) (ps : List Placed) (rest : List ℕ) (c : Conn) (k : Canvas)
    → IsReady c k
    → All (IsPlaced c.pixel_format.bpp) ps
    → c.input ≡ placed_all ps ++ rest
    → read_rects cod (length ps) c ≡ (ok tt, onward c rest (apply_all ps k))
unfolding read_rects
read_rects_jobs cod [] rest c k h v inp =
    ap (λ (d : Conn). (ok tt, d)) (nothing_read c k rest h inp)
read_rects_jobs cod (p ∷ ps) rest c k h (v, vs) inp =
    let after : List ℕ = placed_all ps ++ rest in
    let first : read_rect cod c ≡ (ok tt, onward c after (apply p k)) =
      read_rect_job cod p after c k h v
        (inp ∙ append_assoc (placed_bytes p) (placed_all ps) rest) in
    rw first (
      read_rects_jobs cod ps rest (onward c after (apply p k)) (apply p k)
        (onward-IsReady c k (apply p k) after h) vs refl)

-- On a client with a canvas whose format has a `BPP` of at least four and that knows raw, copy-rect,
-- RRE, Hextile and pointer-position rectangles, the reader of updates that the file-reader example
-- declares (a placeholder by its comment, which the example itself does not call) does to the canvas
-- what an update of up to 65535 of them asks for, in their order, and nothing else; it takes the bytes
-- of the update and leaves the rest. The bytes are in the layout that the decoders expect, in which a
-- colour and a pixel have `BPP` bytes each (32 for a format of 32 bits, eight times what the protocol
-- sends). An RRE rectangle has one colour here.
pub read_update_jobs :
    (cod : Codecs) (ps : List Placed) (rest : List ℕ) (c : Conn) (k : Canvas)
    → IsReady c k
    → All (IsPlaced c.pixel_format.bpp) ps
    → IsU16 (length ps)
    → c.input ≡ update_bytes ps ++ rest
    → read_update cod c ≡ (ok tt, onward c rest (apply_all ps k))
unfolding read_update
read_update_jobs cod ps rest c k h vs few inp =
    let counted : List ℕ = be16 (length ps) ++ (placed_all ps ++ rest) in
    let plain : c.input ≡ 0 ∷ counted = inp ∙ simp append_assoc in
    let c1 : Conn = record c { input = counted } in
    let c2 : Conn = record c { input = placed_all ps ++ rest } in
    rw
      (
        read_full_given 1 (0 ∷ []) counted c plain refl,
        read_u16_given (length ps) (placed_all ps ++ rest) c1 refl few,
      )
      (read_rects_jobs cod ps rest c2 k
        (record {
          a_client = h.a_client;
          canvas = h.canvas;
          pixels = h.pixels;
          supports = Supports-elsewhere c (placed_all ps ++ rest) c.canvas h.supports;
        })
        vs refl)
