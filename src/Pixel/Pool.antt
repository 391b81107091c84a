-- ===== src/Pixel/Pool.antt =====
-- The buffers that `Marshal` borrows from `bPool` (encoding_util.go, lines 82 to 89). A buffer is an address, and
-- the slice that `Bytes` returns is seen through it: it has what was written there last. Which buffer
-- `Get` of sync.Pool takes is the argument `pick`.
use avacadovnc.Common.{ℕ, suc, ◌≡◌, refl, List, ◌∷◌, Option, none, some, ◌==◌, if◌then◌else◌, arith}
use avacadovnc.Outcome.{Outcome, ok, err, panic}
use avacadovnc.Pixel.{PixelFormat, marshal}

-- `content b` is what the array of buffer `b` holds; the addresses from `fresh` on are not in use.
pub record Buffers : Type 0 where
  pub fresh : ℕ
  pub content : ℕ → List ℕ
  pub pooled : List ℕ

abbrev pub Pick : Type 0
Pick = List ℕ → Option (ℕ × List ℕ)

-- `Get`: a buffer of the pool, or a new one.
unfoldable get_buffer : Pick → Buffers → ℕ × Buffers
get_buffer pick h = elim (pick h.pooled) [
  | none ↦ (h.fresh, record h { fresh = suc h.fresh })
  | some (b, others) ↦ (b, record h { pooled = others })
]

abbrev put_buffer : ℕ → Buffers → Buffers
put_buffer b h = record h { pooled = b ∷ h.pooled }

-- `Reset` and the write that follows it.
abbrev fill_buffer : ℕ → List ℕ → Buffers → Buffers
fill_buffer b bytes h = record h { content = λ a. if a == b then bytes else h.content a }

abbrev filled : List ℕ → ℕ × Buffers → Outcome ℕ × Buffers
filled bytes (b, h) = (ok b, put_buffer b (fill_buffer b bytes h))

-- `Marshal`, with the buffer behind the slice that it returns: the deferred `Put` has run.
pub marshal_pooled : Pick → PixelFormat → Buffers → Outcome ℕ × Buffers
unfolding get_buffer
marshal_pooled pick pf h = elim (marshal pf) [
  | ok bytes ↦ filled bytes (get_buffer pick h)
  | err e ↦ (err e, h)
  | panic f ↦ (panic f, h)
]

marshal_pooled_given :
    (pick : Pick) (pf : PixelFormat) (bytes : List ℕ) (h : Buffers)
    → marshal pf ≡ ok bytes
    → marshal_pooled pick pf h ≡ filled bytes (get_buffer pick h)
unfolding marshal_pooled
marshal_pooled_given pick pf bytes h e = rw (e, marshal_pooled) refl

-- Marshal of two formats that it accepts, one after the other, whichever buffers the pool hands out: each
-- call returns a slice that holds its format then, and the buffer of the first slice is back in the pool when
-- the first call returns; after the second call the first slice holds the second format if the pool has handed
-- out the same buffer again, and its own format if not.
pub marshal_overwrites :
    (pick : Pick) (pf qf : PixelFormat) (first second : List ℕ) (h : Buffers)
    → marshal pf ≡ ok first
    → marshal qf ≡ ok second
    → (a b : ℕ) × (others : List ℕ) × (let one = marshal_pooled pick pf h in
        let two = marshal_pooled pick qf one.1 in
        (one.0 ≡ ok a)
        × (two.0 ≡ ok b)
        × (one.1.content a ≡ first)
        × (one.1.pooled ≡ a ∷ others)
        × (two.1.content b ≡ second)
        × (two.1.content a ≡ (if a == b then second else first)))
unfolding get_buffer
marshal_overwrites pick pf qf first second h p q =
    let h1 = (filled first (get_buffer pick h)).1 in
    let a = (get_buffer pick h).0 in
    let b = (get_buffer pick h1).0 in
    let one = marshal_pooled_given pick pf first h p in
    let two = marshal_pooled_given pick qf second h1 q in
    (
      a,
      b,
      (get_buffer pick h).1.pooled,
      rw (one, two) (refl, refl, ground arith, refl, ground arith, ground arith),
    )
