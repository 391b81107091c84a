-- ===== src/Conn/Rules.antt =====
-- Rules for a sequence of actions: what its parts rule out, the sequence rules out.
use avacadovnc.Common.{◌≢◌, ℕ, arith}
use avacadovnc.Outcome.{Outcome, ok, err, panic, out_of_fuel}
use avacadovnc.Conn.{Conn, M, resume, read_full, read_u8}

-- The call does not succeed.
abbrev pub Fails : {A : Type 0} → Outcome A × Conn → Type 0
Fails (ok a, c) = ⊥
Fails (err e, c) = Unit {0}
Fails (panic p, c) = Unit {0}

-- The call ends: no loop of the model ran out of rounds.
abbrev pub Halts : {A : Type 0} → Outcome A × Conn → Type 0
Halts r = r.0 ≢ panic out_of_fuel

read_full-Halts : (n : ℕ) (c : Conn) → Halts (read_full n c)
unfolding read_full
read_full-Halts n c = ground arith

pub read_u8-Halts : (c : Conn) → Halts (read_u8 c)
unfolding read_u8 read_full
read_u8-Halts c = ground arith

pub resume-Halts :
    {A B : Type 0} (r : Outcome A × Conn) (f : A → M B)
    → Halts r
    → ((a : A) (c : Conn) → Halts (f a c))
    → Halts (resume r f)
resume-Halts (ok a, c) f h k = k a c
resume-Halts (err e, c) f h k = λ p. cc
resume-Halts (panic p, c) f h k = λ q. h (cc)
