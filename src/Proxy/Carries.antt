-- ===== src/Proxy/Carries.antt =====
-- What a goroutine of the proxy has carried from its source.
use avacadovnc.Common.{ℕ, ◌≡◌, List, [], ◌++◌, Bool, true, false, ap, ◌∙◌, arith, append_assoc}
use avacadovnc.Proxy.{Link, Copier, reading, holding, copied, leaving, finished}

-- What was written is the beginning of what was sent; all of it, if the copying came to the end of
-- its source.
pub record IsPart (from : Link) (written : List ℕ) (clean : Bool) : Type 0 where
  pub rest : List ℕ
  pub prefix : from.sent ≡ written ++ rest
  pub whole : clean ≡ true → (from.ended ≡ true) × (rest ≡ [])

-- What a goroutine has carried from its source: no byte is lost while it copies.
abbrev pub Carries : Link → Copier → List ℕ → Type 0
Carries from reading written = from.sent ≡ written ++ from.unread
Carries from (holding bytes) written = from.sent ≡ written ++ (bytes ++ from.unread)
Carries from (copied clean) written = IsPart from written clean
Carries from (leaving clean) written = IsPart from written clean
Carries from (finished clean) written = IsPart from written clean

abbrev pub sending : Link → List ℕ → Link
sending from bytes = record from { sent = from.sent ++ bytes; unread = from.unread ++ bytes }

-- A source that has not ended has not been copied to its end.
sending-IsPart :
    (from : Link) (written bytes : List ℕ) (clean : Bool)
    → from.ended ≡ false
    → IsPart from written clean
    → IsPart (sending from bytes) written clean
sending-IsPart from written bytes clean live h = record {
  rest = h.rest ++ bytes;
  prefix = ap (λ (l : List ℕ). l ++ bytes) h.prefix ∙ append_assoc written h.rest bytes;
  whole = λ e. ground (arith, h.whole e);
}

pub Carries-sending :
    (from : Link) (written bytes : List ℕ) (c : Copier)
    → from.ended ≡ false
    → Carries from c written
    → Carries (sending from bytes) c written
Carries-sending from written bytes reading live h =
    ap (λ (l : List ℕ). l ++ bytes) h ∙ append_assoc written from.unread bytes
Carries-sending from written bytes (holding held) live h =
    ap (λ (l : List ℕ). l ++ bytes) h ∙ simp append_assoc
Carries-sending from written bytes (copied clean) live h =
    sending-IsPart from written bytes clean live h
Carries-sending from written bytes (leaving clean) live h =
    sending-IsPart from written bytes clean live h
Carries-sending from written bytes (finished clean) live h =
    sending-IsPart from written bytes clean live h

-- Of the source only what was sent, what is unread and whether it ended is looked at.
pub Carries-ended :
    (from to : Link) (written : List ℕ) (c : Copier)
    → to.sent ≡ from.sent
    → to.unread ≡ from.unread
    → (from.ended ≡ true → to.ended ≡ true)
    → Carries from c written
    → Carries to c written
Carries-ended from to written reading s u e h = rw (s, u) h
Carries-ended from to written (holding bytes) s u e h = rw (s, u) h
Carries-ended from to written (copied clean) s u e h = record {
  rest = h.rest;
  prefix = s ∙ h.prefix;
  whole = λ c. (e (h.whole c).0, (h.whole c).1);
}
Carries-ended from to written (leaving clean) s u e h = record {
  rest = h.rest;
  prefix = s ∙ h.prefix;
  whole = λ c. (e (h.whole c).0, (h.whole c).1);
}
Carries-ended from to written (finished clean) s u e h = record {
  rest = h.rest;
  prefix = s ∙ h.prefix;
  whole = λ c. (e (h.whole c).0, (h.whole c).1);
}

-- The copying ends with what is unread not carried over.
pub stops :
    (from : Link) (written : List ℕ) (rest : List ℕ)
    → from.sent ≡ written ++ rest
    → IsPart from written false
stops from written rest e = record { rest = rest; prefix = e; whole = λ q. cc }
