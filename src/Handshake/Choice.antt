-- ===== src/Handshake/Choice.antt =====
-- Which security handler the client takes, and that the server then finds one of that type.
use avacadovnc.Common.{
  ℕ, ◌≡◌, ◌⊎◌, List, [], ◌∷◌, ◌++◌, true, false, none, some, ◌==◌, map, arith, refl, All,
  Bool-cases, inl, inr, ap,
}
use avacadovnc.Conn.{
  SecurityHandler, security_none, security_vnc, security_aten_hermon, security_vencrypt_plain,
}
use avacadovnc.Conn.Access.{security_type}
use avacadovnc.Handshake.{choose, mem, find_handler}

abbrev pub In : ℕ → List ℕ → Type 0
In a [] = ⊥
In a (x ∷ xs) = (a ≡ x) ⊎ In a xs

mem→In : (a : ℕ) (xs : List ℕ) → mem a xs ≡ true → In a xs
mem→In a [] h = cc
mem→In a (x ∷ xs) h = ground (arith, mem→In a xs)

not_mem→not_In : (a : ℕ) (xs : List ℕ) → mem a xs ≡ false → ¬ (In a xs)
not_mem→not_In a [] h = λ i. i
not_mem→not_In a (x ∷ xs) h = ground (arith, not_mem→not_In a xs)

-- The handler is in the list, its type is offered, and no handler before it has an offered type.
pub record IsFirst (hs : List SecurityHandler) (offered : List ℕ) (h : SecurityHandler)
    : Type 0 where
  pub before : List SecurityHandler
  pub after : List SecurityHandler
  pub place : hs ≡ before ++ (h ∷ after)
  pub supported : In (security_type h) offered
  pub earlier : All (λ g. ¬ (In (security_type g) offered)) before

-- The handler that the client takes is its first whose type the server offers, and it takes none only
-- if the server offers the type of none.
pub choose-IsFirst :
    (hs : List SecurityHandler) (offered : List ℕ)
    → ((h : SecurityHandler) × (choose hs offered ≡ some h) × IsFirst hs offered h)
      ⊎ ((choose hs offered ≡ none) × All (λ g. ¬ (In (security_type g) offered)) hs)
unfolding choose
choose-IsFirst [] offered = inr (refl, tt)
choose-IsFirst (h ∷ hs) offered = elim (Bool-cases (mem (security_type h) offered)) [
  | inl yes_offered ↦ inl (
    h,
    rw yes_offered refl,
    record {
      before = [];
      after = hs;
      place = refl;
      supported = mem→In (security_type h) offered yes_offered;
      earlier = tt;
    },
  )
  | inr not_offered ↦ elim (choose-IsFirst hs offered) [
    | inl (g, found, first) ↦ inl (
      g,
      rw not_offered found,
      record {
        before = h ∷ first.before;
        after = first.after;
        place = ap (◌∷◌ h) first.place;
        supported = first.supported;
        earlier = (not_mem→not_In (security_type h) offered not_offered, first.earlier);
      },
    )
    | inr (missing, others) ↦
        inr (rw not_offered missing, (not_mem→not_In (security_type h) offered not_offered, others))
  ]
]

security_type_none : (h : SecurityHandler) → security_type h ≡ 1 → h ≡ security_none
unfolding security_type
security_type_none security_none e = refl
security_type_none (security_vnc p) e = cc
security_type_none security_aten_hermon e = cc
security_type_none security_vencrypt_plain e = cc

mem-find_handler :
    (hs : List SecurityHandler)
    → mem 1 (map security_type hs) ≡ true
    → find_handler hs 1 ≡ some security_none
unfolding find_handler
mem-find_handler [] e = cc
mem-find_handler (h ∷ hs) e = elim (Bool-cases (security_type h == 1)) [
  | inl same ↦ rw same (ap some (security_type_none h (ground arith)))
  | inr other ↦ rw other (mem-find_handler hs (ground arith))
]

choose→mem :
    (hs : List SecurityHandler) (offered : List ℕ) (h : SecurityHandler)
    → choose hs offered ≡ some h
    → mem (security_type h) offered ≡ true
unfolding choose
choose→mem [] offered h e = cc
choose→mem (g ∷ hs) offered h e = elim (Bool-cases (mem (security_type g) offered)) [
  | inl o ↦ ground arith
  | inr o ↦ choose→mem hs offered h (ground arith)
]

-- If the client takes the scheme "none" from the types of the server's handlers, the server finds its
-- own handler of that scheme.
pub find_handler_none :
    (hs ours : List SecurityHandler)
    → choose ours (map security_type hs) ≡ some security_none
    → find_handler hs 1 ≡ some security_none
find_handler_none hs ours e =
    mem-find_handler hs
      (unfold security_type in (choose→mem ours (map security_type hs) security_none e))
