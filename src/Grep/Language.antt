-- ===== src/Grep/Language.antt =====
-- The language of a pattern, described without the matcher, and that the matcher decides it.
use osassignment.Prelude.{
  ℕ, ◌≡◌, ◌≢◌, refl, Bool, true, ◌||◌, List, [], ◌∷◌, ◌==◌, if◌then◌else◌, ◌↔◌, inl, inr,
  Bool-cases, arith,
}
use osassignment.Grep.{star, dot, dollar, caret, fits, matchstar, matchhere, match_from, match}

-- `Starts re text`: the pattern `re` matches a text that begins as `text` does.
pub data Starts : List ℕ → List ℕ → Type 0 where
  nothing : (text : List ℕ) → Starts [] text
  at_end : Starts (dollar ∷ []) []
  last : (c t : ℕ) (ts : List ℕ) → c ≢ dollar → fits c t ≡ true → Starts (c ∷ []) (t ∷ ts)
  single :
      (c d t : ℕ) (re ts : List ℕ)
      → d ≢ star
      → fits c t ≡ true
      → Starts (d ∷ re) ts
      → Starts (c ∷ d ∷ re) (t ∷ ts)
  no_more : (c : ℕ) (re text : List ℕ) → Starts re text → Starts (c ∷ star ∷ re) text
  more :
      (c t : ℕ) (re ts : List ℕ)
      → fits c t ≡ true
      → Starts (c ∷ star ∷ re) ts
      → Starts (c ∷ star ∷ re) (t ∷ ts)

-- Soundness and completeness, for a pattern whose rest is known to be right.
matchstar-sound :
    (c : ℕ) (re text : List ℕ) (here : List ℕ → Bool)
    → ((ts : List ℕ) → here ts ≡ true → Starts re ts)
    → matchstar c here text ≡ true
    → Starts (c ∷ star ∷ re) text
unfolding matchstar
matchstar-sound c re [] here s h = no_more c re [] (s [] h)
matchstar-sound c re (t ∷ ts) here s h = elim (Bool-cases (here (t ∷ ts))) [
  | inl now ↦ no_more c re (t ∷ ts) (s (t ∷ ts) now)
  | inr later ↦ elim (Bool-cases (t == c || c == dot)) [
    | inl one ↦
        more c t re ts (ground (arith, one))
          (matchstar-sound c re ts here s (ground (arith, later, one, h)))
    | inr stop ↦ absurd (ground (arith, later, stop, h))
  ]
]

pub matchhere-sound : (re text : List ℕ) → matchhere re text ≡ true → Starts re text
unfolding matchhere
matchhere-sound [] text h = nothing text
matchhere-sound (c ∷ []) [] h = elim (Bool-cases (c == dollar)) [
  | inl e ↦ let same : c ≡ dollar = ground arith in rw same at_end
  | inr ne ↦ absurd (ground (arith, ne, h))
]
matchhere-sound (c ∷ []) (t ∷ ts) h = elim (Bool-cases (c == dollar)) [
  | inl e ↦ absurd (ground (arith, e, h))
  | inr ne ↦ last c t ts (λ e. ground arith) (ground (arith, ne, h))
]
matchhere-sound (c ∷ d ∷ re) [] h = elim (Bool-cases (d == star)) [
  | inl e ↦
      let same : d ≡ star = ground arith in
      rw same (matchstar-sound c re [] (matchhere re) (matchhere-sound re) (rw (e, matchhere) at h))
  | inr ne ↦ absurd (ground (arith, ne, h))
]
matchhere-sound (c ∷ d ∷ re) (t ∷ ts) h = elim (Bool-cases (d == star)) [
  | inl e ↦
      let same : d ≡ star = ground arith in
      rw same
        (matchstar-sound c re (t ∷ ts) (matchhere re) (matchhere-sound re) (rw (e, matchhere) at h))
  | inr ne ↦ elim (Bool-cases (fits c t)) [
    | inl one ↦
        single c d t re ts (λ e. ground arith) one
          (matchhere-sound (d ∷ re) ts (ground (arith, ne, one, h)))
    | inr off ↦ absurd (ground (arith, ne, off, h))
  ]
]

matchstar-here :
    (c : ℕ) (text : List ℕ) (here : List ℕ → Bool) → here text ≡ true → matchstar c here text ≡ true
unfolding matchstar
matchstar-here c [] here h = h
matchstar-here c (t ∷ ts) here h = ground (arith, h)

matchstar-more :
    (c t : ℕ) (ts : List ℕ) (here : List ℕ → Bool)
    → fits c t ≡ true
    → matchstar c here ts ≡ true
    → matchstar c here (t ∷ ts) ≡ true
unfolding matchstar
matchstar-more c t ts here f h = elim (Bool-cases (here (t ∷ ts))) [
  | inl now ↦ ground (arith, now)
  | inr later ↦ ground (arith, later, f, h)
]

matchhere_complete : {re text : List ℕ} → Starts re text → matchhere re text ≡ true
unfolding matchhere
matchhere_complete (nothing text) = refl
matchhere_complete at_end = refl
matchhere_complete (last c t ts ne f) = ground (arith, ne, f)
matchhere_complete (single c d t re ts ne f r) = ground (arith, ne, f, matchhere_complete r)
matchhere_complete (no_more c re text r) =
    matchstar-here c text (matchhere re) (matchhere_complete r)
matchhere_complete (more c t re ts f r) =
    matchstar-more c t ts (matchhere re) f (matchhere_complete r)

-- Some part of the text, to its end, begins with a match.
pub data Found (re : List ℕ) : List ℕ → Type 0 where
  here : (text : List ℕ) → Starts re text → Found re text
  there : (t : ℕ) (ts : List ℕ) → Found re ts → Found re (t ∷ ts)

match_from_sound : (re text : List ℕ) → match_from re text ≡ true → Found re text
unfolding match_from
match_from_sound re [] h = here [] (matchhere-sound re [] h)
match_from_sound re (t ∷ ts) h = elim (Bool-cases (matchhere re (t ∷ ts))) [
  | inl now ↦ here (t ∷ ts) (matchhere-sound re (t ∷ ts) now)
  | inr later ↦ there t ts (match_from_sound re ts (ground (arith, later, h)))
]

match_from-here : (re text : List ℕ) → matchhere re text ≡ true → match_from re text ≡ true
unfolding match_from
match_from-here re [] h = h
match_from-here re (t ∷ ts) h = ground (arith, h)

match_from_complete : {re text : List ℕ} → Found re text → match_from re text ≡ true
unfolding match_from
match_from_complete {re} (here text s) = match_from-here re text (matchhere_complete s)
match_from_complete (there t ts f) = ground (arith, match_from_complete f)

-- What `match` is meant to accept: with a `^` in front the text begins with a match of the rest, and
-- else a match stands somewhere in the text.
abbrev pub Accepts : List ℕ → List ℕ → Type 0
Accepts [] text = Found [] text
Accepts (c ∷ re) text = if c == caret then Starts re text else Found (c ∷ re) text

-- `match` returns 1 for the texts in which the pattern occurs, by the rules of its language, and for
-- no others.
pub match_iff : (re text : List ℕ) → (match re text ≡ true) ↔ Accepts re text
unfolding match
match_iff [] text = (match_from_sound [] text, match_from_complete)
match_iff (c ∷ re) text = elim (Bool-cases (c == caret)) [
  | inl e ↦ (
    (λ h. rw e (matchhere-sound re text (rw (e, match) at h))),
    (λ a. rw (e, match) (matchhere_complete (rw e at a))),
  )
  | inr ne ↦ (
    (λ h. rw ne (match_from_sound (c ∷ re) text (rw (ne, match) at h))),
    (λ a. rw (ne, match) (match_from_complete (rw ne at a))),
  )
]
