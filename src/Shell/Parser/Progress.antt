-- ===== src/Shell/Parser/Progress.antt =====
-- What the lexer takes from a line.
use osassignment.Prelude.{
  ℕ, ◌+◌, ◌≤◌, ◌<◌, ◌≡◌, ◌≢◌, refl, ap, ◌∙◌, ◌⊎◌, inl, inr, true, false, List, [], ◌∷◌, ◌++◌, ◌==◌,
  length, length-append, Bool-cases, arith,
}
use mathlib.Core.Path.{subst}
use osassignment.Shell.{
  scan_great, whitespace, operators, has, skip_blanks, scan_token, gettoken, starts, peek,
}
use osassignment.Shell.Tokens.{
  IsToken, gettoken-Lexed, not_operator, operator, ends, great, append, word, skip_blanks-stays,
  skip_blanks-starts,
}

IsToken-length :
    (ret : ℕ) (text next : List ℕ)
    → IsToken ret text next
    → ((ret ≡ 0) × (next ≡ [])) ⊎ ((ret ≢ 0) × (0 < length text))
IsToken-length ret text next ends = inl (refl, refl)
IsToken-length ret text next (operator c n h) = inr ((not_operator c h).0, omega arith)
IsToken-length ret text next (great n h) = inr (ground arith, omega arith)
IsToken-length ret text next (append n) = inr (ground arith, omega arith)
IsToken-length ret text next (word c s n a h) = inr (ground arith, omega arith)

-- `gettoken` returns 0 or takes a character.
pub gettoken-length :
    (s : List ℕ)
    → (length (gettoken s).2 ≤ length s)
      × (((gettoken s).0 ≡ 0) ⊎ ((gettoken s).0 ≢ 0) × (length (gettoken s).2 < length s))
gettoken-length s =
    let l = gettoken-Lexed s in
    let e : length s
        ≡ length l.before + (length (gettoken s).1 + (length l.after + length (gettoken s).2)) =
      ap length l.split
      ∙ length-append l.before ((gettoken s).1 ++ (l.after ++ (gettoken s).2))
      ∙ ap (λ (n : ℕ). length l.before + n)
          (length-append (gettoken s).1 (l.after ++ (gettoken s).2)
            ∙ ap (λ (n : ℕ). length (gettoken s).1 + n) (length-append l.after (gettoken s).2)) in
    (
      omega (arith, e),
      elim (IsToken-length (gettoken s).0 (gettoken s).1 (l.after ++ (gettoken s).2) l.token) [
        | inl (z, none_left) ↦ inl z
        | inr (ne, some_text) ↦ inr (ne, omega (arith, e, some_text))
      ],
    )

length-skip_blanks : (s : List ℕ) → length (skip_blanks s) ≤ length s
unfolding skip_blanks
length-skip_blanks [] = omega arith
length-skip_blanks (c ∷ s) = ground (arith, length-skip_blanks s)

pub peek-length : (s toks : List ℕ) → length (peek s toks).1 ≤ length s
unfolding peek
peek-length s toks = length-skip_blanks s

scan_great-some : (s : List ℕ) → (scan_great s).0 ≢ 0
unfolding scan_great
scan_great-some [] = ground arith
scan_great-some (c ∷ s) = elim (Bool-cases (c == b'>')) [
  | inl two ↦ rw two (ground arith)
  | inr one ↦ rw one (ground arith)
]

scan_token-some : (c : ℕ) (s : List ℕ) → (scan_token (c ∷ s)).0 ≢ 0
unfolding scan_token
scan_token-some c s = elim (Bool-cases (has operators c)) [
  | inl op ↦ rw op (not_operator c op).0
  | inr plain ↦ elim (Bool-cases (c == b'>')) [
    | inl more ↦ rw (plain, more) (scan_great-some s)
    | inr other ↦ rw (plain, other) (ground arith)
  ]
]

-- Where a line starts with no blank, only its end is the token 0.
gettoken-some : (c : ℕ) (s : List ℕ) → has whitespace c ≡ false → (gettoken (c ∷ s)).0 ≢ 0
unfolding gettoken
gettoken-some c s h z =
    scan_token-some c s
      (subst (λ (l : List ℕ). (scan_token l).0 ≡ 0) (skip_blanks-stays (c ∷ s) h) z)

-- After a `peek` that answers yes, `gettoken` takes a character.
pub peek-progress :
    (s toks : List ℕ) → (peek s toks).0 ≡ true → length (gettoken (peek s toks).1).2 < length s
unfolding peek
peek-progress s toks h = elim (gettoken-length (skip_blanks s)).1 [
  | inr (ne, less) ↦ omega (arith, less, length-skip_blanks s)
  | inl z ↦ absurd (yes_token (skip_blanks s) toks h (skip_blanks-starts s) z)
]
  where
    yes_token :
        (t toks : List ℕ)
        → starts (has toks) t ≡ true
        → starts (has whitespace) t ≡ false
        → (gettoken t).0 ≡ 0
        → ⊥
    yes_token [] toks h b z = absurd (cc)
    yes_token (c ∷ t) toks h b z = gettoken-some c t b z
