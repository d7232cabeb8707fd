-- ===== src/Shell/Tokens.antt =====
-- How `gettoken` splits a line, and what `peek` foresees.
use osassignment.Prelude.{
  ℕ, ◌≡◌, ◌≢◌, refl, sym, ap, ◌∙◌, inl, inr, Bool, true, false, not, ◌&&◌, List, [], ◌∷◌, ◌++◌,
  ◌==◌, All, Bool-cases, arith,
}
use mathlib.Core.Path.{subst}
use osassignment.Text.Compare.{strchr}
use osassignment.Shell.{
  whitespace, symbols, operators, has, skip_blanks, span_word, scan_great, scan_token, gettoken,
  starts, peek,
}

abbrev pub is_blank : ℕ → Bool
is_blank c = has whitespace c

-- A character of a word.
abbrev pub is_plain : ℕ → Bool
is_plain c = not (has whitespace c) && not (has symbols c)

-- The token that starts a text: what is returned, its characters, and what follows them.
pub data IsToken : ℕ → List ℕ → List ℕ → Type 0 where
  ends : IsToken 0 [] []
  operator : (c : ℕ) (next : List ℕ) → has operators c ≡ true → IsToken c (c ∷ []) next
  great : (next : List ℕ) → starts (λ c. c == b'>') next ≡ false → IsToken b'>' (b'>' ∷ []) next
  append : (next : List ℕ) → IsToken b'+' (b'>' ∷ b'>' ∷ []) next
  word :
      (c : ℕ) (s next : List ℕ)
      → All (λ x. is_plain x ≡ true) (c ∷ s)
      → starts is_plain next ≡ false
      → IsToken b'a' (c ∷ s) next

skip_blanks-blanks :
    (s : List ℕ) → (b : List ℕ) × (s ≡ b ++ skip_blanks s) × All (λ c. is_blank c ≡ true) b
unfolding skip_blanks
skip_blanks-blanks [] = ([], refl, tt)
skip_blanks-blanks (c ∷ s) = elim (Bool-cases (has whitespace c)) [
  | inl blank ↦
      let (b, e, all) = skip_blanks-blanks s in (c ∷ b, rw blank (ap (λ l. c ∷ l) e), (blank, all))
  | inr other ↦ ([], rw other refl, tt)
]

pub skip_blanks-starts : (s : List ℕ) → starts is_blank (skip_blanks s) ≡ false
unfolding skip_blanks
skip_blanks-starts [] = refl
skip_blanks-starts (c ∷ s) = elim (Bool-cases (has whitespace c)) [
  | inl blank ↦ rw blank (skip_blanks-starts s)
  | inr other ↦ rw (other, other) refl
]

pub skip_blanks-stays : (s : List ℕ) → starts is_blank s ≡ false → skip_blanks s ≡ s
unfolding skip_blanks
skip_blanks-stays [] h = refl
skip_blanks-stays (c ∷ s) h = rw h refl

span_word-append : (s : List ℕ) → s ≡ (span_word s).0 ++ (span_word s).1
unfolding span_word
span_word-append [] = refl
span_word-append (c ∷ s) = elim (Bool-cases (is_plain c)) [
  | inl plain ↦ rw plain (ap (λ l. c ∷ l) (span_word-append s))
  | inr other ↦ rw other refl
]

span_word-All : (s : List ℕ) → All (λ x. is_plain x ≡ true) (span_word s).0
unfolding span_word
span_word-All [] = tt
span_word-All (c ∷ s) = elim (Bool-cases (is_plain c)) [
  | inl plain ↦ rw (span_word, plain) (plain, span_word-All s)
  | inr other ↦ rw (span_word, other) tt
]

span_word-starts : (s : List ℕ) → starts is_plain (span_word s).1 ≡ false
unfolding span_word
span_word-starts [] = refl
span_word-starts (c ∷ s) = elim (Bool-cases (is_plain c)) [
  | inl plain ↦ rw plain (span_word-starts s)
  | inr other ↦ rw (other, other) refl
]

span_word-first :
    (c : ℕ) (s : List ℕ) → is_plain c ≡ true → (span_word (c ∷ s)).0 ≡ c ∷ (span_word s).0
unfolding span_word
span_word-first c s h = rw h refl

not_symbol : (c : ℕ) → has operators c ≡ false → (c == b'>') ≡ false → has symbols c ≡ false
unfolding has strchr
not_symbol c h g = ground (arith, h, g)

-- The switch splits a text that does not start with a blank.
scan_token-IsToken :
    (s : List ℕ)
    → starts is_blank s ≡ false
    → (s ≡ (scan_token s).1 ++ (scan_token s).2)
      × IsToken (scan_token s).0 (scan_token s).1 (scan_token s).2
unfolding scan_token scan_great
scan_token-IsToken [] h = (refl, ends)
scan_token-IsToken (c ∷ s) h = elim (Bool-cases (has operators c)) [
  | inl op ↦ rw op (refl, operator c s op)
  | inr plain ↦ elim (Bool-cases (c == b'>')) [
    | inl g ↦ let e : c ≡ b'>' = ground (arith, g) in rw (plain, g, e) (scan_great-IsToken s)
    | inr other ↦
        let first : is_plain c ≡ true =
          (let sym_free = not_symbol c plain other in rw (h, sym_free) refl) in
        let w = span_word-first c s first in
        rw (scan_token, plain, other)
          (
            span_word-append (c ∷ s),
            subst (λ (l : List ℕ). IsToken b'a' l (span_word (c ∷ s)).1) (sym w)
                (word c (span_word s).0 (span_word (c ∷ s)).1
                  (subst (λ (l : List ℕ). All (λ x. is_plain x ≡ true) l) w (span_word-All (c ∷ s)))
                  (span_word-starts (c ∷ s))),
          )
  ]
]
  where
    scan_great-IsToken :
        (s : List ℕ)
        → (b'>' ∷ s ≡ (scan_great s).1 ++ (scan_great s).2)
          × IsToken (scan_great s).0 (scan_great s).1 (scan_great s).2
    scan_great-IsToken [] = (refl, great [] refl)
    scan_great-IsToken (c ∷ s) = elim (Bool-cases (c == b'>')) [
      | inl g ↦ let e : c ≡ b'>' = ground (arith, g) in rw (g, e) (refl, append s)
      | inr other ↦ rw other (refl, great (c ∷ s) other)
    ]

-- What `gettoken` makes of a line: blanks, a token, blanks, and a rest that starts with none.
pub record Lexed (s : List ℕ) (ret : ℕ) (text rest : List ℕ) : Type 0 where
  pub before : List ℕ
  pub after : List ℕ
  pub split : s ≡ before ++ (text ++ (after ++ rest))
  pub before_blank : All (λ c. is_blank c ≡ true) before
  pub after_blank : All (λ c. is_blank c ≡ true) after
  pub rest_starts : starts is_blank rest ≡ false
  pub token : IsToken ret text (after ++ rest)

-- `gettoken` splits every line into blanks, one token and blanks, with no character lost, and leaves a
-- rest that does not start with a blank. The token is the longest there: an operator, `>>` as `+` and `>`
-- only where no second one follows, a word up to the next blank or symbol, and 0 only at the end of the
-- line.
pub gettoken-Lexed : (s : List ℕ) → Lexed s (gettoken s).0 (gettoken s).1 (gettoken s).2
unfolding gettoken
gettoken-Lexed s =
    let (b, e, blanks) = skip_blanks-blanks s in
    let (split, token) = scan_token-IsToken (skip_blanks s) (skip_blanks-starts s) in
    let (a, e', blanks') = skip_blanks-blanks (scan_token (skip_blanks s)).2 in
    record {
      before = b;
      after = a;
      split = e ∙ ap (λ l. b ++ l) (split ∙ ap (λ l. (scan_token (skip_blanks s)).1 ++ l) e');
      before_blank = blanks;
      after_blank = blanks';
      rest_starts = skip_blanks-starts (scan_token (skip_blanks s)).2;
      token =
          subst
            (λ (l : List ℕ).
              IsToken (scan_token (skip_blanks s)).0 (scan_token (skip_blanks s)).1 l)
            e' token;
    }

has-one : (c x : ℕ) → has (c ∷ []) x ≡ (x == c)
unfolding has strchr
has-one c x = ground arith

-- What `gettoken` returns for other tokens.
pub not_operator : (c : ℕ) → has operators c ≡ true → (c ≢ 0) × (c ≢ b'>') × (c ≢ b'+') × (c ≢ b'a')
unfolding has strchr
not_operator c h = (ground (arith, h), ground (arith, h), ground (arith, h), ground (arith, h))

ret-scan_great : (s : List ℕ) (c : ℕ) → c ≢ b'>' → c ≢ b'+' → ((scan_great s).0 == c) ≡ false
unfolding scan_great
ret-scan_great [] c g p = ground (arith, g)
ret-scan_great (x ∷ s) c g p = elim (Bool-cases (x == b'>')) [
  | inl two ↦ rw two (ground (arith, p))
  | inr one ↦ rw one (ground (arith, g))
]

starts-scan_token :
    (s : List ℕ) (c : ℕ)
    → has operators c ≡ true
    → starts (has (c ∷ [])) s ≡ ((scan_token s).0 == c)
unfolding scan_token scan_great
starts-scan_token [] c h = let (z, g, p, a) = not_operator c h in ground (arith, z)
starts-scan_token (x ∷ s) c h =
    let (z, g, p, a) = not_operator c h in
    elim (Bool-cases (has operators x)) [
      | inl op ↦ rw op (has-one c x)
      | inr plain ↦
          let xc : x == c ≡ false = elim (Bool-cases (x == c)) [
            | inr o ↦ o
            | inl q ↦
                let e : x ≡ c = ground (arith, q) in
                let op : has operators x ≡ true =
                  subst (λ (y : ℕ). has operators y ≡ true) (sym e) h in
                absurd (cc)
          ] in
          has-one c x
          ∙ xc
          ∙ sym (elim (Bool-cases (x == b'>')) [
            | inl more ↦ rw (plain, more) (ret-scan_great s c g p)
            | inr other ↦ rw (plain, other) (ground (arith, a))
          ])
    ]

-- For an operator of one character, `peek` answers yes exactly when `gettoken` is about to return it, and
-- what `peek` skips does not change what `gettoken` returns.
pub peek-gettoken :
    (s : List ℕ) (c : ℕ)
    → has operators c ≡ true
    → ((peek s (c ∷ [])).0 ≡ ((gettoken s).0 == c)) × (gettoken (peek s (c ∷ [])).1 ≡ gettoken s)
unfolding peek gettoken
peek-gettoken s c h =
    let again = skip_blanks-stays (skip_blanks s) (skip_blanks-starts s) in
    (starts-scan_token (skip_blanks s) c h, rw again refl)
