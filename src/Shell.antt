-- ===== src/Shell.antt =====
-- The lexer of the shell, sh.c: `gettoken` and `peek`. The input is the list of the characters from `*ps` up
-- to `es`, where the line ends with a 0 and has no other.
pub mod Tokens
pub mod Parser
mod Tests
use osassignment.Prelude.{
  ℕ, zero, suc, Bool, true, false, not, ◌&&◌, List, [], ◌∷◌, Option, none, some, ◌==◌,
  if◌then◌else◌,
}
use osassignment.Text.Compare.{strchr}

-- space, tab, carriage return, newline and vertical tab
abbrev pub whitespace : List ℕ
whitespace = b' ' ∷ 9 ∷ 13 ∷ 10 ∷ 11 ∷ []

abbrev pub symbols : List ℕ
symbols = b'<' ∷ b'|' ∷ b'>' ∷ b'&' ∷ b';' ∷ b'(' ∷ b')' ∷ []

-- The cases of the switch that take one character.
abbrev pub operators : List ℕ
operators = b'|' ∷ b'(' ∷ b')' ∷ b';' ∷ b'&' ∷ b'<' ∷ []

-- Whether `strchr` finds the character.
unfoldable pub has : List ℕ → ℕ → Bool
has toks c = elim (strchr toks c) [ none ↦ false | some s ↦ true ]

unfoldable pub skip_blanks : List ℕ → List ℕ
skip_blanks [] = []
skip_blanks (c ∷ s) = let rest = skip_blanks s in if has whitespace c then rest else c ∷ s

-- The default case: the characters that are passed, and the rest.
unfoldable pub span_word : List ℕ → List ℕ × List ℕ
span_word [] = ([], [])
span_word (c ∷ s) =
    let rest = span_word s in
    if not (has whitespace c) && not (has symbols c) then (c ∷ rest.0, rest.1) else ([], c ∷ s)

unfoldable pub scan_great : List ℕ → ℕ × List ℕ × List ℕ
scan_great [] = (b'>', b'>' ∷ [], [])
scan_great (c ∷ s) = if c == b'>' then (b'+', b'>' ∷ b'>' ∷ [], s) else (b'>', b'>' ∷ [], c ∷ s)

-- The switch: what is returned, the text from `*q` to `*eq`, and the rest.
unfoldable pub scan_token : List ℕ → ℕ × List ℕ × List ℕ
unfolding span_word scan_great
scan_token [] = (0, [], [])
scan_token (c ∷ s) =
    let word = span_word (c ∷ s) in
    if has operators c
    then (c, c ∷ [], s)
    else if c == b'>'
    then scan_great s
    else (b'a', word.0, word.1)

unfoldable pub gettoken : List ℕ → ℕ × List ℕ × List ℕ
unfolding skip_blanks scan_token
gettoken s = let t = scan_token (skip_blanks s) in (t.0, t.1, skip_blanks t.2)

abbrev pub starts : (ℕ → Bool) → List ℕ → Bool
starts p [] = false
starts p (c ∷ s) = p c

-- The answer and the new `*ps`.
unfoldable pub peek : List ℕ → List ℕ → Bool × List ℕ
unfolding skip_blanks
peek s toks = (starts (has toks) (skip_blanks s), skip_blanks s)
