-- ===== src/Grep.antt =====
-- grep.c: the matcher. A C string is the list of its characters without the 0 at its end, so that `re[0]`
-- and `re[1]` of a short pattern are 0.
pub mod Language
mod Tests
use osassignment.Prelude.{ℕ, Bool, true, false, ◌&&◌, ◌||◌, List, [], ◌∷◌, ◌==◌, if◌then◌else◌}

abbrev pub star : ℕ
star = 42

abbrev pub dot : ℕ
dot = 46

abbrev pub dollar : ℕ
dollar = 36

abbrev pub caret : ℕ
caret = 94

abbrev pub is_empty : List ℕ → Bool
is_empty [] = true
is_empty (x ∷ xs) = false

-- `c == '.' || c == t`
abbrev pub fits : ℕ → ℕ → Bool
fits c t = c == dot || c == t

-- `matchstar`, where `here` is `matchhere` of the rest of the pattern.
pub matchstar : ℕ → (List ℕ → Bool) → List ℕ → Bool
matchstar c here [] = here []
matchstar c here (t ∷ ts) =
    let rest : Bool = matchstar c here ts in
    if here (t ∷ ts) then true else if t == c || c == dot then rest else false

-- The test for a single character, where `here` is `matchhere` of the rest of the pattern.
abbrev pub match_one : ℕ → (List ℕ → Bool) → List ℕ → Bool
match_one c here [] = false
match_one c here (t ∷ ts) = if fits c t then here ts else false

pub matchhere : List ℕ → List ℕ → Bool
unfolding matchstar
matchhere [] text = true
matchhere (c ∷ []) text = if c == dollar then is_empty text else match_one c (λ ts. true) text
matchhere (c ∷ d ∷ re) text =
    let starred : Bool = matchstar c (matchhere re) text in
    let single : Bool = match_one c (matchhere (d ∷ re)) text in
    if d == star then starred else single

-- The loop of `match`, which also tries the end of the text.
pub match_from : List ℕ → List ℕ → Bool
unfolding matchhere
match_from re [] = matchhere re []
match_from re (t ∷ ts) =
    let rest : Bool = match_from re ts in if matchhere re (t ∷ ts) then true else rest

pub match : List ℕ → List ℕ → Bool
unfolding match_from matchhere
match [] text = match_from [] text
match (c ∷ re) text = if c == caret then matchhere re text else match_from (c ∷ re) text
