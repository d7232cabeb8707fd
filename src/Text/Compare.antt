-- ===== src/Text/Compare.antt =====
-- The comparing functions of string.c and ulib.c. A string is the list of its characters without the 0.
use osassignment.Prelude.{
  ℕ, zero, suc, ◌+◌, ◌-◌, Option, none, some, List, [], ◌∷◌, leb, ◌==◌, if◌then◌else◌,
}
use osassignment.Prelude.Int.{ℤ, pos, negsuc}
use osassignment.Text.{Memory}

-- `*p - *q` of two unsigned characters
abbrev pub difference : ℕ → ℕ → ℤ
difference x y = if leb y x then pos (x - y) else negsuc (y - x - 1)

pub memcmp : Memory → ℕ → ℕ → ℕ → ℤ
memcmp m v1 v2 zero = pos 0
memcmp m v1 v2 (suc n) =
    let rest : ℤ = memcmp m (v1 + 1) (v2 + 1) n in
    if m v1 == m v2 then rest else difference (m v1) (m v2)

unfoldable pub strncmp : List ℕ → List ℕ → ℕ → ℤ
strncmp p q zero = pos 0
strncmp [] [] (suc n) = pos 0
strncmp [] (d ∷ q) (suc n) = difference 0 d
strncmp (c ∷ p) [] (suc n) = difference c 0
strncmp (c ∷ p) (d ∷ q) (suc n) =
    let rest : ℤ = strncmp p q n in if c == d then rest else difference c d

pub strcmp : List ℕ → List ℕ → ℤ
strcmp [] [] = pos 0
strcmp [] (d ∷ q) = difference 0 d
strcmp (c ∷ p) [] = difference c 0
strcmp (c ∷ p) (d ∷ q) = let rest : ℤ = strcmp p q in if c == d then rest else difference c d

pub strlen : List ℕ → ℕ
strlen [] = 0
strlen (c ∷ s) = strlen s + 1

-- The rest of the string from the character on; `none` is the null pointer.
unfoldable pub strchr : List ℕ → ℕ → Option (List ℕ)
strchr [] c = none
strchr (x ∷ s) c = let rest : Option (List ℕ) = strchr s c in if x == c then some (x ∷ s) else rest
