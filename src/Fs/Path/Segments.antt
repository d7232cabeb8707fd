-- ===== src/Fs/Path/Segments.antt =====
-- The names that `skipelem` takes from a path, one after the other.
use osassignment.Prelude.{
  ℕ, suc, ◌≤◌, ◌<◌, ◌≡◌, refl, sym, ap, ◌∙◌, inl, inr, true, false, none, some, List, [], ◌∷◌, ◌++◌,
  ◌⊎◌, Bool, ◌==◌, if◌then◌else◌, length, take, Bool-cases, arith,
}
use osassignment.Fs.Dir.{dirsiz}
use osassignment.Fs.Path.{is_nil, skip_slashes, span_elem, skipelem}

-- The names between the slashes, with none for slashes that follow each other: `part` is the name read so
-- far.
abbrev add_segment : List ℕ → List (List ℕ) → List (List ℕ)
add_segment [] rest = rest
add_segment (c ∷ p) rest = (c ∷ p) ∷ rest

unfoldable pub segments_from : List ℕ → List ℕ → List (List ℕ)
segments_from part [] = add_segment part []
segments_from part (c ∷ p) =
    let next = segments_from [] p in
    let longer = segments_from (part ++ c ∷ []) p in
    if c == b'/' then add_segment part next else longer

unfoldable pub segments : List ℕ → List (List ℕ)
unfolding segments_from
segments path = segments_from [] path

segments-skip_slashes : (p : List ℕ) → segments p ≡ segments (skip_slashes p)
unfolding segments segments_from skip_slashes
segments-skip_slashes [] = refl
segments-skip_slashes (c ∷ p) = elim (Bool-cases (c == b'/')) [
  | inl slash ↦ rw slash (segments-skip_slashes p)
  | inr other ↦ rw (other, other) refl
]

cons_append : (q s : List ℕ) (c : ℕ) → (q ++ c ∷ []) ++ s ≡ q ++ c ∷ s
cons_append [] s c = refl
cons_append (x ∷ q) s c = ap (λ l. x ∷ l) (cons_append q s c)

append_nil : (q : List ℕ) → q ++ [] ≡ q
append_nil [] = refl
append_nil (x ∷ q) = ap (λ l. x ∷ l) (append_nil q)

segments_from-span_elem :
    (part p : List ℕ)
    → segments_from part p
      ≡ add_segment (part ++ (span_elem p).0) (segments (skip_slashes (span_elem p).1))
unfolding segments_from segments span_elem skip_slashes
segments_from-span_elem part [] = ap (λ l. add_segment l []) (sym (append_nil part))
segments_from-span_elem part (c ∷ p) = elim (Bool-cases (c == b'/')) [
  | inl slash ↦
      rw (slash, slash)
        (ap (λ l. add_segment l (segments p)) (sym (append_nil part))
          ∙ ap (add_segment (part ++ [])) (segments-skip_slashes p))
  | inr other ↦ rw other (
      segments_from-span_elem (part ++ c ∷ []) p
      ∙ ap (λ l. add_segment l (segments (skip_slashes (span_elem p).1)))
          (cons_append part (span_elem p).0 c))
]

length-skip_slashes : (p : List ℕ) → length (skip_slashes p) ≤ length p
unfolding skip_slashes
length-skip_slashes [] = omega arith
length-skip_slashes (c ∷ p) = ground (arith, length-skip_slashes p)

length-span_elem : (p : List ℕ) → length (span_elem p).1 ≤ length p
unfolding span_elem
length-span_elem [] = omega arith
length-span_elem (c ∷ p) = ground (arith, length-span_elem p)

abbrev pub no_segments : List (List ℕ) → Bool
no_segments [] = true
no_segments (x ∷ l) = false

-- What is left of a path after its leading slashes is empty, or starts with another character.
skip_slashes-cases :
    (p : List ℕ)
    → (skip_slashes p ≡ [])
      ⊎ ((c : ℕ) × (q : List ℕ) × (skip_slashes p ≡ c ∷ q) × ((c == b'/') ≡ false))
unfolding skip_slashes
skip_slashes-cases [] = inl refl
skip_slashes-cases (c ∷ p) = elim (Bool-cases (c == b'/')) [
  | inl slash ↦ rw slash (skip_slashes-cases p)
  | inr other ↦ rw other (inr (c, p, refl, other))
]

segments-first :
    (c : ℕ) (p : List ℕ)
    → (c == b'/') ≡ false
    → segments (c ∷ p) ≡ (span_elem (c ∷ p)).0 ∷ segments (skip_slashes (span_elem (c ∷ p)).1)
unfolding segments segments_from span_elem
segments-first c p other = rw other (segments_from-span_elem (c ∷ []) p)

segments-nil : segments [] ≡ []
unfolding segments segments_from
segments-nil = refl

is_nil-skip_slashes :
    (p : List ℕ) → is_nil (skip_slashes p) ≡ no_segments (segments (skip_slashes p))
is_nil-skip_slashes p = elim (skip_slashes-cases p) [
  | inl e ↦ rw e (ap no_segments (sym segments-nil))
  | inr (c, q, e, other) ↦ rw (e, segments-first c q other) refl
]

length-rest :
    (path : List ℕ) (c : ℕ) (p : List ℕ)
    → skip_slashes path ≡ c ∷ p
    → (c == b'/') ≡ false
    → length (skip_slashes (span_elem (c ∷ p)).1) < length path
unfolding span_elem
length-rest path c p e other =
    let a = length-skip_slashes (span_elem p).1 in
    let b = length-span_elem p in
    let d = length-skip_slashes path in
    let f : length (skip_slashes path) ≡ suc (length p) = rw e refl in
    rw other (omega (arith, a, b, d, f))

-- `skipelem` takes the first name of the path, cut to 14 bytes, and leaves a shorter path with the other
-- names; it finds none exactly when the path has no name.
pub data Taken (path : List ℕ) : Type 0 where
  nothing : skipelem path ≡ none → segments path ≡ [] → Taken path
  name :
      (s rest : List ℕ)
      → skipelem path ≡ some (rest, take dirsiz s)
      → segments path ≡ s ∷ segments rest
      → is_nil rest ≡ no_segments (segments rest)
      → length rest < length path
      → Taken path

pub skipelem-Taken : (path : List ℕ) → Taken path
unfolding skipelem
skipelem-Taken path = elim (skip_slashes-cases path) [
  | inl e ↦ nothing (rw (skipelem, e) refl) (segments-skip_slashes path ∙ rw e segments-nil)
  | inr (c, p, e, other) ↦
      name (span_elem (c ∷ p)).0 (skip_slashes (span_elem (c ∷ p)).1) (rw (skipelem, e) refl)
        (segments-skip_slashes path ∙ (rw e (segments-first c p other)))
        (is_nil-skip_slashes (span_elem (c ∷ p)).1) (length-rest path c p e other)
]
