-- ===== src/Prelude/Scan.antt =====
-- Loops that go up an array to the first entry that passes a test, and what they leave unchanged.
use Prim.Native.Nat.{ℕ, suc, ◌+◌, ◌≤◌}
use mathlib.Core.Path.{◌≡◌, refl, ap}
use mathlib.Core.Logic.{◌⊎◌, inl, inr}
use mathlib.Core.Bool.{Bool, true, false}
use mathlib.Core.Option.{Option, none, some}
use mathlib.Core.List.{List, [], ◌∷◌, ◌++◌}
use native.Mathlib.Omega.{arith}
use osassignment.Prelude.Tests.{if◌then◌else◌, Bool-cases}
use osassignment.Prelude.Lists.{length}

-- A truth value as a C integer.
abbrev pub flag : Bool → ℕ
flag true = 1
flag false = 0

module _ {ℓ} {A : Type ℓ} where
  -- How many entries pass a test.
  abbrev pub count_if : (A → Bool) → List A → ℕ
  count_if t [] = 0
  count_if t (x ∷ xs) = flag (t x) + count_if t xs

  -- The first entry that passes, and the array with that entry changed by `f`.
  unfoldable pub update_first : (A → Bool) → (A → A) → List A → Option (A × List A)
  update_first t f [] = none
  update_first t f (x ∷ xs) =
      if t x
      then some (x, f x ∷ xs)
      else elim (update_first t f xs) [ none ↦ none | some (y, ys) ↦ some (y, x ∷ ys) ]

  -- What the loop does when it finds an entry.
  pub record Updated (t : A → Bool) (f : A → A) (xs : List A) (x : A) (ys : List A) : Type ℓ where
    pub passes : t x ≡ true
    pub length_eq : length ys ≡ length xs
    pub member : (u : A → Bool) → flag (u x) ≤ count_if u xs
    pub counts : (u : A → Bool) → count_if u ys + flag (u x) ≡ count_if u xs + flag (u (f x))
    pub found :
        (u : A → Bool)
        → ((z : A) → u z ≡ true → t z ≡ true)
        → u (f x) ≡ true
        → update_first u (λ z. z) ys ≡ some (f x, ys)

  pub Updated-cons :
      (t : A → Bool) (f : A → A) (z : A) (xs : List A) (x : A) (ys : List A)
      → t z ≡ false
      → Updated t f xs x ys
      → Updated t f (z ∷ xs) x (z ∷ ys)
  unfolding update_first
  Updated-cons t f z xs x ys ne h = record {
    passes = h.passes;
    length_eq = ap suc h.length_eq;
    member = λ u. omega (arith, h.member u);
    counts = λ u. omega (arith, h.counts u);
    found = λ u sub e. let skip : u z ≡ false = ground (arith, sub z) in rw (skip, h.found u sub e);
  }

  pub Updated-here :
      (t : A → Bool) (f : A → A) (z : A) (xs : List A)
      → t z ≡ true
      → Updated t f (z ∷ xs) z (f z ∷ xs)
  unfolding update_first
  Updated-here t f z xs e = record {
    passes = e;
    length_eq = refl;
    member = λ u. omega arith;
    counts = λ u. omega arith;
    found = λ u sub e. rw e;
  }

  -- The loop finds an entry exactly when one passes.
  pub update_first-cases :
      (t : A → Bool) (f : A → A) (xs : List A)
      → ((update_first t f xs ≡ none) × (count_if t xs ≡ 0))
        ⊎ ((x : A) × (ys : List A) × (update_first t f xs ≡ some (x, ys)) × Updated t f xs x ys)
  unfolding update_first
  update_first-cases t f [] = inl (refl, refl)
  update_first-cases t f (z ∷ xs) = elim (Bool-cases (t z)) [
    | inl e ↦ inr (z, f z ∷ xs, rw e, Updated-here t f z xs e)
    | inr ne ↦ elim (update_first-cases t f xs) [
      | inl (eq, c) ↦ inl (rw (ne, eq), rw (ne, c) (omega arith))
      | inr (x, ys, eq, h) ↦ inr (x, z ∷ ys, rw (ne, eq), Updated-cons t f z xs x ys ne h)
    ]
  ]

  -- Disjoint tests count towards any test that covers both.
  pub count_if-disjoint :
      (u v w : A → Bool)
      → ((x : A) → flag (u x) + flag (v x) ≤ flag (w x))
      → (xs : List A) → count_if u xs + count_if v xs ≤ count_if w xs
  count_if-disjoint u v w h [] = omega arith
  count_if-disjoint u v w h (x ∷ xs) = omega (arith, h x, count_if-disjoint u v w h xs)

  pub count_if_mono :
      (u w : A → Bool)
      → ((x : A) → flag (u x) ≤ flag (w x))
      → (xs : List A) → count_if u xs ≤ count_if w xs
  count_if_mono u w h [] = omega arith
  count_if_mono u w h (x ∷ xs) = omega (arith, h x, count_if_mono u w h xs)

  pub count_if-le-length : (u : A → Bool) (xs : List A) → count_if u xs ≤ length xs
  count_if-le-length u [] = omega arith
  count_if-le-length u (x ∷ xs) = ground (arith, count_if-le-length u xs)

  pub count_if-cover :
      (u v w : A → Bool)
      → ((x : A) → flag (u x) ≤ flag (v x) + flag (w x))
      → (xs : List A) → count_if u xs ≤ count_if v xs + count_if w xs
  count_if-cover u v w h [] = omega arith
  count_if-cover u v w h (x ∷ xs) = omega (arith, h x, count_if-cover u v w h xs)

  pub count_if-append :
      (u : A → Bool) (xs ys : List A) → count_if u (xs ++ ys) ≡ count_if u xs + count_if u ys
  count_if-append u [] ys = omega arith
  count_if-append u (x ∷ xs) ys = omega (arith, count_if-append u xs ys)
