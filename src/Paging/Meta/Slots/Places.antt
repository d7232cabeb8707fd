-- ===== src/Paging/Meta/Slots/Places.antt =====
-- `getFreePageOffset`: what it returns, and why the swap file is never full while a page is in memory.
use osassignment.Prelude.{
  ℕ, zero, suc, ◌+◌, ◌*◌, ◌≤◌, ◌<◌, ◌≡◌, ◌≢◌, refl, ◌⊎◌, inl, inr, Bool, true, ◌&&◌, List, [], ◌∷◌,
  leb, ◌==◌, length, get_or, count_if, count_if-disjoint, count_if-le-length, count_if_mono,
  Bool-cases, arith,
}
use mathlib.Core.Path.{subst}
use osassignment.Paging.Queue.{Page}
use osassignment.Paging.Meta.{
  Meta, is_paged_out, is_paged_in, free_from, num_of_paged_out, get_free_page_offset,
  pgfile_full_err,
}
use osassignment.Paging.Meta.Slots.{IsValid, backed_at}

sum : List ℕ → ℕ
sum [] = 0
sum (n ∷ ns) = n + sum ns

-- The first place that is not marked 1, if there is one.
free_from-cases :
    (os : List ℕ) (i : ℕ)
    → ((j : ℕ) × (j < length os)
        × (get_or os j 0 ≢ 1)
        × (free_from os i ≡ 4096 * (i + j))
        × (j ≤ sum os)
        × ((l : ℕ) → l < j → get_or os l 0 ≡ 1))
      ⊎ ((free_from os i ≡ pgfile_full_err) × (length os ≤ sum os))
unfolding free_from sum
free_from-cases [] i = inr (refl, omega arith)
free_from-cases (o ∷ os) i = elim (Bool-cases (o == 1)) [
  | inl e ↦ elim (free_from-cases os (i + 1)) [
    | inl (j, lt, ne, eq, le, ones) ↦ inl (
      suc j,
      omega arith,
      ne,
      rw e (omega arith),
      ground arith,
      elim [ zero ↦ λ _. ground arith | suc l ↦ λ h. ones l (omega arith) ],
    )
    | inr (eq, le) ↦ inr (rw e eq, ground arith)
  ]
  | inr ne ↦
      inl (
        0,
        omega arith,
        ground arith,
        rw ne (omega arith),
        omega arith,
        λ l h. absurd (omega arith),
      )
]

-- pages in the swap file from place `k` on
abbrev backed_from : ℕ → Page → Bool
backed_from k p = is_paged_out p && leb (4096 * k) p.offset

-- Pages at distinct places are distinct.
sum-le-count :
    (os : List ℕ) (i : ℕ) (ps : List Page)
    → ((k : ℕ) → k < length os → get_or os k 0 ≡ count_if (backed_at (i + k)) ps)
    → sum os ≤ count_if (backed_from i) ps
unfolding sum
sum-le-count [] i ps h = omega arith
sum-le-count (o ∷ os) i ps h = omega (
  arith,
  head,
  sum-le-count os (i + 1) ps tail,
  count_if-disjoint (backed_at i) (backed_from (i + 1)) (backed_from i) (λ p. ground arith) ps,
)
  where
    head : o ≡ count_if (backed_at i) ps
    head = subst (λ (j : ℕ). o ≡ count_if (backed_at j) ps) (omega arith) (h 0 (omega arith))

    tail : (k : ℕ) → k < length os → get_or os k 0 ≡ count_if (backed_at (i + 1 + k)) ps
    tail k lt =
        subst (λ (j : ℕ). get_or os k 0 ≡ count_if (backed_at j) ps) (omega arith)
          (h (suc k) (omega arith))

-- While a page is in memory, `getFreePageOffset` returns an offset in the file, at a place where no
-- page is.
pub get_free_page_offset_lem :
    (m : Meta)
    → IsValid m
    → 0 < count_if is_paged_in m.pages
    → (k : ℕ) × (k < 32)
      × (get_free_page_offset m ≡ 4096 * k)
      × (count_if (backed_at k) m.pages ≡ 0)
      × (get_or m.offsets k 0 ≡ 0)
      × (k ≤ num_of_paged_out m)
      × ((l : ℕ) → l < k → get_or m.offsets l 0 ≡ 1)
unfolding get_free_page_offset
get_free_page_offset_lem m v h = elim (free_from-cases m.offsets 0) [
  | inl (j, lt, ne, eq, le, ones) ↦
      let empty : get_or m.offsets j 0 ≡ 0 = omega (arith, v.marks j) in
      let in_file : j < 32 = omega (arith, v.places) in
      (
        j,
        in_file,
        omega (arith, eq),
        omega (arith, v.taken j in_file),
        empty,
        omega (
          arith,
          sum-le-count m.offsets 0 m.pages (λ k lt. zero-taken k (omega (arith, v.places))),
          count_if_mono (backed_from 0) is_paged_out (λ p. ground arith) m.pages,
        ),
        ones,
      )
  | inr (eq, le) ↦ absurd (
      omega (
        arith,
        sum-le-count m.offsets 0 m.pages (λ k lt. zero-taken k (omega (arith, v.places))),
        count_if-disjoint (backed_from 0) is_paged_in (λ _. true) (λ p. ground arith) m.pages,
        count_if-le-length (λ _. true) m.pages,
        v.places,
        v.slots,
      ))
]
  where
    zero-taken : (k : ℕ) → k < 32 → get_or m.offsets k 0 ≡ count_if (backed_at (0 + k)) m.pages
    zero-taken k lt =
        subst (λ (j : ℕ). get_or m.offsets k 0 ≡ count_if (backed_at j) m.pages) (omega arith)
          (v.taken k lt)
