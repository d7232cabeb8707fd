-- ===== src/Kalloc/Pages.antt =====
-- The free list holds distinct pages of the kernel's memory; what is freed is what is allocated.
use osassignment.Prelude.{
  ℕ, zero, suc, ◌+◌, ◌-◌, ◌/◌, ◌%◌, ◌^◌, ◌≤◌, ◌<◌, ◌≡◌, ◌≢◌, refl, ap, sym, ◌||◌, some, List, [],
  ◌∷◌, ◌++◌, ◌∙◌, ◌*◌, ltb, leb, truth, length, ok, panic, All, All-mono, arith, Bool-cases, inl,
  inr,
}
use osassignment.Kalloc.{
  Kmem, v2p, phys_top, kern_base, write_frame, kfree, free_pages, freerange, kalloc, kalloc_from,
  num_free, count_from, pg_round_up,
}

count_from-length : (rs : List ℕ) (n : ℕ) → count_from rs n ≡ length rs + n
unfolding count_from
count_from-length [] n = omega arith
count_from-length (r ∷ rs) n = omega (arith, count_from-length rs (n + 1))

pub kalloc-cons :
    (k : Kmem) (r : ℕ) (rs : List ℕ)
    → k.freelist ≡ r ∷ rs
    → kalloc k ≡ some (r, record k { freelist = rs })
unfolding kalloc kalloc_from
kalloc-cons k r rs e = rw e refl

-- no two entries are equal
abbrev pub Distinct : List ℕ → Type 0
Distinct [] = Unit
Distinct (x ∷ xs) = All (λ y. y ≢ x) xs × Distinct xs

-- The `n` pages from `p` on, the highest first.
abbrev pub pages_down : ℕ → ℕ → List ℕ
pages_down zero p = []
pages_down (suc n) p = (p + 4096 * n) ∷ pages_down n p

pages_down-append :
    (n p : ℕ) (rs : List ℕ) → pages_down n (p + 4096) ++ p ∷ rs ≡ pages_down (suc n) p ++ rs
pages_down-append zero p rs = let e : p ≡ p + 4096 * 0 = omega arith in ap (λ x. x ∷ rs) e
pages_down-append (suc n) p rs =
    let e : p + 4096 + 4096 * n ≡ p + 4096 * suc n = omega arith in
    ap (λ x. x ∷ (pages_down n (p + 4096) ++ p ∷ rs)) e
    ∙ ap (λ l. (p + 4096 * suc n) ∷ l) (pages_down-append n p rs)

module _ (end : ℕ) where
  -- An address that `kfree` accepts.
  abbrev pub IsPage : ℕ → Type 0
  IsPage v = (v % 4096 ≡ 0) × (end ≤ v) × (v2p v < phys_top)

  pub record IsValid (k : Kmem) : Type 0 where
    pub pages : All IsPage k.freelist
    pub distinct : Distinct k.freelist

  pub kfree-ok :
      (k : Kmem) (v : ℕ)
      → IsPage v
      → kfree end k v
        ≡ ok (record { freelist = v ∷ k.freelist; frames = write_frame k.frames v (λ _. 1) })
  unfolding kfree
  kfree-ok k v h = ground arith

  -- Freeing a page that is not free succeeds and keeps the list valid.
  pub kfree-IsValid :
      (k : Kmem) (v : ℕ)
      → IsValid k
      → IsPage v
      → All (λ y. y ≢ v) k.freelist
      → (k' : Kmem) × (kfree end k v ≡ ok k')
        × IsValid k'
        × (kalloc k' ≡ some (v, record k { frames = k'.frames }))
  unfolding kalloc kalloc_from
  kfree-IsValid k v h p fresh = (
    record { freelist = v ∷ k.freelist; frames = write_frame k.frames v (λ _. 1) },
    kfree-ok k v p,
    record { pages = (p, h.pages); distinct = (fresh, h.distinct) },
    refl,
  )

  -- `kfree` panics on every other address.
  pub kfree_panic : (k : Kmem) (v : ℕ) → ¬ (IsPage v) → kfree end k v ≡ panic
  unfolding kfree
  kfree_panic k v h = elim (Bool-cases (truth (v % 4096) || ltb v end || leb phys_top (v2p v))) [
    | inl bad ↦ rw bad
    | inr good ↦ absurd (h (ground arith, ground arith, ground arith))
  ]

  -- The loop frees every whole page of the range.
  free_pages-IsValid :
      (n : ℕ) (k : Kmem) (p vend : ℕ)
      → IsValid k
      → p % 4096 ≡ 0
      → end ≤ p
      → kern_base ≤ p
      → vend ≤ kern_base + phys_top
      → All (λ y. y < p) k.freelist
      → (vend - p) / 4096 ≤ n
      → (k' : Kmem) × (free_pages end n k p vend ≡ ok k')
        × IsValid k'
        × (k'.freelist ≡ pages_down ((vend - p) / 4096) p ++ k.freelist)
  unfolding free_pages
  free_pages-IsValid zero k p vend h al lo kb hi below enough =
      let none_left : (vend - p) / 4096 ≡ 0 = omega (arith, enough) in
      (k, refl, h, ap (λ i. pages_down i p ++ k.freelist) (sym none_left))
  free_pages-IsValid (suc n) k p vend h al lo kb hi below enough =
      elim (Bool-cases (leb (p + 4096) vend)) [
        | inl more ↦
            let room : p + 4096 ≤ vend = ground arith in
            let page : IsPage p = (al, lo, omega arith) in
            let fresh : All (λ y. y ≢ p) k.freelist =
              All-mono (λ y. y < p) (λ y. y ≢ p) k.freelist (λ y l e. omega arith) below in
            let k1 : Kmem = record {
              freelist = p ∷ k.freelist;
              frames = write_frame k.frames p (λ _. 1);
            } in
            let m : ℕ = (vend - (p + 4096)) / 4096 in
            let one_more : (vend - p) / 4096 ≡ suc m = omega (arith, room) in
            let (k', eq, valid, list) =
              free_pages-IsValid n k1 (p + 4096) vend
                (record { pages = (page, h.pages); distinct = (fresh, h.distinct) }) (omega arith)
                (omega arith) (omega arith) hi
                (
                  omega arith,
                  All-mono (λ y. y < p) (λ y. y < p + 4096) k.freelist (λ y l. omega arith) below,
                )
                (omega arith) in
            (
              k',
              rw (more, free_pages) (rw (kfree-ok k p page) eq),
              valid,
              list
                  ∙ pages_down-append m p k.freelist
                  ∙ ap (λ i. pages_down i p ++ k.freelist) (sym one_more),
            )
        | inr done ↦
            let none_left : (vend - p) / 4096 ≡ 0 = ground (arith, done) in
            (
              k,
              rw (done, free_pages) refl,
              h,
              ap (λ i. pages_down i p ++ k.freelist) (sym none_left),
            )
      ]

  -- `freerange` of a range inside the kernel's memory, with an empty list, does not panic: the free list is
  -- then the whole pages of the range, each once, the highest first, and `kfree` accepts each of them.
  pub freerange-IsValid :
      (k : Kmem) (vstart vend : ℕ)
      → k.freelist ≡ []
      → end ≤ vstart
      → kern_base ≤ vstart
      → vstart < 2 ^ 32 - 4096
      → vend ≤ kern_base + phys_top
      → (k' : Kmem) × (freerange end k vstart vend ≡ ok k')
        × IsValid k'
        × (k'.freelist ≡ pages_down ((vend - pg_round_up vstart) / 4096) (pg_round_up vstart))
        × (num_free k' ≡ (vend - pg_round_up vstart) / 4096)
  unfolding freerange num_free
  freerange-IsValid k vstart vend e lo kb small hi =
      let (k', eq, valid, list) =
        free_pages-IsValid (vend / 4096) k (pg_round_up vstart) vend
          (record { pages = rw e tt; distinct = rw e tt }) (omega arith) (omega arith) (omega arith)
          hi (rw e tt) (omega arith) in
      let exact =
        list ∙ only_pages ((vend - pg_round_up vstart) / 4096) (pg_round_up vstart) k.freelist e in
      (
        k',
        eq,
        valid,
        exact,
        omega (
          arith,
          count_from-length k'.freelist 0,
          ap length exact,
          length-pages_down ((vend - pg_round_up vstart) / 4096) (pg_round_up vstart),
        ),
      )
    where
      only_pages : (n p : ℕ) (rs : List ℕ) → rs ≡ [] → pages_down n p ++ rs ≡ pages_down n p
      only_pages zero p rs z = z
      only_pages (suc n) p rs z = ap (λ l. (p + 4096 * n) ∷ l) (only_pages n p rs z)

      length-pages_down : (n p : ℕ) → length (pages_down n p) ≡ n
      length-pages_down zero p = refl
      length-pages_down (suc n) p = ap suc (length-pages_down n p)
