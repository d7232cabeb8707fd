-- ===== src/Paging/Meta/Slots/In.antt =====
-- `page_in_meta` keeps the invariant of the slots.
use mathlib.Core.Path.{subst}
use osassignment.Prelude.{
  ℕ, ◌+◌, ◌*◌, ◌/◌, ◌%◌, ◌≤◌, ◌<◌, ◌≡◌, ◌≢◌, refl, inl, inr, Bool, true, List, [], ◌∷◌, ◌++◌, ◌==◌,
  flag, length, get_or, set, count_if, count_if-disjoint, Bool-cases, arith, update_first-cases,
  Updated, ok, lt→ltb, length-set, get_or-set_self, get_or-set, count_if_mono,
}
use osassignment.Paging.Queue.{Page, holds_addr}
use osassignment.Paging.Queue.Fifo.{Holds, enqueue-Holds}
use osassignment.Paging.Meta.{
  Meta, is_paged_out, is_paged_in, page_in_meta, paged_in, has_vaddr, num_of_paged_out,
  num_of_paged_in,
}
use osassignment.Paging.Meta.Slots.{
  IsValid, backed_at, ram_at, back_at, is_malformed, is_misplaced, is_stale,
}

-- The slot that `page_in_meta` finds for an address of the swap file, other than 0.
back_slot :
    (m : Meta) (a : ℕ) (p : Page)
    → IsValid m
    → a ≢ 0
    → 0 < count_if (back_at a) m.pages
    → ((u : Page → Bool) → flag (u p) ≤ count_if u m.pages)
    → has_vaddr a p ≡ true
    → (p.exists ≡ 1) × (p.vaddr ≡ a) × (p.in_back ≡ 1) × (p.offset % 4096 ≡ 0) × (p.offset < 131072)
back_slot m a p v nz back member holds = ground (
  arith,
  v.unique a,
  v.flags,
  v.blank,
  v.placed,
  member (ram_at a),
  member is_malformed,
  member is_stale,
  member is_misplaced,
  count_if-disjoint (ram_at a) (back_at a) (holds_addr a) (λ p. ground arith) m.pages,
)

module _ (m : Meta) (a k : ℕ) (p : Page) (ps : List Page) (v : IsValid m) (lt : k < 32)
    (here : (p.exists ≡ 1) × (p.vaddr ≡ a) × (p.in_back ≡ 1) × (p.offset ≡ 4096 * k))
    (up : Updated (has_vaddr a) paged_in m.pages p ps) where
  in_taken_here : get_or (set m.offsets k 0) k 0 ≡ count_if (backed_at k) ps
  in_taken_here = ground (
    arith,
    get_or-set_self m.offsets k 0 0,
    v.places,
    v.taken k lt,
    v.marks k,
    up.counts (backed_at k),
    up.member (backed_at k),
  )

  in_taken : (j : ℕ) → j < 32 → get_or (set m.offsets k 0) j 0 ≡ count_if (backed_at j) ps
  in_taken j jlt = elim (Bool-cases (k == j)) [
    | inl e ↦
        subst (λ (i : ℕ). get_or (set m.offsets k 0) i 0 ≡ count_if (backed_at i) ps) (ground arith)
          in_taken_here
    | inr ne ↦
        ground
          (arith, get_or-set m.offsets k j 0 0, v.places, v.taken j jlt, up.counts (backed_at j))
  ]

  in-IsValid : (q : _) → IsValid (record { pages = ps; pq = q; offsets = set m.offsets k 0 })
  in-IsValid q = record {
    slots = omega (arith, v.slots, up.length_eq);
    places = omega (arith, v.places, length-set m.offsets k 0);
    flags = ground (arith, v.flags, up.counts is_malformed, up.member is_malformed);
    blank = ground (arith, v.blank, up.counts is_stale, up.member is_stale);
    unique = λ b. ground (arith, v.unique b, up.counts (holds_addr b));
    placed = ground (arith, v.placed, up.counts is_misplaced);
    taken = in_taken;
    marks = λ j. ground (arith, get_or-set m.offsets k j 0 0, v.places, v.marks j);
  }

-- `m'` is `m` with the page at `a`, and no other, moved from the swap file to memory, and put at the
-- end of the queue `xs`.
pub record PagedIn (m : Meta) (xs : List Page) (a : ℕ) (m' : Meta) : Type 0 where
  pub valid : IsValid m'
  pub page : Page
  pub queue : Holds m'.pq (xs ++ page ∷ [])
  pub page_addr : page.vaddr ≡ a
  pub fewer_out : num_of_paged_out m' + 1 ≡ num_of_paged_out m
  pub more_in : num_of_paged_in m' ≡ num_of_paged_in m + 1
  pub in_ram : count_if (ram_at a) m'.pages ≡ 1
  pub others_ram : (b : ℕ) → b ≢ a → count_if (ram_at b) m'.pages ≡ count_if (ram_at b) m.pages
  pub others_back : (b : ℕ) → b ≢ a → count_if (back_at b) m'.pages ≡ count_if (back_at b) m.pages

-- Paging in a page of the swap file at an address other than 0, with room in the queue, succeeds,
-- keeps the invariant, frees the page's place, and moves that page and no other.
pub page_in_meta-PagedIn :
    (m : Meta) (xs : List Page) (a : ℕ)
    → IsValid m
    → Holds m.pq xs
    → length xs < 32
    → a ≢ 0
    → 0 < count_if (back_at a) m.pages
    → (m' : Meta) × (page_in_meta m a ≡ ok (true, m')) × PagedIn m xs a m'
unfolding page_in_meta
page_in_meta-PagedIn m xs a v h room nz back =
    elim (update_first-cases (has_vaddr a) paged_in m.pages) [
      | inl (eq, c) ↦
          absurd
            (omega (arith, c, count_if_mono (back_at a) (has_vaddr a) (λ p. ground arith) m.pages))
      | inr (p, ps, eq, up) ↦
          let here : (p.exists ≡ 1)
              × (p.vaddr ≡ a)
              × (p.in_back ≡ 1)
              × (p.offset % 4096 ≡ 0)
              × (p.offset < 131072) =
            back_slot m a p v nz back up.member up.passes in
          let k : ℕ = p.offset / 4096 in
          let in_file : k < 32 = omega arith in
          let not_ram : count_if (ram_at a) m.pages ≡ 0 = omega (
            arith,
            v.unique a,
            count_if-disjoint (ram_at a) (back_at a) (holds_addr a) (λ p. ground arith) m.pages,
          ) in
          let (q, enq, held) = enqueue-Holds (paged_in p) h (ground arith) room in
          (
            record { pages = ps; pq = q; offsets = set m.offsets k 0 },
            rw (eq, page_in_meta) (rw (v.places, lt→ltb k 32 in_file, enq) refl),
            record {
              valid = in-IsValid m a k p ps v in_file (here.0, here.1, here.2, omega arith) up q;
              page = paged_in p;
              queue = held;
              page_addr = here.1;
              fewer_out = ground (arith, up.counts is_paged_out);
              more_in = ground (arith, up.counts is_paged_in);
              in_ram = ground (arith, up.counts (ram_at a), not_ram);
              others_ram = λ b ne. ground (arith, up.counts (ram_at b));
              others_back = λ b ne. ground (arith, up.counts (back_at b));
            },
          )
    ]
