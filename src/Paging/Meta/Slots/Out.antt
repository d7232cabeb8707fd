-- ===== src/Paging/Meta/Slots/Out.antt =====
-- `page_out_meta` keeps the invariant of the slots.
use mathlib.Core.Path.{subst}
use osassignment.Prelude.{
  ℕ, ◌+◌, ◌*◌, ◌/◌, ◌≤◌, ◌<◌, ◌≡◌, ◌≢◌, refl, inl, inr, Bool, true, List, ◌==◌, flag, get_or, set,
  count_if, count_if-disjoint, Bool-cases, arith, update_first, update_first-cases, Updated, some,
  ok, lt→ltb, length-set, get_or-set_self, get_or-set, count_if_mono, count_if-cover,
}
use osassignment.Paging.Queue.{Page, holds_addr}
use osassignment.Paging.Meta.{
  Meta, is_paged_out, is_paged_in, page_out_meta, paged_out, get_free_page_offset, num_of_paged_out,
  num_of_paged_in,
}
use osassignment.Paging.Meta.Slots.Places.{get_free_page_offset_lem}
use osassignment.Paging.Meta.Slots.{
  IsValid, backed_at, ram_at, back_at, is_malformed, is_misplaced, is_stale,
}

-- The slot found for an address that is in memory is one in memory.
pub ram_slot :
    (m : Meta) (a : ℕ) (p : Page)
    → IsValid m
    → 0 < count_if (ram_at a) m.pages
    → ((u : Page → Bool) → flag (u p) ≤ count_if u m.pages)
    → holds_addr a p ≡ true
    → (p.exists ≡ 1) × (p.vaddr ≡ a) × (p.in_back ≡ 0)
ram_slot m a p v ram member holds = ground (
  arith,
  v.unique a,
  v.flags,
  member (back_at a),
  member is_malformed,
  count_if-disjoint (ram_at a) (back_at a) (holds_addr a) (λ p. ground arith) m.pages,
)

module _ (m : Meta) (a k : ℕ) (p : Page) (ps : List Page) (v : IsValid m) (lt : k < 32)
    (empty : count_if (backed_at k) m.pages ≡ 0)
    (here : (p.exists ≡ 1) × (p.vaddr ≡ a) × (p.in_back ≡ 0))
    (up : Updated (holds_addr a) (paged_out (4096 * k)) m.pages p ps) where
  out_taken_here : get_or (set m.offsets k 1) k 0 ≡ count_if (backed_at k) ps
  out_taken_here =
      ground (arith, get_or-set_self m.offsets k 1 0, v.places, up.counts (backed_at k), empty)

  out_taken : (j : ℕ) → j < 32 → get_or (set m.offsets k 1) j 0 ≡ count_if (backed_at j) ps
  out_taken j jlt = elim (Bool-cases (k == j)) [
    | inl e ↦
        subst (λ (i : ℕ). get_or (set m.offsets k 1) i 0 ≡ count_if (backed_at i) ps) (ground arith)
          out_taken_here
    | inr ne ↦
        ground
          (arith, get_or-set m.offsets k j 1 0, v.places, v.taken j jlt, up.counts (backed_at j))
  ]

  out-IsValid : IsValid (record m { pages = ps; offsets = set m.offsets k 1 })
  out-IsValid = record {
    slots = omega (arith, v.slots, up.length_eq);
    places = omega (arith, v.places, length-set m.offsets k 1);
    flags = ground (arith, v.flags, up.counts is_malformed, up.member is_malformed);
    blank = ground (arith, v.blank, up.counts is_stale, up.member is_stale);
    unique = λ b. ground (arith, v.unique b, up.counts (holds_addr b));
    placed = ground (arith, v.placed, up.counts is_misplaced);
    taken = out_taken;
    marks = λ j. ground (arith, get_or-set m.offsets k j 1 0, v.places, v.marks j);
  }

-- `m'` is `m` with the page at `a`, and no other, moved from memory to the swap file at `offset`.
pub record PagedOut (m : Meta) (a offset : ℕ) (m' : Meta) : Type 0 where
  pub valid : IsValid m'
  pub queue : m'.pq ≡ m.pq
  pub more_out : num_of_paged_out m' ≡ num_of_paged_out m + 1
  pub fewer_in : num_of_paged_in m' + 1 ≡ num_of_paged_in m
  pub backed : count_if (back_at a) m'.pages ≡ 1
  pub slot : Page
  pub found : update_first (back_at a) (λ p. p) m'.pages ≡ some (slot, m'.pages)
  pub slot_offset : slot.offset ≡ offset
  pub others_ram : (b : ℕ) → b ≢ a → count_if (ram_at b) m'.pages ≡ count_if (ram_at b) m.pages
  pub others_back : (b : ℕ) → b ≢ a → count_if (back_at b) m'.pages ≡ count_if (back_at b) m.pages

pub ram-le-in :
    (m : Meta) (a : ℕ) → IsValid m → count_if (ram_at a) m.pages ≤ count_if is_paged_in m.pages
ram-le-in m a v =
    omega (
      arith,
      v.flags,
      count_if-cover (ram_at a) is_paged_in is_malformed (λ p. ground arith) m.pages,
    )

module _ (m : Meta) (a : ℕ) (v : IsValid m) (ram : 0 < count_if (ram_at a) m.pages) where
  -- `page_out_meta` at a place where no page is.
  page_out_at :
      (k : ℕ)
      → k < 32
      → count_if (backed_at k) m.pages ≡ 0
      → (m' : Meta) × (page_out_meta m a (4096 * k) ≡ ok (true, m')) × PagedOut m a (4096 * k) m'
  unfolding page_out_meta
  page_out_at k lt empty = elim (update_first-cases (holds_addr a) (paged_out (4096 * k)) m.pages) [
    | inl (eq, c) ↦
        absurd
          (omega (arith, c, count_if_mono (ram_at a) (holds_addr a) (λ p. ground arith) m.pages))
    | inr (p, ps, eq, up) ↦
        let here : (p.exists ≡ 1) × (p.vaddr ≡ a) × (p.in_back ≡ 0) =
          ram_slot m a p v ram up.member up.passes in
        let not_backed : count_if (back_at a) m.pages ≡ 0 = omega (
          arith,
          v.unique a,
          count_if-disjoint (ram_at a) (back_at a) (holds_addr a) (λ p. ground arith) m.pages,
        ) in
        let place : 4096 * k / 4096 ≡ k = omega arith in
        (
          record m { pages = ps; offsets = set m.offsets k 1 },
          rw (eq, page_out_meta) (rw (place, v.places, lt→ltb k 32 lt) refl),
          record {
            valid = out-IsValid m a k p ps v lt empty here up;
            queue = refl;
            more_out = ground (arith, up.counts is_paged_out);
            fewer_in = ground (arith, up.counts is_paged_in);
            backed = ground (arith, up.counts (back_at a), not_backed);
            slot = paged_out (4096 * k) p;
            found = up.found (back_at a) (λ z. ground arith) (ground arith);
            slot_offset = refl;
            others_ram = λ b ne. ground (arith, up.counts (ram_at b));
            others_back = λ b ne. ground (arith, up.counts (back_at b));
          },
        )
  ]

  -- Paging out a page that is in memory, to the place that `getFreePageOffset` gives, succeeds, keeps
  -- the invariant and the queue, and moves that page and no other from memory to the swap file.
  pub page_out_meta-PagedOut :
      (m' : Meta) × (page_out_meta m a (get_free_page_offset m) ≡ ok (true, m'))
      × PagedOut m a (get_free_page_offset m) m'
  page_out_meta-PagedOut =
      let (k, lt, off, empty, free, few, ones) =
        get_free_page_offset_lem m v (omega (arith, ram-le-in m a v)) in
      rw off (page_out_at k lt empty)
