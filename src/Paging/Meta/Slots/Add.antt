-- ===== src/Paging/Meta/Slots/Add.antt =====
-- `add_new_page` keeps the invariant of the slots.
use osassignment.Prelude.{
  ℕ, ◌+◌, ◌<◌, ◌≡◌, ◌≢◌, refl, inl, inr, Bool, true, false, not, List, [], ◌∷◌, ◌++◌, truth, length,
  count_if, Bool-cases, arith, Updated, Updated-cons, Updated-here, some, ok, panic, count_if_mono,
}
use osassignment.Paging.Queue.{Page, holds_addr}
use osassignment.Paging.Queue.Fifo.{Holds, enqueue-Holds}
use osassignment.Paging.Meta.{
  Meta, is_paged_out, is_paged_in, add_new_page, add_scan, new_page, num_of_paged_out,
  num_of_paged_in, is_allocated, get_allocated_pages,
}
use osassignment.Paging.Meta.Slots.{
  IsValid, backed_at, ram_at, back_at, is_malformed, is_misplaced, is_stale,
}

abbrev is_free : Page → Bool
is_free p = not (truth p.exists)

length-count : (ps : List Page) → count_if is_free ps + count_if is_allocated ps ≡ length ps
length-count [] = refl
length-count (p ∷ ps) = ground (arith, length-count ps)

-- With no page at the address the loop takes the first free slot.
add_scan_new :
    (a : ℕ) (ps : List Page)
    → count_if (holds_addr a) ps ≡ 0
    → 0 < count_if is_free ps
    → (p : Page) × (qs : List Page) × (add_scan ps a ≡ ok (some qs))
      × Updated is_free (λ _. new_page a) ps p qs
unfolding add_scan
add_scan_new a [] e f = absurd (omega arith)
add_scan_new a (p ∷ ps) e f = elim (Bool-cases (truth p.exists)) [
  | inl used ↦
      let (q, qs, eq, up) = add_scan_new a ps (ground arith) (ground arith) in
      let other : holds_addr a p ≡ false = ground arith in
      (
        q,
        p ∷ qs,
        ground (arith, other, used, eq),
        Updated-cons is_free (λ _. new_page a) p ps q qs (ground arith) up,
      )
  | inr free ↦
      let other : holds_addr a p ≡ false = ground arith in
      (
        p,
        new_page a ∷ ps,
        rw (other, free) refl,
        Updated-here is_free (λ _. new_page a) p ps (ground arith),
      )
]

-- A page at the address before any free slot makes `add_new_page` panic.
pub add_scan_panic :
    (a : ℕ) (ps qs : List Page) (p : Page)
    → count_if is_free ps ≡ 0
    → holds_addr a p ≡ true
    → add_scan (ps ++ p ∷ qs) a ≡ panic
unfolding add_scan
add_scan_panic a [] qs p e h = rw h
add_scan_panic a (r ∷ ps) qs p e h = ground (arith, add_scan_panic a ps qs p)

-- `m'` is `m` with a page at `a`, in memory and at the end of the queue `xs`, and nothing else changed.
pub record Added (m : Meta) (xs : List Page) (a : ℕ) (m' : Meta) : Type 0 where
  pub valid : IsValid m'
  pub queue : Holds m'.pq (xs ++ new_page a ∷ [])
  pub same_out : num_of_paged_out m' ≡ num_of_paged_out m
  pub more_in : num_of_paged_in m' ≡ num_of_paged_in m + 1
  pub in_ram : count_if (ram_at a) m'.pages ≡ 1
  pub others_ram : (b : ℕ) → b ≢ a → count_if (ram_at b) m'.pages ≡ count_if (ram_at b) m.pages
  pub others_back : (b : ℕ) → count_if (back_at b) m'.pages ≡ count_if (back_at b) m.pages

-- With no page at `a`, a free slot and room in the queue, `add_new_page` succeeds and adds exactly
-- the page at `a`.
pub add_new_page-Added :
    (m : Meta) (xs : List Page) (a : ℕ)
    → IsValid m
    → Holds m.pq xs
    → length xs < 32
    → count_if (holds_addr a) m.pages ≡ 0
    → get_allocated_pages m < 32
    → (m' : Meta) × (add_new_page m a ≡ ok (true, m')) × Added m xs a m'
unfolding add_new_page
add_new_page-Added m xs a v h room fresh free =
    let some_free : 0 < count_if is_free m.pages = omega (arith, v.slots, length-count m.pages) in
    let (p, ps, eq, up) = add_scan_new a m.pages fresh some_free in
    let (q, enq, held) = enqueue-Holds (new_page a) h refl room in
    let no_ram : count_if (ram_at a) m.pages ≡ 0 =
      omega (arith, fresh, count_if_mono (ram_at a) (holds_addr a) (λ p. ground arith) m.pages) in
    (
      record m { pages = ps; pq = q },
      rw (eq, enq) refl,
      record {
        valid = record {
          slots = omega (arith, v.slots, up.length_eq);
          places = v.places;
          flags = ground (arith, v.flags, up.counts is_malformed, up.member is_malformed);
          blank = ground (arith, v.blank, up.counts is_stale, up.member is_stale);
          unique = λ b. ground (arith, v.unique b, fresh, up.counts (holds_addr b), up.passes);
          placed = ground (arith, v.placed, up.counts is_misplaced, up.passes);
          taken = λ k lt. ground (arith, v.taken k lt, up.counts (backed_at k), up.passes);
          marks = v.marks;
        };
        queue = held;
        same_out = ground (arith, up.counts is_paged_out, up.passes);
        more_in = ground (arith, up.counts is_paged_in, up.passes);
        in_ram = ground (arith, up.counts (ram_at a), no_ram, up.passes);
        others_ram = λ b ne. ground (arith, up.counts (ram_at b), up.passes);
        others_back = λ b. ground (arith, up.counts (back_at b), up.passes);
      },
    )
