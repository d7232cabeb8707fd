-- ===== src/Paging/Swap/In.antt =====
-- `pageIn` on a page of the swap file, and the round trip.
use Prim.Native.Nat.{bit_and, bit_or}
use mathlib.Core.Path.{subst}
use osassignment.Prelude.{
  ℕ, ◌+◌, ◌-◌, ◌*◌, ◌/◌, ◌%◌, ◌^◌, ◌≤◌, ◌<◌, ◌≡◌, ◌≢◌, refl, ◌∷◌, true, false, some, List,
  if◌then◌else◌, ok, arith, count_if, length,
}
use osassignment.Prelude.Bits.{bit_or-aligned}
use osassignment.Kalloc.{Bytes, p2v, v2p, write_frame}
use osassignment.Kalloc.Pages.{IsPage, kalloc-cons}
use osassignment.Paging.Queue.{Page}
use osassignment.Paging.Queue.Fifo.{Holds}
use osassignment.Paging.Meta.{Meta, page_in_meta}
use osassignment.Paging.Meta.Slots.{IsValid, back_at}
use osassignment.Paging.Meta.Slots.In.{PagedIn, page_in_meta-PagedIn}
use osassignment.Paging.Table.{Pgdir, pte, set_pte, pte_p, pte_pg, pte_u, pte_w, pte_addr}
use osassignment.Paging.Table.Flags.{
  same_page, pte-set_pte, is_flagged_some, set_pte_flag_some, clear_pte_flag_some, clear_pg_lem,
  set_p_lem, test_p_lem,
}
use osassignment.Paging.Table.Map.{mappages_page}
use osassignment.Paging.Swap.{Vm, user_page, page_in, get_page_from_back}
use osassignment.Paging.Swap.File.{SwapFile, first_page}

module _ (end : ℕ) (swap : SwapFile) where
  -- The page at `a` is in the swap file, where it holds `bytes`, and there is a free frame and room in
  -- the queue, which is `xs`.
  pub record Swapped (s : Vm end swap) (xs : List Page) (a frame e : ℕ) (free : List ℕ)
      (bytes : Bytes) : Type 0 where
    pub valid : IsValid s.paging
    pub queue : Holds s.paging.pq xs
    pub queue_room : length xs < 32
    pub backed : 0 < count_if (back_at a) s.paging.pages
    pub aligned : a % 4096 ≡ 0
    pub nonzero : a ≢ 0
    pub small : a < 2 ^ 32
    pub entry : pte s.pgdir a ≡ some e
    pub absent : e % 2 ≡ 0
    pub stored : get_page_from_back end swap s a ≡ ok (some bytes, s)
    pub freelist : s.kmem.freelist ≡ frame ∷ free
    pub frame_page : IsPage end frame
    pub frame_kernel : 0x8000_0000 ≤ frame
    pub frame_word : frame < 2 ^ 32

  pub record PageInDone (s : Vm end swap) (xs : List Page) (a frame : ℕ) (free : List ℕ)
      (bytes : Bytes) (s' : Vm end swap) : Type 0 where
    pub slots : PagedIn s.paging xs a s'.paging
    pub readable : user_page end swap s' a ≡ ok (first_page bytes)
    pub entry :
        (e' : ℕ) × (pte s'.pgdir a ≡ some e')
        × (e' % 8 ≡ 7)
        × (e' / 512 % 2 ≡ 0)
        × (p2v (pte_addr e') ≡ frame)
    pub others : (b : ℕ) → b < 2 ^ 32 → same_page a b ≡ false → pte s'.pgdir b ≡ pte s.pgdir b
    pub taken : s'.kmem.freelist ≡ free

  module _ (s : Vm end swap) (xs : List Page) (a frame e : ℕ) (free : List ℕ) (bytes : Bytes)
      (w : Swapped s xs a frame e free bytes) where
    -- the entry that `mappages` writes, and what the two flag functions make of it
    abbrev mapped : ℕ
    mapped = bit_or (bit_or (v2p frame) (bit_or pte_u pte_w)) pte_p

    abbrev unmarked : ℕ
    unmarked = bit_and mapped (2 ^ 32 - 1 - pte_pg)

    abbrev final : ℕ
    final = bit_or unmarked pte_p

    mapped_eq : mapped ≡ v2p frame + 7
    mapped_eq =
        let whole : v2p frame / 4096 * 2 ^ 12 ≡ v2p frame =
          omega (arith, w.frame_page, w.frame_kernel, w.frame_word) in
        let perm : bit_or (v2p frame) 6 ≡ v2p frame + 6 =
          subst (λ (x : ℕ). bit_or x 6 ≡ x + 6) whole
            (bit_or-aligned 12 (v2p frame / 4096) 6 (omega arith)) in
        omega (
          arith,
          perm,
          set_p_lem (bit_or (v2p frame) 6),
          w.frame_page,
          w.frame_kernel,
          w.frame_word,
        )

    dir1 : Pgdir
    dir1 = set_pte s.pgdir a mapped

    dir2 : Pgdir
    unfolding dir1
    dir2 = set_pte dir1 a unmarked

    dir3 : Pgdir
    unfolding dir2
    dir3 = set_pte dir2 a final

    -- the state after `pageIn`, for the metadata that `page_in_meta` returns
    after : Meta → Vm end swap
    after m = record s {
      pgdir = dir3;
      paging = m;
      kmem = record { freelist = free; frames = write_frame s.kmem.frames frame bytes };
    }

    dir1-pte :
        (b : ℕ) → b < 2 ^ 32 → pte dir1 b ≡ (if same_page a b then some mapped else pte s.pgdir b)
    unfolding dir1
    dir1-pte b lb = pte-set_pte s.pgdir a b mapped e w.small lb w.entry

    dir2-pte :
        (b : ℕ) → b < 2 ^ 32 → pte dir2 b ≡ (if same_page a b then some unmarked else pte s.pgdir b)
    unfolding dir2
    dir2-pte b lb =
        ground
          (arith, dir1-pte a w.small, dir1-pte b lb, pte-set_pte dir1 a b unmarked mapped, w.small)

    dir3-pte :
        (b : ℕ) → b < 2 ^ 32 → pte dir3 b ≡ (if same_page a b then some final else pte s.pgdir b)
    unfolding dir3
    dir3-pte b lb =
        ground
          (arith, dir2-pte a w.small, dir2-pte b lb, pte-set_pte dir2 a b final unmarked, w.small)

    page_in_runs :
        (m : Meta)
        → page_in_meta s.paging a ≡ ok (true, m)
        → page_in end swap s a ≡ ok (true, after m)
    unfolding page_in after dir3
    page_in_runs m eq =
        let entry1 : pte dir1 a ≡ some mapped = ground (arith, dir1-pte a w.small) in
        let entry2 : pte dir2 a ≡ some unmarked = ground (arith, dir2-pte a w.small) in
        rw (kalloc-cons s.kmem frame free w.freelist, page_in)
          (rw
            (mappages_page s.pgdir (record s.kmem { freelist = free }) a (v2p frame)
              (bit_or pte_u pte_w) e w.aligned w.small w.entry
              (omega (arith, test_p_lem e, w.absent)))
            (rw w.stored (
              rw
                (
                  clear_pte_flag_some dir1 a pte_pg mapped entry1,
                  set_pte_flag_some dir2 a pte_p unmarked entry2,
                  eq,
                )
                refl)))

    final_eq : final ≡ v2p frame + 7
    final_eq = omega (
      arith,
      mapped_eq,
      clear_pg_lem mapped,
      set_p_lem unmarked,
      w.frame_page,
      w.frame_kernel,
      w.frame_word,
    )

    final_entry : pte dir3 a ≡ some final
    final_entry = ground (arith, dir3-pte a w.small)

    final_frame : p2v (pte_addr final) ≡ frame
    final_frame = omega (arith, final_eq, w.frame_page, w.frame_kernel, w.frame_word)

    readable_after : (m : Meta) → user_page end swap (after m) a ≡ ok (first_page bytes)
    unfolding user_page after
    readable_after m =
        let present : bit_and final pte_p ≡ 1 =
          omega (arith, final_eq, test_p_lem final, w.frame_page) in
        rw (is_flagged_some dir3 a pte_p final final_entry, present, final_entry, final_frame)
          (ground arith)

    -- `pageIn` takes the frame at the head of the free list, fills it with the page's bytes and maps it
    -- at `a`, present, writable and open to the user, with PG clear; no other entry changes, the page's
    -- slot is marked as in memory and the page joins the queue.
    pub page_in-Done :
        (s' : Vm end swap) × (page_in end swap s a ≡ ok (true, s'))
        × PageInDone s xs a frame free bytes s'
    unfolding after
    page_in-Done =
        let (m, eq, into) =
          page_in_meta-PagedIn s.paging xs a w.valid w.queue w.queue_room w.nonzero w.backed in
        (
          after m,
          page_in_runs m eq,
          record {
            slots = into;
            readable = readable_after m;
            entry = (
              final,
              final_entry,
              omega (arith, final_eq, w.frame_page, w.frame_kernel, w.frame_word),
              omega (arith, final_eq, w.frame_page, w.frame_kernel, w.frame_word),
              final_frame,
            );
            others = λ b lb apart. ground (arith, dir3-pte b lb);
            taken = refl;
          },
        )
