-- ===== src/Paging/Swap/Out.antt =====
-- `pageOut` on a page that is in memory.
use Prim.Native.Nat.{bit_and, bit_or}
use osassignment.Prelude.{
  ℕ, zero, suc, ◌+◌, ◌-◌, ◌*◌, ◌/◌, ◌%◌, ◌^◌, ◌≤◌, ◌<◌, ◌≡◌, refl, ap, true, false, some, ◌==◌, ◌∷◌,
  ok, arith, count_if, get_or,
}
use osassignment.Kalloc.{p2v, write_frame}
use osassignment.Kalloc.Pages.{IsPage, kfree-ok}
use osassignment.Paging.Meta.{
  Meta, get_free_page_offset, pgfile_full_err, page_out_meta, num_of_paged_out,
}
use osassignment.Paging.Meta.Slots.{IsValid, ram_at}
use osassignment.Paging.Meta.Slots.Places.{get_free_page_offset_lem}
use osassignment.Paging.Meta.Slots.Out.{PagedOut, page_out_meta-PagedOut, ram-le-in}
use osassignment.Paging.Table.{pte, set_pte, pte_p, pte_pg, pte_addr}
use osassignment.Paging.Table.Flags.{
  IsWord, same_page, pte-set_pte, is_flagged_some, set_pte_flag_some, clear_pte_flag_some,
  pte-set_pte_twice, clear_p_lem, set_pg_lem, test_p_lem,
}
use osassignment.Paging.Swap.{Vm, user_page, add_page_to_back, page_out, get_page_from_back}
use osassignment.Paging.Swap.File.{SwapFile, first_page, first_page-first_page}

module _ (end : ℕ) (swap : SwapFile) where
  open swap use {File, size, write_page, read_page, IsReady, HasRoom, read-write}

  -- The page at `a` is in memory, behind the entry `e`, and there is room for it in the swap file.
  pub record Resident (s : Vm end swap) (a e : ℕ) : Type 0 where
    pub valid : IsValid s.paging
    pub in_ram : 0 < count_if (ram_at a) s.paging.pages
    pub aligned : a % 4096 ≡ 0
    pub small : a < 2 ^ 32
    pub entry : pte s.pgdir a ≡ some e
    pub word : IsWord e
    pub present : e % 2 ≡ 1
    pub frame : IsPage end (p2v (pte_addr e))
    pub room : num_of_paged_out s.paging < 17
    pub sized : (l : ℕ) → get_or s.paging.offsets l 0 ≡ 1 → 4096 * l + 4096 ≤ size s.swap_file
    pub ready : IsReady s.swap_file
    pub disk_room : HasRoom s.swap_file (get_free_page_offset s.paging)

  -- What `pageOut` leaves.
  pub record PageOutDone (s : Vm end swap) (a e : ℕ) (s' : Vm end swap) : Type 0 where
    pub slots : PagedOut s.paging a (get_free_page_offset s.paging) s'.paging
    pub stored :
        get_page_from_back end swap s' a
        ≡ ok (some (first_page (s.kmem.frames (p2v (pte_addr e)))), s')
    pub entry :
        (e' : ℕ) × (pte s'.pgdir a ≡ some e') × (e' % 2 ≡ 0) × (e' / 512 % 2 ≡ 1) × IsWord e'
    pub others : (b : ℕ) → b < 2 ^ 32 → same_page a b ≡ false → pte s'.pgdir b ≡ pte s.pgdir b
    pub freed : s'.kmem.freelist ≡ p2v (pte_addr e) ∷ s.kmem.freelist
    pub counted : s'.num_pageouts ≡ (s.num_pageouts + 1) % 2 ^ 32

  module _ (s : Vm end swap) (a e : ℕ) (r : Resident s a e) where
    pub user_page_here : user_page end swap s a ≡ ok (first_page (s.kmem.frames (p2v (pte_addr e))))
    unfolding user_page
    user_page_here =
        ground (arith, is_flagged_some s.pgdir a pte_p e r.entry, r.entry, test_p_lem e, r.present)

    abbrev cleared : ℕ
    cleared = bit_and e (2 ^ 32 - 1 - pte_p)

    abbrev marked : ℕ
    marked = bit_or cleared pte_pg

    -- the state after `pageOut`, for the metadata that `page_out_meta` returns and the file that
    -- `writeToSwapFile` leaves
    abbrev after : Meta → File → Vm end swap
    after m f = record s {
      pgdir = set_pte (set_pte s.pgdir a cleared) a marked;
      paging = m;
      swap_file = f;
      num_pageouts = (s.num_pageouts + 1) % 2 ^ 32;
      kmem = record {
        freelist = p2v (pte_addr e) ∷ s.kmem.freelist;
        frames = write_frame s.kmem.frames (p2v (pte_addr e)) (λ _. 1);
      };
    }

    page_out_runs :
        (m : Meta) (f : File) (k : ℕ)
        → k < 32
        → get_free_page_offset s.paging ≡ 4096 * k
        → page_out_meta s.paging a (get_free_page_offset s.paging) ≡ ok (true, m)
        → write_page s.swap_file
            (get_free_page_offset s.paging)
            (first_page (s.kmem.frames (p2v (pte_addr e))))
          ≡ ok f
        → page_out end swap s a ≡ ok (true, after m f)
    unfolding page_out add_page_to_back
    page_out_runs m f k lt off eq wrote =
        let page : pte_addr a ≡ a = omega (arith, r.aligned) in
        let room : (get_free_page_offset s.paging == pgfile_full_err) ≡ false = ground arith in
        let entry1 : pte (set_pte s.pgdir a cleared) a ≡ some cleared =
          ground (arith, pte-set_pte s.pgdir a a cleared e, r.small, r.entry) in
        rw (room, page, user_page_here, wrote, eq, r.entry)
          (rw
            (
              kfree-ok end s.kmem (p2v (pte_addr e)) r.frame,
              clear_pte_flag_some s.pgdir a pte_p e r.entry,
              set_pte_flag_some (set_pte s.pgdir a cleared) a pte_pg cleared entry1,
            )
            refl)

    -- What is written to the swap file is what `getPageFromBack` reads.
    stored_after :
        (m : Meta) (f : File)
        → read_page f (get_free_page_offset s.paging)
          ≡ ok (some (first_page (first_page (s.kmem.frames (p2v (pte_addr e))))), f)
        → PagedOut s.paging a (get_free_page_offset s.paging) m
        → get_page_from_back end swap (after m f) a
          ≡ ok (some (first_page (s.kmem.frames (p2v (pte_addr e)))), after m f)
    unfolding get_page_from_back
    stored_after m f read out =
        rw (out.found, get_page_from_back)
          (rw (out.slot_offset, read)
            (ap (λ b. ok (some b, after m f))
              (first_page-first_page (s.kmem.frames (p2v (pte_addr e))))))

    starts :
        (k : ℕ)
        → get_free_page_offset s.paging ≡ 4096 * k
        → ((l : ℕ) → l < k → get_or s.paging.offsets l 0 ≡ 1)
        → get_free_page_offset s.paging ≤ size s.swap_file
    starts zero off ones = omega arith
    starts (suc l) off ones = omega (arith, r.sized l (ones l (omega arith)))

    -- `pageOut` of a page that is in memory, in valid metadata with fewer than 17 pages in the swap file, and
    -- with a swap file that can be written, that has every place marked as used inside it and for which
    -- the disk has the free blocks of one page more, does not panic: it writes the page's bytes to a
    -- place of the swap file, where `getPageFromBack` finds them, updates the slots, clears P and sets
    -- PG in the page's entry and in no other, frees its frame and counts the page-out.
    pub page_out-Done :
        (s' : Vm end swap) × (page_out end swap s a ≡ ok (true, s')) × PageOutDone s a e s'
    page_out-Done =
        let (m, eq, out) = page_out_meta-PagedOut s.paging a r.valid r.in_ram in
        let (k, lt, off, empty, free, few, ones) =
          get_free_page_offset_lem s.paging r.valid
            (omega (arith, ram-le-in s.paging a r.valid, r.in_ram)) in
        let (f, wrote, ready, larger, read, others) =
          read-write s.swap_file (get_free_page_offset s.paging)
            (first_page (s.kmem.frames (p2v (pte_addr e)))) r.ready r.disk_room (starts k off ones)
            (omega (arith, r.room, few, off)) in
        (
          after m f,
          page_out_runs m f k lt off eq wrote,
          record {
            slots = out;
            stored = stored_after m f read out;
            entry = (
              marked,
              ground (arith, pte-set_pte_twice s.pgdir a a cleared marked e, r.small, r.entry),
              omega (arith, clear_p_lem e, set_pg_lem cleared, r.word),
              omega (arith, clear_p_lem e, set_pg_lem cleared, r.word),
              omega (arith, clear_p_lem e, set_pg_lem cleared, r.word),
            );
            others = λ b lb apart.
                ground (arith, pte-set_pte_twice s.pgdir a b cleared marked e, r.small, r.entry);
            freed = refl;
            counted = refl;
          },
        )
