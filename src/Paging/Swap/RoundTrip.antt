-- ===== src/Paging/Swap/RoundTrip.antt =====
-- A page that goes out to the swap file and comes back holds the same bytes.
use osassignment.Prelude.{ℕ, ◌^◌, ◌<◌, ◌≡◌, ◌≢◌, ◌∙◌, ap, sym, true, false, List, ok, arith, length}
use osassignment.Kalloc.{p2v}
use osassignment.Paging.Queue.{Page}
use osassignment.Paging.Queue.Fifo.{Holds}
use osassignment.Paging.Table.{pte, pte_addr}
use osassignment.Paging.Table.Flags.{same_page}
use osassignment.Paging.Swap.{Vm, user_page, page_in, page_out}
use osassignment.Paging.Swap.File.{SwapFile, first_page, first_page-first_page}
use osassignment.Paging.Swap.Out.{Resident, page_out-Done, user_page_here}
use osassignment.Paging.Swap.In.{Swapped, page_in-Done}

module _ (end : ℕ) (swap : SwapFile) where
  -- `pageOut` and then `pageIn` of a page in memory, at an address other than 0, in valid metadata with
  -- room in the queue and fewer than 17 pages in the swap file, and with a swap file that can be written,
  -- that has every place marked as used inside it and for which the disk has the free blocks of one page
  -- more: both succeed, the page reads as before, no other entry of the page table has changed, and the
  -- free list is what it was.
  pub page_in-page_out :
      (s : Vm end swap) (xs : List Page) (a e : ℕ)
      → Resident end swap s a e
      → Holds s.paging.pq xs
      → length xs < 32
      → a ≢ 0
      → (s1 : Vm end swap) × (s2 : Vm end swap) × (page_out end swap s a ≡ ok (true, s1))
        × (page_in end swap s1 a ≡ ok (true, s2))
        × (user_page end swap s2 a ≡ user_page end swap s a)
        × ((b : ℕ) → b < 2 ^ 32 → same_page a b ≡ false → pte s2.pgdir b ≡ pte s.pgdir b)
        × (s2.kmem.freelist ≡ s.kmem.freelist)
  page_in-page_out s xs a e r held room nz =
      let (s1, out, done) = page_out-Done end swap s a e r in
      let (e1, entry1, absent, marked, word) = done.entry in
      let w : Swapped end swap s1 xs a (p2v (pte_addr e)) e1 s.kmem.freelist
          (first_page (s.kmem.frames (p2v (pte_addr e)))) =
        record {
          valid = done.slots.valid;
          queue = rw done.slots.queue held;
          queue_room = room;
          backed = omega (arith, done.slots.backed);
          aligned = r.aligned;
          nonzero = nz;
          small = r.small;
          entry = entry1;
          absent = absent;
          stored = done.stored;
          freelist = done.freed;
          frame_page = r.frame;
          frame_kernel = omega (arith, r.frame);
          frame_word = omega arith;
        } in
      let (s2, into, back) =
        page_in-Done end swap s1 xs a (p2v (pte_addr e)) e1 s.kmem.freelist _ w in
      (
        s1,
        s2,
        out,
        into,
        back.readable
            ∙ ap (λ b. ok b) (first_page-first_page (s.kmem.frames (p2v (pte_addr e))))
            ∙ sym (user_page_here end swap s a e r),
        (λ b lb apart. back.others b lb apart ∙ done.others b lb apart),
        back.taken,
      )
