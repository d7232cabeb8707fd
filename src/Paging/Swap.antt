-- ===== src/Paging/Swap.antt =====
-- Moving a page of a process between memory and its swap file: `pageOut`, `pageIn` of vm.c and what
-- they call. The swap file stands behind an interface.
pub mod File
pub mod Out
pub mod In
pub mod RoundTrip
use Prim.Native.Nat.{bit_or}
use osassignment.Prelude.{
  ℕ, ◌+◌, ◌%◌, ◌^◌, Bool, true, false, not, ◌&&◌, Option, none, some, ◌==◌, truth, if◌then◌else◌,
  update_first, Outcome, ok, panic, fault, ◌>>=◌, ◌>>◌, panic_if,
}
use osassignment.Kalloc.{
  Kmem, Bytes, kfree, kalloc, page_size, p2v, v2p, write_frame, pg_round_down,
}
use osassignment.Paging.Queue.{Page, holds_addr, max_psyc_pages}
use osassignment.Paging.Meta.{
  Meta, get_free_page_offset, pgfile_full_err, page_out_meta, page_in_meta, num_of_paged_in,
}
use osassignment.Paging.Table.{
  Pgdir, pte, pte_p, pte_u, pte_w, pte_pg, pte_addr, is_flagged, set_pte_flag, clear_pte_flag,
  mappages,
}
use osassignment.Paging.Swap.File.{SwapFile, first_page}

module _ (end : ℕ) (swap : SwapFile) where
  open swap use {File, write_page, read_page}

  -- The part of a process that paging works on, with the kernel's pages.
  pub record Vm : Type 0 where
    pub pgdir : Pgdir
    pub paging : Meta
    pub swap_file : File
    pub num_pageouts : ℕ
    pub kmem : Kmem

  -- What a read of a user page sees through the page table that is loaded; a page that is
  -- not present faults.
  pub user_page : Vm → ℕ → Outcome Bytes
  user_page s a = do
    present ← is_flagged s.pgdir a pte_p
    elim (pte s.pgdir a) [
      | none ↦ fault
      | some e ↦ if present then ok (first_page (s.kmem.frames (p2v (pte_addr e)))) else fault
    ]

  -- The results of `writeToSwapFile` and `page_out_meta` are not looked at.
  pub add_page_to_back : Vm → ℕ → Outcome (Bool × Vm)
  unfolding user_page
  add_page_to_back s a =
      let offset : ℕ = get_free_page_offset s.paging in
      if offset == pgfile_full_err then ok (false, s) else do
        bytes ← user_page s (pte_addr a)
        f ← write_page s.swap_file offset bytes
        (done, m) ← page_out_meta s.paging (pte_addr a) offset
        ok (true, record s { swap_file = f; paging = m })

  pub page_out : Vm → ℕ → Outcome (Bool × Vm)
  unfolding add_page_to_back
  page_out s a = do
    (done, s1) ← add_page_to_back s a
    panic_if (not done)
    elim (pte s1.pgdir a) [
      | none ↦ fault
      | some e ↦ do
        k ← kfree end s1.kmem (p2v (pte_addr e))
        d1 ← clear_pte_flag s1.pgdir a pte_p
        d2 ← set_pte_flag d1 a pte_pg
        ok (true, record s1 { pgdir = d2; kmem = k; num_pageouts = (s1.num_pageouts + 1) % 2 ^ 32 })
    ]

  -- The test of the loop of `getPageFromBack`.
  abbrev pub in_swap : ℕ → Page → Bool
  in_swap a p = holds_addr a p && truth p.in_back

  -- The bytes that `getPageFromBack` reads; `none` if no slot is found (its result 0). A failed read
  -- is a panic.
  unfoldable pub get_page_from_back : Vm → ℕ → Outcome (Option Bytes × Vm)
  get_page_from_back s a = elim (update_first (in_swap a) (λ p. p) s.paging.pages) [
    | none ↦ ok (none, s)
    | some (p, ps) ↦ do
      (r, f) ← read_page s.swap_file p.offset
      elim r [ none ↦ panic | some bytes ↦ ok (some bytes, record s { swap_file = f }) ]
  ]

  -- The result of `kalloc` is not tested: with no free page the write that follows goes to physical
  -- memory that the machine does not have.
  pub page_in : Vm → ℕ → Outcome (Bool × Vm)
  unfolding get_page_from_back
  page_in s a = elim (kalloc s.kmem) [
    | none ↦ fault
    | some (paddr, k) ↦ do
      (mapped, d, k1) ← mappages s.pgdir k a page_size (v2p paddr) (bit_or pte_u pte_w)
      panic_if (not mapped)
      (found, s1) ← get_page_from_back s a
      elim found [
        | none ↦ ok (false, record s1 { pgdir = d; kmem = k1 })
        | some bytes ↦ do
          d1 ← clear_pte_flag d a pte_pg
          d2 ← set_pte_flag d1 a pte_p
          (done, m) ← page_in_meta s1.paging a
          ok (
            done,
            record s1 {
              pgdir = d2;
              paging = m;
              kmem = record k1 { frames = write_frame k1.frames paddr bytes };
            },
          )
      ]
  ]

  -- `select` is `select_page_to_back`, which the build's SELECTION chooses: it may change the page
  -- table and the queue.
  module _ (select : Vm → Outcome (ℕ × Vm)) where
    pub safe_page_in : Vm → ℕ → Outcome (Bool × Vm)
    unfolding page_out page_in
    safe_page_in s a =
        if num_of_paged_in s.paging == max_psyc_pages
        then (do
          (victim, s1) ← select s
          (done, s2) ← page_out s1 victim
          page_in s2 (pg_round_down a))
        else page_in s (pg_round_down a)
