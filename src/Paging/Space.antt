-- ===== src/Paging/Space.antt =====
-- Growing and shrinking the memory of the running process, and copying into an address space: `allocuvm`,
-- `deallocuvm` and `copyout` of vm.c, `growproc` of proc.c. The page directory that the first two change
-- is the process's own, as in `growproc`.
pub mod Ends
mod Tests
use Prim.Native.Nat.{bit_and, bit_or, min}
use osassignment.Prelude.{
  ℕ, zero, suc, ◌+◌, ◌-◌, ◌*◌, ◌/◌, ◌%◌, ◌^◌, Bool, true, false, not, Option, none, some, List, [],
  ◌∷◌, ltb, leb, ◌==◌, truth, if◌then◌else◌, length, take, drop, get_or, Outcome, ok, panic, fault,
  ◌>>=◌, ◌>>◌, panic_if,
}
use osassignment.Prelude.Int.{ℤ, pos, negsuc}
use osassignment.Kalloc.{
  Kmem, Bytes, kalloc, kfree, page_size, kern_base, phys_top, pg_round_down, pg_round_up, p2v, v2p,
  write_frame,
}
use osassignment.Paging.Queue.{free_from_queue, max_psyc_pages}
use osassignment.Paging.Meta.{num_of_paged_in, add_new_page, wipe_slots}
use osassignment.Paging.Table.{
  Pgdir, pte, set_pte, pdx, pte_p, pte_w, pte_u, pte_addr, mappages, uva2ka,
}
use osassignment.Paging.Swap.{Vm, page_out}
use osassignment.Paging.Swap.File.{SwapFile}

module _ (end : ℕ) (swap : SwapFile) where
  -- What the loop of `deallocuvm` does to a page that is present.
  pub dealloc_page : Vm end swap → ℕ → ℕ → Outcome (Vm end swap)
  dealloc_page s a e = do
    panic_if (pte_addr e == 0)
    k ← kfree end s.kmem (p2v (pte_addr e))
    ok (record s {
      pgdir = set_pte s.pgdir a 0;
      paging = record s.paging {
        pages = wipe_slots a s.paging.pages;
        pq = free_from_queue s.paging.pq a;
      };
      kmem = k;
    })

  -- The loop, from `a` on. An index of the directory without a table is passed over; `fault` stands
  -- for no more fuel.
  pub dealloc_loop : ℕ → Vm end swap → ℕ → ℕ → Outcome (Vm end swap)
  unfolding dealloc_page
  dealloc_loop zero s a oldsz = fault
  dealloc_loop (suc fuel) s a oldsz = elim (ltb a oldsz) [
    | false ↦ ok s
    | true ↦ elim (pte s.pgdir a) [
      | none ↦ dealloc_loop fuel s ((pdx a + 1) * 2 ^ 22 % 2 ^ 32) oldsz
      | some e ↦ elim (bit_and e pte_p == 0) [
        | true ↦ dealloc_loop fuel s ((a + page_size) % 2 ^ 32) oldsz
        | false ↦ dealloc_page s a e >>= λ s'. dealloc_loop fuel s' ((a + page_size) % 2 ^ 32) oldsz
      ]
    ]
  ]

  -- There are 2 ^ 20 pages.
  pub deallocuvm : Vm end swap → ℕ → ℕ → Outcome (ℕ × Vm end swap)
  unfolding dealloc_loop
  deallocuvm s oldsz newsz =
      if leb oldsz newsz
      then ok (oldsz, s)
      else (dealloc_loop (2 ^ 20 + 1) s (pg_round_up newsz) oldsz >>= λ s'. ok (newsz, s'))

  -- `select` is `select_page_to_back`.
  module _ (select : Vm end swap → Outcome (ℕ × Vm end swap)) where
    -- With 16 pages in memory one goes out first.
    pub make_room : Vm end swap → Outcome (Vm end swap)
    make_room s =
        if num_of_paged_in s.paging == max_psyc_pages
        then (do (victim, s1) ← select s; (done, s2) ← page_out end swap s1 victim; ok s2)
        else ok s

    -- The loop of `allocuvm`; the size 0 is the error.
    pub alloc_loop : ℕ → Vm end swap → ℕ → ℕ → ℕ → Outcome (ℕ × Vm end swap)
    unfolding make_room deallocuvm
    alloc_loop zero s a oldsz newsz = fault
    alloc_loop (suc fuel) s a oldsz newsz = elim (ltb a newsz) [
      | false ↦ ok (newsz, s)
      | true ↦ make_room s >>= λ s1. elim (kalloc s1.kmem) [
        | none ↦ deallocuvm s1 newsz oldsz >>= λ r. ok (0, r.1)
        | some (mem, k) ↦
            mappages s1.pgdir (record k { frames = write_frame k.frames mem (λ _. 0) }) a page_size
              (v2p mem) (bit_or pte_w pte_u)
            >>= λ r. elim r.0 [
              | false ↦ deallocuvm (record s1 { pgdir = r.1; kmem = r.2 }) newsz oldsz >>= λ t.
                  kfree end t.1.kmem mem >>= λ k'. ok (0, record t.1 { kmem = k' })
              | true ↦ add_new_page s1.paging a >>= λ q.
                  alloc_loop fuel (record s1 { pgdir = r.1; kmem = r.2; paging = q.1 })
                    (a + page_size) oldsz newsz
            ]
      ]
    ]

    pub allocuvm : Vm end swap → ℕ → ℕ → Outcome (ℕ × Vm end swap)
    unfolding alloc_loop
    allocuvm s oldsz newsz =
        if leb kern_base newsz
        then ok (0, s)
        else if ltb newsz oldsz
        then ok (oldsz, s)
        else alloc_loop (2 ^ 20 + 1) s (pg_round_up oldsz) oldsz newsz

    -- `growproc`, with the old size; `none` is the result -1, and else the size is stored.
    pub growproc : Vm end swap → ℕ → ℤ → Outcome (Option ℕ × Vm end swap)
    unfolding allocuvm deallocuvm
    growproc s sz (pos zero) = ok (some sz, s)
    growproc s sz (pos (suc n)) = allocuvm s sz ((sz + suc n) % 2 ^ 32) >>= λ r.
        ok ((if r.0 == 0 then none else some r.0), r.1)
    growproc s sz (negsuc n) = deallocuvm s sz ((sz + 2 ^ 32 - suc n) % 2 ^ 32) >>= λ r.
        ok ((if r.0 == 0 then none else some r.0), r.1)

-- The bytes `bs` from the offset `o` of a page on.
abbrev pub write_bytes : Bytes → ℕ → List ℕ → Bytes
write_bytes f o bs i = if ltb i o then f i else get_or bs (i - o) (f i)

-- The loop of `copyout`, over the bytes that are left; a round copies at least one of them.
pub copy_loop : ℕ → Pgdir → (ℕ → Bytes) → ℕ → List ℕ → Outcome (Bool × (ℕ → Bytes))
copy_loop zero d f va [] = ok (true, f)
copy_loop zero d f va (b ∷ bs) = fault
copy_loop (suc fuel) d f va [] = ok (true, f)
copy_loop (suc fuel) d f va (b ∷ bs) =
    let va0 : ℕ = pg_round_down va in
    let n : ℕ = min (page_size - (va - va0)) (length (b ∷ bs)) in
    uva2ka d va0 >>= elim [
      | none ↦ ok (false, f)
      | some pa0 ↦
          copy_loop fuel d (write_frame f pa0 (write_bytes (f pa0) (va - va0) (take n (b ∷ bs))))
            ((va0 + page_size) % 2 ^ 32) (drop n (b ∷ bs))
    ]

pub copyout : Pgdir → (ℕ → Bytes) → ℕ → List ℕ → Outcome (Bool × (ℕ → Bytes))
unfolding copy_loop
copyout d f va bs = copy_loop (length bs) d f va bs
