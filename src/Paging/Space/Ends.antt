-- ===== src/Paging/Space/Ends.antt =====
-- The loop of `deallocuvm` ends.
use Prim.Native.Nat.{bit_and}
use osassignment.Prelude.{
  ℕ, zero, suc, ◌+◌, ◌*◌, ◌%◌, ◌^◌, ◌≤◌, ◌<◌, ◌≡◌, ◌≢◌, refl, Bool, true, false, ltb, leb, ◌==◌,
  Outcome, ok, panic, fault, ◌>>=◌, panic_if, truth, ◌||◌, Bool-cases, Option-cases, inl, inr,
  arith,
}
use osassignment.Kalloc.{Kmem, kfree, page_size, kern_base, pg_round_up, p2v, v2p, phys_top}
use osassignment.Paging.Table.{pte, pdx, pte_p, pte_addr}
use osassignment.Paging.Swap.{Vm}
use osassignment.Paging.Swap.File.{SwapFile}
use osassignment.Paging.Space.{dealloc_page, dealloc_loop, deallocuvm}

bind-ne-fault {ℓ κ} :
    {A : Type ℓ} {B : Type κ} (m : Outcome A) (f : A → Outcome B)
    → m ≢ fault
    → ((a : A) → f a ≢ fault)
    → (m >>= f) ≢ fault
bind-ne-fault (ok a) f h k = k a
bind-ne-fault panic f h k = λ e. cc
bind-ne-fault fault f h k = λ e. h refl

panic_if-ne-fault : (b : Bool) → panic_if b ≢ fault
panic_if-ne-fault true h = cc
panic_if-ne-fault false h = cc

module _ (end : ℕ) (swap : SwapFile) where
  kfree-ne-fault : (k : Kmem) (v : ℕ) → kfree end k v ≢ fault
  unfolding kfree
  kfree-ne-fault k v =
      bind-ne-fault (panic_if (truth (v % page_size) || ltb v end || leb phys_top (v2p v))) _
        (panic_if-ne-fault (truth (v % page_size) || ltb v end || leb phys_top (v2p v))) (λ u h. cc)

  dealloc_page-ne-fault : (s : Vm end swap) (a e : ℕ) → dealloc_page end swap s a e ≢ fault
  unfolding dealloc_page
  dealloc_page-ne-fault s a e =
      bind-ne-fault (panic_if (pte_addr e == 0)) _ (panic_if-ne-fault (pte_addr e == 0)) (λ u.
        bind-ne-fault (kfree end s.kmem (p2v (pte_addr e))) _
          (kfree-ne-fault s.kmem (p2v (pte_addr e))) (λ k h. cc))

  dealloc_loop-ne-fault :
      (fuel : ℕ) (s : Vm end swap) (a oldsz : ℕ)
      → a % 4096 ≡ 0
      → oldsz ≤ kern_base
      → 0 < fuel
      → oldsz + 4096 ≤ a + 4096 * fuel
      → dealloc_loop end swap fuel s a oldsz ≢ fault
  unfolding dealloc_loop
  dealloc_loop-ne-fault zero s a oldsz al lt some_fuel enough = absurd (omega arith)
  dealloc_loop-ne-fault (suc fuel) s a oldsz al lt some_fuel enough =
      elim (Bool-cases (ltb a oldsz)) [
        | inr over ↦ λ h. absurd (ground (arith, over, h))
        | inl under ↦ elim (Option-cases (pte s.pgdir a)) [
          | inl no_table ↦
              rw (under, dealloc_loop)
                (rw no_table (
                  dealloc_loop-ne-fault fuel s ((pdx a + 1) * 2 ^ 22 % 2 ^ 32) oldsz (omega arith)
                    lt (ground (arith, under)) (ground (arith, under))))
          | inr (e, entry) ↦
              let next : (a + page_size) % 2 ^ 32 ≡ a + 4096 = ground (arith, under) in
              elim (Bool-cases (bit_and e pte_p == 0)) [
                | inl absent ↦
                    rw (under, dealloc_loop)
                      (rw entry (
                        rw absent (
                          dealloc_loop-ne-fault fuel s ((a + page_size) % 2 ^ 32) oldsz
                            (omega arith) lt (ground (arith, under)) (omega arith))))
                | inr present ↦
                    rw (under, dealloc_loop)
                      (rw entry (
                        rw present (
                          bind-ne-fault (dealloc_page end swap s a e) _
                            (dealloc_page-ne-fault s a e)
                            (λ s'.
                              dealloc_loop-ne-fault fuel s' ((a + page_size) % 2 ^ 32) oldsz
                                (omega arith) lt (ground (arith, under)) (omega arith)))))
              ]
        ]
      ]

  -- The loop of `deallocuvm` ends for every old size up to the kernel's memory: its fuel is enough, and
  -- it may only return or panic.
  pub deallocuvm-ne-fault :
      (s : Vm end swap) (oldsz newsz : ℕ)
      → oldsz ≤ kern_base
      → deallocuvm end swap s oldsz newsz ≢ fault
  unfolding deallocuvm
  deallocuvm-ne-fault s oldsz newsz lt = elim (Bool-cases (leb oldsz newsz)) [
    | inl grown ↦ λ h. absurd (ground (arith, grown, h))
    | inr shrunk ↦ rw shrunk (
        bind-ne-fault (dealloc_loop end swap (2 ^ 20 + 1) s (pg_round_up newsz) oldsz) _
          (dealloc_loop-ne-fault (2 ^ 20 + 1) s (pg_round_up newsz) oldsz (omega arith) lt
            (omega arith) (omega arith))
          (λ s' h. cc))
  ]
