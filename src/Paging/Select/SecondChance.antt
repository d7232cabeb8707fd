-- ===== src/Paging/Select/SecondChance.antt =====
-- SCFIFO: the loop ends, and gives each accessed page a second chance.
use Prim.Native.Nat.{bit_and}
use osassignment.Prelude.{
  ℕ, zero, suc, ◌+◌, ◌-◌, ◌^◌, ◌<◌, ◌≡◌, refl, Bool, true, false, none, some, List, [], ◌∷◌, ◌++◌,
  if◌then◌else◌, count_if, flag, All, All-append, All-mono, length, ok, Bool-cases, append_assoc,
  append-nil, ◌∙◌, sym, inl, inr, arith,
}
use osassignment.Paging.Queue.{Page, PageQueue, dequeue}
use osassignment.Paging.Queue.Fifo.{Holds, dequeue-Holds, enqueue-Holds}
use osassignment.Paging.Table.{Pgdir, pte, pte_a}
use osassignment.Paging.Table.Flags.{IsWord, same_page, pte-set_pte, clear_a_lem, test_a_lem}
use osassignment.Paging.Select.{scfifo, Choice, accessed, clear_accessed}

-- A page with an entry in the page table.
abbrev pub IsMapped : Pgdir → Page → Type 0
IsMapped d p = (e : ℕ) × (pte d p.vaddr ≡ some e) × IsWord e × (p.vaddr < 2 ^ 32)

-- Whether the page's entry has the accessed flag.
unfoldable pub was_accessed : Pgdir → Page → Bool
was_accessed d p = elim (pte d p.vaddr) [ none ↦ false | some e ↦ accessed e ]

pub was_accessed_entry :
    (d : Pgdir) (p : Page) (e : ℕ) → pte d p.vaddr ≡ some e → was_accessed d p ≡ accessed e
unfolding was_accessed
was_accessed_entry d p e h = rw (h, was_accessed) refl

cleared-accessed : (e : ℕ) → IsWord e → accessed (bit_and e (2 ^ 32 - 1 - pte_a)) ≡ false
cleared-accessed e h = ground (arith, test_a_lem (bit_and e (2 ^ 32 - 1 - pte_a)), clear_a_lem e h)

module _ (d : Pgdir) (p : Page) (e : ℕ) (h : pte d p.vaddr ≡ some e) (w : IsWord e)
    (lt : p.vaddr < 2 ^ 32) where
  pub clear_accessed-IsMapped : (q : Page) → IsMapped d q → IsMapped (clear_accessed d p.vaddr e) q
  clear_accessed-IsMapped q m = elim (Bool-cases (same_page p.vaddr q.vaddr)) [
    | inl same ↦ (
      bit_and e (2 ^ 32 - 1 - pte_a),
      ground (arith, pte-set_pte d p.vaddr q.vaddr (bit_and e (2 ^ 32 - 1 - pte_a)) e, lt, m.3, h),
      omega (arith, clear_a_lem e w),
      m.3,
    )
    | inr other ↦ (
      m.0,
      ground (
        arith,
        pte-set_pte d p.vaddr q.vaddr (bit_and e (2 ^ 32 - 1 - pte_a)) e,
        lt,
        m.3,
        m.1,
        h,
      ),
      m.2,
      m.3,
    )
  ]

  -- Clearing the flag of one page sets none, and leaves the other pages' flags.
  pub was_accessed-clear :
      (q : Page)
      → IsMapped d q
      → was_accessed (clear_accessed d p.vaddr e) q
        ≡ (if same_page p.vaddr q.vaddr then false else was_accessed d q)
  unfolding was_accessed
  was_accessed-clear q m = ground (
    arith,
    pte-set_pte d p.vaddr q.vaddr (bit_and e (2 ^ 32 - 1 - pte_a)) e,
    lt,
    m.3,
    h,
    cleared-accessed e w,
  )

  pub clear-IsMapped :
      (qs : List Page) → All (IsMapped d) qs → All (IsMapped (clear_accessed d p.vaddr e)) qs
  clear-IsMapped qs =
      All-mono (IsMapped d) (IsMapped (clear_accessed d p.vaddr e)) qs clear_accessed-IsMapped

-- A choice from the queue `xs`: the victim is one of its pages, the others stay in the queue in some
-- order, and the victim's entry has no accessed flag.
pub record Chosen (xs : List Page) (c : Choice) : Type 0 where
  pub victim : Page
  pub rest : List Page
  pub address : c.0 ≡ victim.vaddr
  pub queue : Holds c.2 rest
  pub same_pages : (u : Page → Bool) → flag (u victim) + count_if u rest ≡ count_if u xs
  pub unaccessed : was_accessed c.1 victim ≡ false

-- One round of the loop.
module _ (fuel : ℕ) (d : Pgdir) (q : PageQueue) (x : Page) (xs : List Page) (h : Holds q (x ∷ xs))
    (e : ℕ) (entry : pte d x.vaddr ≡ some e) where
  scfifo_stop : accessed e ≡ false → scfifo (suc fuel) d q ≡ ok (x.vaddr, d, (dequeue q).1)
  unfolding scfifo
  scfifo_stop a =
      let first : (dequeue q).0 ≡ x = (dequeue-Holds h).0 in ground (arith, first, entry, a)

  scfifo_go :
      accessed e ≡ true
      → (q' : PageQueue) × Holds q' (xs ++ x ∷ [])
        × (scfifo (suc fuel) d q ≡ scfifo fuel (clear_accessed d x.vaddr e) q')
  unfolding scfifo
  scfifo_go a =
      let (q', eq, held) = enqueue-Holds x (dequeue-Holds h).1 h.live.0 (omega (arith, h.size)) in
      let first : (dequeue q).0 ≡ x = (dequeue-Holds h).0 in
      (q', held, ground (arith, first, entry, a, eq))

-- Pages of the queue before the victim: accessed, and each on a page of its own.
abbrev pub AllAccessed : Pgdir → Page → List Page → Type 0
AllAccessed d v [] = Unit {0}
AllAccessed d v (u ∷ us) =
    (was_accessed d u ≡ true)
    × (same_page u.vaddr v.vaddr ≡ false)
    × All (λ p. same_page u.vaddr p.vaddr ≡ false) us
    × AllAccessed d v us

clear-AllAccessed :
    (d : Pgdir) (p : Page) (e : ℕ)
    → pte d p.vaddr ≡ some e
    → IsWord e
    → p.vaddr < 2 ^ 32
    → (v : Page) (us : List Page) → All (IsMapped d) us
    → All (λ q. same_page p.vaddr q.vaddr ≡ false) us
    → AllAccessed d v us
    → AllAccessed (clear_accessed d p.vaddr e) v us
clear-AllAccessed d p e h w lt v [] m apart a = tt
clear-AllAccessed d p e h w lt v (u ∷ us) m apart a = (
  ground (arith, was_accessed-clear d p e h w lt u m.0, apart.0, a.0),
  a.1,
  a.2,
  clear-AllAccessed d p e h w lt v us m.1 apart.1 a.3,
)

All-left {ℓ κ} : {A : Type ℓ} (P : A → Type κ) (xs ys : List A) → All P (xs ++ ys) → All P xs
All-left P [] ys h = tt
All-left P (x ∷ xs) ys h = (h.0, All-left P xs ys h.1)

All-right {ℓ κ} : {A : Type ℓ} (P : A → Type κ) (xs ys : List A) → All P (xs ++ ys) → All P ys
All-right P [] ys h = h
All-right P (x ∷ xs) ys h = All-right P xs ys h.1

-- If the oldest page that was not accessed has the accessed pages `us` before it, it is chosen, and
-- they go, in their order, behind the pages that were after it.
pub scfifo_second_chance :
    (us vs : List Page) (v : Page) (fuel : ℕ) (d : Pgdir) (q : PageQueue)
    → length us < fuel
    → Holds q (us ++ v ∷ vs)
    → All (IsMapped d) (us ++ v ∷ vs)
    → AllAccessed d v us
    → was_accessed d v ≡ false
    → (c : Choice) × (scfifo fuel d q ≡ ok c) × (c.0 ≡ v.vaddr) × Holds c.2 (vs ++ us)
scfifo_second_chance us vs v zero d q enough h m a fresh = absurd (omega arith)
scfifo_second_chance [] vs v (suc fuel) d q enough h ((e, entry, word, lt), ms) a fresh = (
  (v.vaddr, d, (dequeue q).1),
  scfifo_stop fuel d q v vs h e entry (sym (was_accessed_entry d v e entry) ∙ fresh),
  refl,
  rw append-nil (dequeue-Holds h).1,
)
scfifo_second_chance (u ∷ us) vs v (suc fuel) d q enough h ((e, entry, word, lt), ms) a fresh =
    let (q', held, step) =
      scfifo_go fuel d q u (us ++ v ∷ vs) h e entry (sym (was_accessed_entry d u e entry) ∙ a.0) in
    let d' : Pgdir = clear_accessed d u.vaddr e in
    let shape : (us ++ v ∷ vs) ++ u ∷ [] ≡ us ++ v ∷ (vs ++ u ∷ []) =
      append_assoc us (v ∷ vs) (u ∷ []) in
    let u_mapped : IsMapped d u = (e, entry, word, lt) in
    let mapped : All (IsMapped d') ((us ++ v ∷ vs) ++ u ∷ []) =
      All-append (IsMapped d') (us ++ v ∷ vs) (u ∷ [])
        (clear-IsMapped d u e entry word lt (us ++ v ∷ vs) ms)
        (clear_accessed-IsMapped d u e entry word lt u u_mapped, tt) in
    let v_mapped : IsMapped d v = (All-right (IsMapped d) us (v ∷ vs) ms).0 in
    let still : was_accessed d' v ≡ false =
      ground (arith, was_accessed-clear d u e entry word lt v v_mapped, fresh) in
    let (c, eq, addr, rest) =
      scfifo_second_chance us (vs ++ u ∷ []) v fuel d' q' (omega arith) (rw shape at held)
        (rw shape at mapped)
        (clear-AllAccessed d u e entry word lt v us (All-left (IsMapped d) us (v ∷ vs) ms) a.2 a.3)
        still in
    (c, step ∙ eq, addr, rw (append_assoc vs (u ∷ []) us) at rest)
