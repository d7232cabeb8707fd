-- ===== src/Paging/Select/Ages.antt =====
-- Aging: the counters stay 32-bit numbers, and a tick clears the accessed flag of every page in memory.
use Prim.Native.Nat.{bit_or}
use osassignment.Prelude.{
  ℕ, zero, suc, ◌+◌, ◌/◌, ◌%◌, ◌^◌, ◌≤◌, ◌<◌, ◌≡◌, refl, Bool, true, false, some, List, [], ◌∷◌,
  All, length, ok, Bool-cases, inl, inr, arith, All-get, sym, ◌∙◌,
}
use osassignment.Prelude.Bits.{bit_or-pow}
use osassignment.Paging.Queue.{Page}
use osassignment.Paging.Table.{Pgdir, pte}
use osassignment.Paging.Table.Flags.{IsWord}
use osassignment.Paging.Select.{
  age_loop, aged, is_candidate, accessed, clear_accessed, aq_loop, msb,
}
use osassignment.Paging.Select.SecondChance.{
  IsMapped, was_accessed, was_accessed_entry, clear_accessed-IsMapped, was_accessed-clear,
  clear-IsMapped,
}

-- One tick halves an age, and an accessed page's age is then at least 2 ^ 31, above that of any page
-- that was not accessed.
pub aged_order :
    (hit : Bool) (p : Page)
    → p.age < 2 ^ 32
    → ((aged hit p).age < 2 ^ 32)
      × ((aged hit p).age % 2 ^ 31 ≡ p.age / 2 % 2 ^ 31)
      × ((hit ≡ true) → 2 ^ 31 ≤ (aged hit p).age)
      × ((hit ≡ false) → (aged hit p).age < 2 ^ 31)
aged_order true p h =
    let top : bit_or (p.age / 2) msb ≡ p.age / 2 + 2 ^ 31 =
      omega (arith, bit_or-pow 31 (p.age / 2)) in
    (omega arith, omega arith, (λ _. omega arith), (λ e. absurd (cc)))
aged_order false p h = (omega arith, refl, (λ e. absurd (cc)), (λ _. omega arith))

-- What the loop leaves of the page table `d` after the pages `ps`.
pub record Ticked (d : Pgdir) (ps : List Page) (d' : Pgdir) : Type 0 where
  pub cleared : All (λ p. is_candidate p ≡ true → was_accessed d' p ≡ false) ps
  pub keeps : (p : Page) → IsMapped d p → IsMapped d' p
  pub sets_none : (p : Page) → IsMapped d p → was_accessed d p ≡ false → was_accessed d' p ≡ false

module _ (d : Pgdir) (p : Page) (ps : List Page) (e : ℕ) (entry : pte d p.vaddr ≡ some e)
    (word : IsWord e) (lt : p.vaddr < 2 ^ 32) where
  Ticked-hit : {d' : Pgdir} → Ticked (clear_accessed d p.vaddr e) ps d' → Ticked d (p ∷ ps) d'
  Ticked-hit t = record {
    cleared = (
      (λ _. t.sets_none p (clear_accessed-IsMapped d p e entry word lt p mapped) gone),
      t.cleared,
    );
    keeps = λ q m. t.keeps q (clear_accessed-IsMapped d p e entry word lt q m);
    sets_none = λ q m f.
        t.sets_none q (clear_accessed-IsMapped d p e entry word lt q m)
          (ground (arith, was_accessed-clear d p e entry word lt q m, f));
  }
    where
      mapped : IsMapped d p
      mapped = (e, entry, word, lt)

      gone : was_accessed (clear_accessed d p.vaddr e) p ≡ false
      gone = ground (arith, was_accessed-clear d p e entry word lt p mapped)

  Ticked-skip :
      {d' : Pgdir}
      → (is_candidate p ≡ true → was_accessed d p ≡ false)
      → Ticked d ps d'
      → Ticked d (p ∷ ps) d'
  Ticked-skip f t = record {
    cleared = ((λ c. t.sets_none p (e, entry, word, lt) (f c)), t.cleared);
    keeps = t.keeps;
    sets_none = t.sets_none;
  }

-- At every tick the aging loop ends without a fault if the pages have entries, and it clears the
-- accessed flag of each page in memory.
pub age_loop-Ticked :
    (d : Pgdir) (ps : List Page)
    → All (IsMapped d) ps
    → (d' : Pgdir) × (qs : List Page) × (age_loop d ps ≡ ok (d', qs)) × Ticked d ps d'
unfolding age_loop
age_loop-Ticked d [] m =
    (d, [], refl, record { cleared = tt; keeps = λ p h. h; sets_none = λ p h f. f })
age_loop-Ticked d (p ∷ ps) ((e, entry, word, lt), ms) = elim (Bool-cases (is_candidate p)) [
  | inr out ↦
      let (d', qs, eq, t) = age_loop-Ticked d ps ms in
      (
        d',
        p ∷ qs,
        rw (out, age_loop) (rw eq refl),
        Ticked-skip d p ps e entry word lt (λ c. absurd (cc)) t,
      )
  | inl in_ram ↦ elim (Bool-cases (accessed e)) [
    | inl hit ↦
        let (d', qs, eq, t) =
          age_loop-Ticked (clear_accessed d p.vaddr e) ps
            (clear-IsMapped d p e entry word lt ps ms) in
        (
          d',
          aged true p ∷ qs,
          ground (arith, in_ram, entry, hit, eq),
          Ticked-hit d p ps e entry word lt t,
        )
    | inr miss ↦
        let (d', qs, eq, t) = age_loop-Ticked d ps ms in
        (
          d',
          aged false p ∷ qs,
          ground (arith, in_ram, entry, miss, eq),
          Ticked-skip d p ps e entry word lt (λ c. was_accessed_entry d p e entry ∙ miss) t,
        )
  ]
]

-- So the loop of AQ that runs after it moves nothing, when the queue's pages have no accessed flag.
pub aq_loop_still :
    (d : Pgdir) (n : ℕ) (pa : List Page)
    → n < length pa
    → All (λ p. IsMapped d p × (was_accessed d p ≡ false)) pa
    → aq_loop d n pa ≡ ok pa
unfolding aq_loop
aq_loop_still d zero pa lt m = refl
aq_loop_still d (suc j) pa lt m =
    let (p, at_p, kp) =
      All-get (λ p. IsMapped d p × (was_accessed d p ≡ false)) pa j m (omega arith) in
    let (q, at_q, kq) = All-get (λ p. IsMapped d p × (was_accessed d p ≡ false)) pa (suc j) m lt in
    let entry_p : pte d p.vaddr ≡ some kp.0.0 = kp.0.1 in
    let entry_q : pte d q.vaddr ≡ some kq.0.0 = kq.0.1 in
    let miss : accessed kp.0.0 ≡ false = sym (was_accessed_entry d p kp.0.0 kp.0.1) ∙ kp.1 in
    ground (arith, at_p, at_q, entry_p, entry_q, miss, aq_loop_still d j pa (omega arith) m)
