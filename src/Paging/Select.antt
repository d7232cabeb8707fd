-- ===== src/Paging/Select.antt =====
-- The page replacement of vm.c: `select_page_to_back` under each value of SELECTION, and the aging of
-- pages at every clock tick.
pub mod SecondChance
pub mod Least
pub mod Ages
use Prim.Native.Nat.{bit_and, bit_or}
use osassignment.Prelude.{
  ℕ, zero, suc, ◌+◌, ◌-◌, ◌/◌, ◌^◌, Bool, true, false, not, ◌&&◌, ◌||◌, Option, none, some, List,
  [], ◌∷◌, ltb, ◌==◌, truth, if◌then◌else◌, get_elem?, set, Outcome, ok, panic, fault, ◌>>=◌,
}
use osassignment.Prelude.Int.{ℤ, pos, negsuc}
use osassignment.Paging.Queue.{Page, PageQueue, no_page, dequeue, enqueue}
use osassignment.Paging.Meta.{Meta}
use osassignment.Paging.Table.{Pgdir, pte, set_pte, pte_a}

-- `*e & PTE_A` and `*e &= ~PTE_A`
abbrev pub accessed : ℕ → Bool
accessed e = ltb 0 (bit_and e pte_a)

abbrev pub clear_accessed : Pgdir → ℕ → ℕ → Pgdir
clear_accessed d a e = set_pte d a (bit_and e (2 ^ 32 - 1 - pte_a))

-- The victim's address, with the page table and the queue that are left.
abbrev pub Choice : Type 0
Choice = ℕ × Pgdir × PageQueue

-- SCFIFO. The loop has no bound in the code; `fault` stands for no more fuel too.
pub scfifo : ℕ → Pgdir → PageQueue → Outcome Choice
scfifo zero d q = fault
scfifo (suc fuel) d q =
    let (current, q1) = dequeue q in
    elim (pte d current.vaddr) [
      | none ↦ fault
      | some e ↦ elim (accessed e) [
        | true ↦ enqueue q1 current >>= λ q2. scfifo fuel (clear_accessed d current.vaddr e) q2
        | false ↦ ok (current.vaddr, d, q1)
      ]
    ]

-- AQ
pub aq : Pgdir → PageQueue → Choice
aq d q = let (to_return, q1) = dequeue q in (to_return.vaddr, d, q1)

abbrev pub is_candidate : Page → Bool
is_candidate p = truth p.exists && not (truth p.in_back)

-- NFUA: the second loop, with the least page so far.
pub nfua_from : Page → List Page → Page
nfua_from min_page [] = min_page
nfua_from min_page (p ∷ ps) =
    nfua_from (if is_candidate p && ltb p.age min_page.age then p else min_page) ps

-- The first loop finds the first candidate, from which the second goes on.
pub nfua_first : List Page → Page
unfolding nfua_from
nfua_first [] = no_page
nfua_first (p ∷ ps) =
    let rest : Page = nfua_first ps in if is_candidate p then nfua_from p (p ∷ ps) else rest

pub nfua : Meta → ℕ × Meta
unfolding nfua_first
nfua m = ((nfua_first m.pages).vaddr, record m { pq = (dequeue m.pq).1 })

-- `for(i = 0; i < 32; i++)`
pub count_bits : ℕ → ℕ → ℕ → ℕ
count_bits zero number counter = counter
count_bits (suc n) number counter =
    count_bits n (number / 2) (if ltb 0 (bit_or number 1) then counter + 1 else counter)

pub count_set_bits : ℕ → ℕ
unfolding count_bits
count_set_bits number = count_bits 32 number 0

-- LAPA: one round of the second loop, on the least count and the least page so far.
pub lapa_round : ℕ × Page → Page → ℕ × Page
unfolding count_set_bits
lapa_round (min_count, min_page) p =
    if not (truth p.exists) || truth p.in_back || p.vaddr == min_page.vaddr
    then (min_count, min_page)
    else let curr : ℕ = count_set_bits p.age2 in
      if ltb curr min_count
      then (curr, p)
      else if curr == min_count && ltb p.age2 min_page.age2
      then (curr, p)
      else (min_count, min_page)

pub lapa_from : ℕ × Page → List Page → Page
unfolding lapa_round
lapa_from best [] = best.1
lapa_from best (p ∷ ps) = lapa_from (lapa_round best p) ps

pub lapa_first : List Page → Page
unfolding lapa_from
lapa_first [] = no_page
lapa_first (p ∷ ps) =
    let rest : Page = lapa_first ps in
    if is_candidate p then lapa_from (count_set_bits p.age2, p) (p ∷ ps) else rest

pub lapa : Meta → ℕ × Meta
unfolding lapa_first
lapa m = ((lapa_first m.pages).vaddr, record m { pq = (dequeue m.pq).1 })

abbrev pub msb : ℕ
msb = 0x8000_0000

-- What a tick does to a page in memory: `age >> 1`, with the top bit set if it was accessed.
abbrev pub aged : Bool → Page → Page
aged hit p =
    if hit
    then record p { age = bit_or (p.age / 2) msb; age2 = bit_or (p.age2 / 2) msb }
    else record p { age = p.age / 2; age2 = p.age2 / 2 }

-- The first loop of `age_process_pages`.
pub age_loop : Pgdir → List Page → Outcome (Pgdir × List Page)
age_loop d [] = ok (d, [])
age_loop d (p ∷ ps) = elim (is_candidate p) [
  | false ↦ age_loop d ps >>= λ r. ok (r.0, p ∷ r.1)
  | true ↦ elim (pte d p.vaddr) [
    | none ↦ fault
    | some e ↦ age_loop (if accessed e then clear_accessed d p.vaddr e else d) ps >>= λ r.
        ok (r.0, aged (accessed e) p ∷ r.1)
  ]
]

-- AQ: the loop from `j = lastIndex - 1` down to 0 that moves an accessed page behind one that is not;
-- the number is the rounds left, `j + 1`.
pub aq_loop : Pgdir → ℕ → List Page → Outcome (List Page)
aq_loop d zero pa = ok pa
aq_loop d (suc j) pa = elim (get_elem? pa j) [
  | none ↦ fault
  | some p ↦ elim (get_elem? pa (suc j)) [
    | none ↦ fault
    | some q ↦ elim (pte d p.vaddr) [
      | none ↦ fault
      | some ep ↦ elim (pte d q.vaddr) [
        | none ↦ fault
        | some eq ↦
            aq_loop d j
              (if accessed ep && not (accessed eq) then set (set pa j q) (suc j) p else pa)
      ]
    ]
  ]
]
