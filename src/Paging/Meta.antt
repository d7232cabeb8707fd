-- ===== src/Paging/Meta.antt =====
-- `struct p_meta` of proc.h and the functions of vm.c that keep it: the slots of a process's pages,
-- the queue of those in memory, and the places of its swap file.
pub mod Slots
use osassignment.Prelude.{
  ℕ, zero, suc, ◌+◌, ◌*◌, ◌/◌, Bool, true, false, not, ◌&&◌, Option, none, some, List, [], ◌∷◌, ltb,
  ◌==◌, truth, if◌then◌else◌, length, set, replicate, update_first, count_if, Outcome, ok, panic,
  fault, ◌>>=◌,
}
use osassignment.Prelude.Int.{pos}
use osassignment.Paging.Queue.{Page, PageQueue, no_page, holds_addr, max_total_pages, enqueue}

-- `offsets[i]` is 1 if the place `i` of the swap file is taken.
pub record Meta : Type 0 where
  pub pages : List Page
  pub pq : PageQueue
  pub offsets : List ℕ

abbrev pub page_size : ℕ
page_size = 4096

abbrev pub all_ones : ℕ
all_ones = 0xffffffff

-- `reset_paging_meta`: every byte 0.
abbrev pub reset_paging_meta : Meta
reset_paging_meta = record {
  pages = replicate max_total_pages no_page;
  pq = record { pages = replicate max_total_pages no_page; last_index = pos 0 };
  offsets = replicate max_total_pages 0;
}

-- A store into an array of C.
abbrev pub store {ℓ} : {A : Type ℓ} → List A → ℕ → A → Outcome (List A)
store xs i v = if ltb i (length xs) then ok (set xs i v) else fault

-- The page that `add_new_page` writes.
abbrev pub new_page : ℕ → Page
new_page a = record no_page { exists = 1; vaddr = a; age2 = all_ones }

-- The loop of `add_new_page`, up to the first free slot.
pub add_scan : List Page → ℕ → Outcome (Option (List Page))
add_scan [] a = ok none
add_scan (p ∷ ps) a =
    let rest : Outcome (Option (List Page)) = add_scan ps a in
    if holds_addr a p
    then panic
    else if truth p.exists
    then rest >>= (elim [ none ↦ ok none | some qs ↦ ok (some (p ∷ qs)) ])
    else ok (some (new_page a ∷ ps))

-- The result 1 or 0 as a truth value, as in the functions below.
pub add_new_page : Meta → ℕ → Outcome (Bool × Meta)
add_new_page m a = do
  found ← add_scan m.pages a
  elim found [
    | none ↦ ok (false, m)
    | some ps ↦ do q ← enqueue m.pq (new_page a); ok (true, record m { pages = ps; pq = q })
  ]

-- The body of the loop of `page_in_meta`; `age2` becomes 0xffffffff.
abbrev pub paged_in : Page → Page
paged_in p = record p { in_back = 0; age = 0; age2 = all_ones }

abbrev pub has_vaddr : ℕ → Page → Bool
has_vaddr a p = p.vaddr == a

-- This loop does not ask if the slot is in use.
pub page_in_meta : Meta → ℕ → Outcome (Bool × Meta)
page_in_meta m a = elim (update_first (has_vaddr a) paged_in m.pages) [
  | none ↦ ok (false, m)
  | some (p, ps) ↦ do
    offsets ← store m.offsets (p.offset / page_size) 0
    q ← enqueue m.pq (paged_in p)
    ok (true, record { pages = ps; pq = q; offsets = offsets })
]

abbrev pub paged_out : ℕ → Page → Page
paged_out offset p = record p { in_back = 1; offset = offset }

pub page_out_meta : Meta → ℕ → ℕ → Outcome (Bool × Meta)
page_out_meta m a offset = elim (update_first (holds_addr a) (paged_out offset) m.pages) [
  | none ↦ ok (false, m)
  | some (p, ps) ↦ do
    offsets ← store m.offsets (offset / page_size) 1
    ok (true, record m { pages = ps; offsets = offsets })
]

-- The error of `getFreePageOffset`.
abbrev pub pgfile_full_err : ℕ
pgfile_full_err = page_size * max_total_pages * 10

pub free_from : List ℕ → ℕ → ℕ
free_from [] i = pgfile_full_err
free_from (o ∷ os) i = if o == 1 then free_from os (i + 1) else page_size * i

pub get_free_page_offset : Meta → ℕ
unfolding free_from
get_free_page_offset m = free_from m.offsets 0

-- The three counting loops.
abbrev pub is_paged_out : Page → Bool
is_paged_out p = if p.exists == 0 then false else p.in_back == 1

abbrev pub is_paged_in : Page → Bool
is_paged_in p = if p.exists == 0 then false else (p.in_back == 0 && p.exists == 1)

abbrev pub is_allocated : Page → Bool
is_allocated p = truth p.exists

abbrev pub num_of_paged_out : Meta → ℕ
num_of_paged_out m = count_if is_paged_out m.pages

abbrev pub num_of_paged_in : Meta → ℕ
num_of_paged_in m = count_if is_paged_in m.pages

abbrev pub get_allocated_pages : Meta → ℕ
get_allocated_pages m = count_if is_allocated m.pages

-- The test and the assignments of `deallocuvm` on a slot, in a loop over all slots.
abbrev pub wipe_page : Page → Page
wipe_page p = record p { age = 0; age2 = all_ones; in_back = 0; offset = 0; vaddr = 0; exists = 0 }

pub wipe_slots : ℕ → List Page → List Page
wipe_slots a [] = []
wipe_slots a (p ∷ ps) = (if holds_addr a p then wipe_page p else p) ∷ wipe_slots a ps
