-- ===== src/Paging/Table.antt =====
-- The page tables of vm.c. A page directory maps the index `PDX(va)` to the second-level table behind
-- the entry, if the entry is present: the table's kernel address and its 1024 words. (The code gives
-- every present directory entry the flags P, W and U, and a table belongs to one directory.)
pub mod Flags
pub mod Map
use Prim.Native.Nat.{bit_and, bit_or}
use osassignment.Prelude.{
  ℕ, zero, suc, ◌+◌, ◌-◌, ◌*◌, ◌/◌, ◌%◌, ◌^◌, Bool, true, false, not, ◌&&◌, ◌||◌, Option, none,
  some, List, [], ◌∷◌, ltb, ◌==◌, truth, if◌then◌else◌, Outcome, ok, panic, fault, ◌>>=◌, ◌>>◌,
  panic_if,
}
use osassignment.Kalloc.{Kmem, kalloc, page_size, pg_round_down, p2v}

pub record Table : Type 0 where
  pub addr : ℕ
  pub entries : ℕ → ℕ

abbrev pub Pgdir : Type 0
Pgdir = ℕ → Option Table

abbrev pub pdx : ℕ → ℕ
pdx va = va / 2 ^ 22 % 1024

abbrev pub ptx : ℕ → ℕ
ptx va = va / 2 ^ 12 % 1024

abbrev pub pte_p : ℕ
pte_p = 0x001

abbrev pub pte_w : ℕ
pte_w = 0x002

abbrev pub pte_u : ℕ
pte_u = 0x004

abbrev pub pte_a : ℕ
pte_a = 0x020

abbrev pub pte_pg : ℕ
pte_pg = 0x200

-- `PTE_ADDR` and `PTE_FLAGS` mask the low 12 bits away and out.
abbrev pub pte_addr : ℕ → ℕ
pte_addr e = e - e % 4096

abbrev pub pte_flags : ℕ → ℕ
pte_flags e = e % 4096

-- The word that the pointer returned by `walkpgdir(d, va, 0)` points at; `none` if it is null.
unfoldable pub pte : Pgdir → ℕ → Option ℕ
pte d va = elim (d (pdx va)) [ none ↦ none | some t ↦ some (t.entries (ptx va)) ]

-- The store of `e` through that pointer.
unfoldable pub set_pte : Pgdir → ℕ → ℕ → Pgdir
set_pte d va e i =
    if i == pdx va
    then elim (d i) [
      | none ↦ none
      | some t ↦ some (record t { entries = λ j. if j == ptx va then e else t.entries j })
    ]
    else d i

-- A new table, wiped by `memset`.
abbrev pub add_table : Pgdir → ℕ → ℕ → Pgdir
add_table d va pgtab i =
    if i == pdx va then some (record { addr = pgtab; entries = λ _. 0 }) else d i

-- The truth value says if the pointer is not null. A table page that `alloc` takes is overwritten.
unfoldable pub walkpgdir : Pgdir → Kmem → ℕ → Bool → Bool × Pgdir × Kmem
walkpgdir d k va alloc = elim (d (pdx va)) [
  | some t ↦ (true, d, k)
  | none ↦ if not alloc then (false, d, k) else elim (kalloc k) [
    | none ↦ (false, d, k)
    | some (pgtab, k') ↦ (true, add_table d va pgtab, k')
  ]
]

-- The loop of `mappages`. `a == last` is tested at the end of each round; `fault` stands for no more
-- fuel. A null pointer is followed nowhere: `walkpgdir` has been asked to allocate.
unfoldable pub map_loop : ℕ → Pgdir → Kmem → ℕ → ℕ → ℕ → ℕ → Outcome (Bool × Pgdir × Kmem)
map_loop zero d k a last pa perm = fault
map_loop (suc fuel) d k a last pa perm =
    let (found, d', k') = walkpgdir d k a true in
    if not found then ok (false, d', k') else elim (pte d' a) [
      | none ↦ fault
      | some e ↦
          if truth (bit_and e pte_p)
          then panic
          else let d2 : Pgdir = set_pte d' a (bit_or (bit_or pa perm) pte_p) in
            elim (a == last) [
              | true ↦ ok (true, d2, k')
              | false ↦
                  map_loop fuel d2 k' ((a + page_size) % 2 ^ 32) last ((pa + page_size) % 2 ^ 32)
                    perm
            ]
    ]

-- The result -1 is `false`. There are 2 ^ 20 pages, so that much fuel is enough for any range.
unfoldable pub mappages : Pgdir → Kmem → ℕ → ℕ → ℕ → ℕ → Outcome (Bool × Pgdir × Kmem)
mappages d k va size pa perm =
    map_loop (2 ^ 20) d k (pg_round_down va) (pg_round_down ((va + size + 2 ^ 32 - 1) % 2 ^ 32)) pa
      perm

-- `(FLAG & *pte) > 0`; the null pointer is not tested for.
pub is_flagged : Pgdir → ℕ → ℕ → Outcome Bool
is_flagged d va flag = elim (pte d va) [ none ↦ fault | some e ↦ ok (ltb 0 (bit_and e flag)) ]

pub set_pte_flag : Pgdir → ℕ → ℕ → Outcome Pgdir
set_pte_flag d va flag = elim (pte d va) [
  | none ↦ panic
  | some e ↦ ok (set_pte d va (bit_or e flag))
]

-- `*entry &= ~FLAG`
pub clear_pte_flag : Pgdir → ℕ → ℕ → Outcome Pgdir
clear_pte_flag d va flag = elim (pte d va) [
  | none ↦ panic
  | some e ↦ ok (set_pte d va (bit_and e (2 ^ 32 - 1 - flag)))
]

-- Not present, and marked as paged out at the start of the page.
pub is_paged_out : Pgdir → ℕ → Outcome Bool
unfolding is_flagged
is_paged_out d va = do
  present ← is_flagged d va pte_p
  if present then ok false else is_flagged d (pg_round_down va) pte_pg

-- `uva2ka`: the kernel address of a user page that is present and open to the user; `none` is null.
pub uva2ka : Pgdir → ℕ → Outcome (Option ℕ)
uva2ka d va = elim (pte d va) [
  | none ↦ fault
  | some e ↦
      if bit_and e pte_p == 0
      then ok none
      else if bit_and e pte_u == 0
      then ok none
      else ok (some (p2v (pte_addr e)))
]

-- `clearpteu`
pub clearpteu : Pgdir → ℕ → Outcome Pgdir
clearpteu d va = elim (pte d va) [
  | none ↦ panic
  | some e ↦ ok (set_pte d va (bit_and e (2 ^ 32 - 1 - pte_u)))
]
