-- ===== src/Kalloc.antt =====
-- kalloc.c: the allocator of physical pages. The list that runs through the free pages is a list of
-- their addresses; `kmem.lock` makes each function one step. A page's bytes are kept beside the list.
pub mod Pages
mod Tests
use osassignment.Prelude.{
  ℕ, zero, suc, ◌+◌, ◌-◌, ◌/◌, ◌%◌, ◌^◌, Bool, true, false, ◌||◌, Option, none, some, List, [], ◌∷◌,
  ltb, leb, ◌==◌, truth, if◌then◌else◌, length, Outcome, ok, panic, ◌>>=◌, ◌>>◌, panic_if,
}

-- The bytes of a page, by offset.
abbrev pub Bytes : Type 0
Bytes = ℕ → ℕ

-- `frames a` is what the page at the kernel address `a` holds.
pub record Kmem : Type 0 where
  pub freelist : List ℕ
  pub frames : ℕ → Bytes

abbrev pub page_size : ℕ
page_size = 4096

abbrev pub kern_base : ℕ
kern_base = 0x8000_0000

abbrev pub phys_top : ℕ
phys_top = 0xE00_0000

-- `V2P` and `P2V` wrap as 32-bit numbers do.
abbrev pub v2p : ℕ → ℕ
v2p a = (a + 2 ^ 32 - kern_base) % 2 ^ 32

abbrev pub p2v : ℕ → ℕ
p2v a = (a + kern_base) % 2 ^ 32

abbrev pub pg_round_down : ℕ → ℕ
pg_round_down a = a - a % page_size

abbrev pub pg_round_up : ℕ → ℕ
pg_round_up a = pg_round_down ((a + page_size - 1) % 2 ^ 32)

abbrev pub write_frame : (ℕ → Bytes) → ℕ → Bytes → ℕ → Bytes
write_frame f a bs b = if b == a then bs else f b

-- `end` is the first address after the kernel, which the linker places.
module _ (end : ℕ) where
  unfoldable pub kfree : Kmem → ℕ → Outcome Kmem
  kfree k v = do
    panic_if (truth (v % page_size) || ltb v end || leb phys_top (v2p v))
    ok (record { freelist = v ∷ k.freelist; frames = write_frame k.frames v (λ _. 1) })

  -- `for(; p + PGSIZE <= vend; p += PGSIZE) kfree(p)` with a count of rounds.
  pub free_pages : ℕ → Kmem → ℕ → ℕ → Outcome Kmem
  free_pages zero k p vend = ok k
  free_pages (suc n) k p vend = elim (leb (p + page_size) vend) [
    | true ↦ kfree k p >>= λ k'. free_pages n k' (p + page_size) vend
    | false ↦ ok k
  ]

  -- A page is freed in each round, so `vend / PGSIZE` rounds are enough.
  pub freerange : Kmem → ℕ → ℕ → Outcome Kmem
  unfolding free_pages
  freerange k vstart vend = free_pages (vend / page_size) k (pg_round_up vstart) vend

-- `none` is the null pointer.
pub kalloc_from : List ℕ → (ℕ → Bytes) → Option (ℕ × Kmem)
kalloc_from [] f = none
kalloc_from (r ∷ rs) f = some (r, record { freelist = rs; frames = f })

pub kalloc : Kmem → Option (ℕ × Kmem)
unfolding kalloc_from
kalloc k = kalloc_from k.freelist k.frames

pub count_from : List ℕ → ℕ → ℕ
count_from [] counter = counter
count_from (r ∷ rs) counter = count_from rs (counter + 1)

pub num_free : Kmem → ℕ
unfolding count_from
num_free k = count_from k.freelist 0

-- `kinit2`: the range is freed, and `initial_pages` is set (an unsigned difference).
pub initial_pages : ℕ → ℕ → ℕ
initial_pages vstart vend = (pg_round_down vend + 2 ^ 32 - pg_round_up vstart) % 2 ^ 32 / page_size
