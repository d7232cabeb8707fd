-- ===== src/Paging/Queue.antt =====
-- `struct page`, `struct page_queue` of proc.h and the queue functions of vm.c. A pointer to the
-- process stands for its queue, which each function returns changed.
pub mod Fifo
use osassignment.Prelude.{
  ℕ, zero, suc, ◌+◌, ◌-◌, ◌≤◌, ◌<◌, ◌≡◌, Bool, true, false, ◌&&◌, List, [], ◌∷◌, ltb, ◌==◌, truth,
  if◌then◌else◌, set, replicate, Outcome, ok, panic, fault,
}
use osassignment.Prelude.Int.{ℤ, pos, negsuc, incr, decr}

-- The flags are C integers; `vaddr` is the address, a number below 2 ^ 32.
pub record Page : Type 0 where
  pub exists : ℕ
  pub vaddr : ℕ
  pub in_back : ℕ
  pub offset : ℕ
  pub age : ℕ
  pub age2 : ℕ

-- `lastIndex` is a C `int`, and `dequeue` takes it below 0 on an empty queue.
pub record PageQueue : Type 0 where
  pub pages : List Page
  pub last_index : ℤ

abbrev pub max_total_pages : ℕ
max_total_pages = 32

abbrev pub max_psyc_pages : ℕ
max_psyc_pages = 16

abbrev pub no_page : Page
no_page = record { exists = 0; vaddr = 0; in_back = 0; offset = 0; age = 0; age2 = 0 }

-- The five assignments that wipe an entry of the queue; `offset` stays.
abbrev pub clear_page : Page → Page
clear_page p = record p { exists = 0; vaddr = 0; age = 0; age2 = 0; in_back = 0 }

-- The store at `pages[lastIndex]`, which faults outside the array.
enqueue_at : ℤ → PageQueue → Page → Outcome PageQueue
enqueue_at (pos i) q p =
    if i == max_total_pages
    then panic
    else if ltb i max_total_pages
    then ok (record { pages = set q.pages i p; last_index = incr q.last_index })
    else fault
enqueue_at (negsuc i) q p = fault

unfoldable pub enqueue : PageQueue → Page → Outcome PageQueue
unfolding enqueue_at
enqueue q to_add = enqueue_at q.last_index q to_add

-- The loop `pages[i] = pages[i + 1]`, from an index to the last one, which is wiped.
unfoldable pub shift : List Page → List Page
shift [] = []
shift (p ∷ []) = clear_page p ∷ []
shift (p ∷ q ∷ ps) = q ∷ shift (q ∷ ps)

abbrev pub front : List Page → Page
front [] = no_page
front (p ∷ ps) = p

abbrev clear_front : List Page → List Page
clear_front [] = []
clear_front (p ∷ ps) = clear_page p ∷ ps

-- The page at index 0, and the queue without it.
unfoldable pub dequeue : PageQueue → Page × PageQueue
unfolding shift
dequeue q =
    (front q.pages, record { pages = shift (clear_front q.pages); last_index = decr q.last_index })

abbrev pub holds_addr : ℕ → Page → Bool
holds_addr a p = truth p.exists && p.vaddr == a

-- Both loops of `free_from_queue`: up to the first entry for the address, then the shift. The
-- truth value says if there was one.
free_scan : List Page → ℕ → List Page × Bool
unfolding shift
free_scan [] a = ([], false)
free_scan (p ∷ ps) a =
    let rest : List Page × Bool = free_scan ps a in
    if holds_addr a p then (shift (p ∷ ps), true) else (p ∷ rest.0, rest.1)

unfoldable pub free_from_queue : PageQueue → ℕ → PageQueue
unfolding free_scan
free_from_queue q a =
    let r : List Page × Bool = free_scan q.pages a in
    record { pages = r.0; last_index = if r.1 then decr q.last_index else q.last_index }
