-- ===== src/Paging/Tests.antt =====
-- The paging functions on small inputs, and the theorems at inputs that meet their hypotheses.
mod Machine
use osassignment.Prelude.{
  ℕ, zero, suc, ◌+◌, ◌-◌, ◌*◌, ◌%◌, ◌^◌, ◌≤◌, ◌<◌, ◌≡◌, ◌≢◌, refl, Bool, true, false, none, some,
  List, [], ◌∷◌, ◌++◌, replicate, length, count_if, get_or, ok, panic, arith, All-replicate,
  get_or-replicate, flag, update_first,
}
use osassignment.Prelude.Int.{pos, negsuc}
use osassignment.Kalloc.{Bytes}
use osassignment.Paging.Queue.{
  Page, PageQueue, no_page, clear_page, enqueue, dequeue, free_from_queue, shift,
}
use osassignment.Paging.Queue.Fifo.{
  Holds, IsBlank, remove_addr, enqueue-Holds, dequeue-Holds, free_from_queue-Holds,
}
use osassignment.Paging.Meta.{
  Meta, new_page, paged_in, reset_paging_meta, all_ones, get_free_page_offset, page_out_meta,
  page_in_meta, add_new_page, num_of_paged_out,
}
use osassignment.Paging.Meta.Slots.{IsValid, backed_at, ram_at, back_at}
use osassignment.Paging.Meta.Slots.Places.{get_free_page_offset_lem}
use osassignment.Paging.Meta.Slots.Out.{PagedOut, page_out_meta-PagedOut}
use osassignment.Paging.Meta.Slots.In.{PagedIn, page_in_meta-PagedIn}
use osassignment.Paging.Meta.Slots.Add.{Added, add_new_page-Added}

-- one page in memory at address 8192, and one in the swap file at address 4096, place 0
abbrev pub front_page : Page
front_page = new_page 8192

abbrev pub back_page : Page
back_page = record no_page { exists = 1; vaddr = 4096; in_back = 1; age2 = all_ones }

abbrev pub queue1 : PageQueue
queue1 = record { pages = front_page ∷ replicate 31 no_page; last_index = pos 1 }

abbrev pub meta2 : Meta
meta2 = record {
  pages = front_page ∷ back_page ∷ replicate 30 no_page;
  pq = queue1;
  offsets = 1 ∷ replicate 31 0;
}

pub queue1-Holds : Holds queue1 (front_page ∷ [])
queue1-Holds = record {
  rest = replicate 31 no_page;
  pages_eq = refl;
  last_eq = refl;
  size = refl;
  live = (refl, tt);
  blank = All-replicate IsBlank 31 no_page refl;
}

pub meta2-IsValid : IsValid meta2
meta2-IsValid = record {
  slots = refl;
  places = refl;
  flags = refl;
  blank = refl;
  unique = λ a. ground arith;
  placed = refl;
  taken = elim [
    | zero ↦ λ h. refl
    | suc k ↦ λ h. rw (get_or-replicate {A = ℕ} 31 k 0) (ground arith)
  ];
  marks = elim [ zero ↦ omega arith | suc k ↦ rw (get_or-replicate {A = ℕ} 31 k 0) (omega arith) ];
}

page_in_meta-PagedIn_example :
    (m : Meta) × (page_in_meta meta2 4096 ≡ ok (true, m)) × PagedIn meta2 (front_page ∷ []) 4096 m
page_in_meta-PagedIn_example =
    page_in_meta-PagedIn meta2 (front_page ∷ []) 4096 meta2-IsValid queue1-Holds (omega arith)
      (omega arith) (omega arith)
