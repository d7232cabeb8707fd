-- ===== src/Paging/Tests/Machine.antt =====
-- A machine with one page in memory and one in the swap file, and the theorems on it.
use osassignment.Prelude.{
  ℕ, zero, suc, ◌^◌, ◌<◌, ◌≡◌, ◌≢◌, refl, true, false, none, some, [], ◌∷◌, ◌==◌, if◌then◌else◌,
  replicate, get_or, ok, arith, get_or-replicate, All-replicate,
}
use osassignment.Prelude.Int.{pos}
use osassignment.Paging.Queue.{Page, PageQueue, no_page}
use osassignment.Paging.Queue.Fifo.{Holds, IsBlank}
use osassignment.Paging.Meta.{new_page}
use osassignment.Paging.Table.{Pgdir, pte, mappages, map_loop, walkpgdir, set_pte}
use osassignment.Paging.Table.Flags.{same_page}
use osassignment.Paging.Table.Map.{Mapped, mappages-Mapped}
use osassignment.Paging.Swap.{Vm, user_page, page_in, page_out}
use osassignment.Fs.Io.Pages.{disk_file}
use osassignment.Fs.Io.Tests.{wide, wide-IsLaidOut, eight_blocks, eight_blocks-IsOpen, half_free}
use osassignment.Fs.Tests.{no_devices}
use osassignment.Paging.Swap.File.{SwapFile}
use osassignment.Paging.Swap.Out.{Resident, PageOutDone, page_out-Done}
use osassignment.Paging.Swap.RoundTrip.{page_in-page_out}
use osassignment.Paging.Select.{nfua_first, lapa_first}
use osassignment.Paging.Select.SecondChance.{was_accessed}
use osassignment.Paging.Select.Least.{IsLeast, nfua_first-IsLeast, lapa_first-IsLeast}
use osassignment.Paging.Tests.{front_page, back_page, meta2, queue1-Holds, meta2-IsValid}

-- Page 4096 is in the swap file, 8192 in memory and accessed, 12288 in memory and not accessed.
abbrev entries : ℕ → ℕ
entries j = if j == 1 then 0x206 else if j == 2 then 0x500027 else if j == 3 then 0x501007 else 0

abbrev dir : Pgdir
dir i = if i == 0 then some (record { addr = 0x8060_0000; entries = entries }) else none

-- the swap file of a process on a disk
abbrev page_file : SwapFile
page_file = disk_file wide no_devices wide-IsLaidOut

abbrev vm : Vm 0x8010_0000 page_file
vm = record {
  pgdir = dir;
  paging = meta2;
  swap_file = eight_blocks;
  num_pageouts = 1;
  kmem = record { freelist = 0x8070_0000 ∷ []; frames = λ a i. 9 };
}

dir-front : pte dir 8192 ≡ some 0x500027
unfolding pte
dir-front = refl

none_there : (k : ℕ) → get_or meta2.offsets (suc k) 0 ≢ 1
none_there k h = omega (arith, get_or-replicate {A = ℕ} 31 k 0)

vm-Resident : Resident 0x8010_0000 page_file vm 8192 0x500027
vm-Resident = record {
  valid = meta2-IsValid;
  in_ram = omega arith;
  aligned = refl;
  small = omega arith;
  entry = dir-front;
  word = omega arith;
  present = refl;
  frame = omega arith;
  room = omega arith;
  sized = elim [ zero ↦ λ h. omega arith | suc k ↦ λ h. absurd (none_there k h) ];
  ready = eight_blocks-IsOpen;
  disk_room = omega (arith, half_free);
}

page_out-Done_example :
    (s : Vm 0x8010_0000 page_file) × (page_out 0x8010_0000 page_file vm 8192 ≡ ok (true, s))
    × PageOutDone 0x8010_0000 page_file vm 8192 0x500027 s
page_out-Done_example = page_out-Done 0x8010_0000 page_file vm 8192 0x500027 vm-Resident

page_in-page_out_example :
    (s1 : Vm 0x8010_0000 page_file) × (s2 : Vm 0x8010_0000 page_file) × (page_out 0x8010_0000
        page_file vm 8192
      ≡ ok (true, s1))
    × (page_in 0x8010_0000 page_file s1 8192 ≡ ok (true, s2))
    × (user_page 0x8010_0000 page_file s2 8192 ≡ user_page 0x8010_0000 page_file vm 8192)
    × ((b : ℕ) → b < 2 ^ 32 → same_page 8192 b ≡ false → pte s2.pgdir b ≡ pte vm.pgdir b)
    × (s2.kmem.freelist ≡ vm.kmem.freelist)
page_in-page_out_example =
    page_in-page_out 0x8010_0000 page_file vm (front_page ∷ []) 8192 0x500027 vm-Resident
      queue1-Holds (omega arith) (omega arith)

-- two pages from 16384 on, to the start of physical memory
abbrev dir2 : Pgdir
dir2 = set_pte (set_pte dir 16384 7) 20480 4103

dir2-runs : mappages dir vm.kmem 16384 8192 0 6 ≡ ok (true, dir2, vm.kmem)
unfolding mappages map_loop walkpgdir pte set_pte
dir2-runs = refl

mappages-Mapped_example : Mapped dir 16384 1 0 6 dir2
mappages-Mapped_example =
    mappages-Mapped 1 dir vm.kmem 16384 8192 0 6 dir2 vm.kmem refl (omega arith) dir2-runs

-- the queue with the accessed page 8192 and then the page 12288
abbrev third_page : Page
third_page = new_page 12288

abbrev queue2 : PageQueue
queue2 = record { pages = front_page ∷ third_page ∷ replicate 30 no_page; last_index = pos 2 }

queue2-Holds : Holds queue2 (front_page ∷ third_page ∷ [])
queue2-Holds = record {
  rest = replicate 30 no_page;
  pages_eq = refl;
  last_eq = refl;
  size = refl;
  live = (refl, (refl, tt));
  blank = All-replicate IsBlank 30 no_page refl;
}

dir-third : pte dir 12288 ≡ some 0x501007
unfolding pte
dir-third = refl

front_accessed : was_accessed dir front_page ≡ true
unfolding was_accessed pte
front_accessed = refl

third_fresh : was_accessed dir third_page ≡ false
unfolding was_accessed pte
third_fresh = refl

nfua_first-IsLeast_example :
    IsLeast
      (λ p. p.age)
      (back_page ∷ front_page ∷ third_page ∷ [])
      (nfua_first (back_page ∷ front_page ∷ third_page ∷ []))
nfua_first-IsLeast_example =
    nfua_first-IsLeast (back_page ∷ front_page ∷ third_page ∷ []) (omega arith)

lapa_first-IsLeast_example :
    IsLeast
      (λ p. p.age2)
      (back_page ∷ front_page ∷ third_page ∷ [])
      (lapa_first (back_page ∷ front_page ∷ third_page ∷ []))
lapa_first-IsLeast_example =
    lapa_first-IsLeast (back_page ∷ front_page ∷ third_page ∷ []) (λ b. ground arith) (omega arith)

abbrev fourth_page : Page
fourth_page = new_page 16384

dir-fourth : pte dir 16384 ≡ some 0
unfolding pte
dir-fourth = refl

fourth_fresh : was_accessed dir fourth_page ≡ false
unfolding was_accessed pte
fourth_fresh = refl
