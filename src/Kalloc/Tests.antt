-- ===== src/Kalloc/Tests.antt =====
-- The allocator's theorems at addresses of a small machine.
use osassignment.Prelude.{◌≡◌, refl, [], ◌∷◌, ok, arith}
use osassignment.Kalloc.{Kmem, freerange, num_free}
use osassignment.Kalloc.Pages.{IsValid, pages_down, freerange-IsValid}

abbrev empty : Kmem
empty = record { freelist = []; frames = λ a i. 0 }

abbrev kmem1 : Kmem
kmem1 = record { freelist = 0x8020_0000 ∷ []; frames = λ a i. 0 }

kmem1-IsValid : IsValid 0x8010_0000 kmem1
kmem1-IsValid = record { pages = ((refl, omega arith, omega arith), tt); distinct = (tt, tt) }

freerange-IsValid_example :
    (k' : Kmem) × (freerange 0x8010_0000 empty 0x8010_0800 0x8010_4000 ≡ ok k')
    × IsValid 0x8010_0000 k'
    × (k'.freelist ≡ pages_down 3 0x8010_1000)
    × (num_free k' ≡ 3)
freerange-IsValid_example =
    freerange-IsValid 0x8010_0000 empty 0x8010_0800 0x8010_4000 refl (omega arith) (omega arith)
      (omega arith) (omega arith)
