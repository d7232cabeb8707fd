-- ===== src/Paging/Swap/File.antt =====
-- The swap file of a process as paging sees it. `Fs/Io/Pages` shows that the functions of fs.c meet the
-- interface.
use osassignment.Prelude.{
  ℕ, ◌+◌, ◌≤◌, ◌≡◌, ◌⊎◌, Option, some, ltb, if◌then◌else◌, Outcome, ok, refl, Bool-cases, inl, inr,
}
use Prim.Native.Nat.{max}
use mathlib.Core.Path.{fun_ext}
use osassignment.Kalloc.{Bytes}

-- The largest file, MAXFILE * BSIZE of fs.h.
abbrev pub max_file : ℕ
max_file = 71680

-- The bytes of a page.
abbrev pub first_page : Bytes → Bytes
first_page b i = if ltb i 4096 then b i else 0

pub first_page-first_page : (b : Bytes) → first_page (first_page b) ≡ first_page b
first_page-first_page b = fun_ext (λ i. elim (Bool-cases (ltb i 4096)) [
  | inl inside ↦ rw inside refl
  | inr outside ↦ rw outside refl
])

-- `write_page f offset` is `writeToSwapFile` and `read_page` is `readFromSwapFile`, each for a whole
-- page. Either may panic, the first when the disk has no free block. A write that starts inside the
-- file or at its end and ends below the limit, with room on the disk, takes effect and keeps the rest.
pub record SwapFile : Type 1 where
  pub File : Type 0
  pub size : File → ℕ
  pub IsReady : File → Type 0
  pub HasRoom : File → ℕ → Type 0
  pub write_page : File → ℕ → Bytes → Outcome File
  pub read_page : File → ℕ → Outcome (Option Bytes × File)
  pub read-write :
      (f : File) (o : ℕ) (b : Bytes)
      → IsReady f
      → HasRoom f o
      → o ≤ size f
      → o + 4096 ≤ max_file
      → (f' : File) × (write_page f o b ≡ ok f')
        × IsReady f'
        × (size f' ≡ max (size f) (o + 4096))
        × (read_page f' o ≡ ok (some (first_page b), f'))
        × ((p : ℕ)
            → p + 4096 ≤ size f
            → (p + 4096 ≤ o) ⊎ (o + 4096 ≤ p)
            → (bs : Bytes) × (read_page f p ≡ ok (some bs, f))
              × (read_page f' p ≡ ok (some bs, f')))
