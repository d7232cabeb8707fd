-- ===== src/Fs/Io/Pages.antt =====
-- The swap file of fs.c, as paging uses it.
use osassignment.Prelude.{
  ℕ, zero, suc, ◌+◌, ◌≤◌, ◌≡◌, refl, ap, ◌∙◌, ◌⊎◌, true, false, Option, none, some, List, ltb,
  get_or, if◌then◌else◌, Outcome, ok, ◌>>=◌, arith,
}
use Prim.Native.Nat.{max}
use mathlib.Core.Path.{fun_ext, subst}
use osassignment.Kalloc.{Bytes}
use osassignment.Fs.{SuperBlock}
use osassignment.Fs.Blocks.Layout.{IsLaidOut, free_blocks}
use osassignment.Fs.Inode.{FileState}
use osassignment.Fs.Data.{Device, bytes}
use osassignment.Fs.Io.{new_swap_file, write_to_swap_file, read_from_swap_file}
use osassignment.Fs.Io.Chunks.{IsOpen, cost}
use osassignment.Fs.Io.Swap.{Reads, write_to_swap_file-Swapped}
use osassignment.Paging.Swap.File.{SwapFile, first_page, max_file}

-- `read_from_swap_file` fills a page.
abbrev page_of : List ℕ → Bytes
page_of l i = get_or l i 0

abbrev read_result : Option (List ℕ) → Option Bytes
read_result none = none
read_result (some l) = some (page_of l)

get_or-bytes :
    (b : Bytes) (n i k : ℕ) → get_or (bytes b i n) k 0 ≡ (if ltb k n then b (i + k) else 0)
get_or-bytes b zero i k = let past : ltb k 0 ≡ false = ground arith in rw past refl
get_or-bytes b (suc n) i zero =
    let e : i + 0 ≡ i = omega arith in
    let first : ltb 0 (suc n) ≡ true = ground arith in rw (e, first) refl
get_or-bytes b (suc n) i (suc k) =
    let e : i + 1 + k ≡ i + suc k = omega arith in
    let same : ltb (suc k) (suc n) ≡ ltb k n = ground arith in
    get_or-bytes b n (i + 1) k ∙ rw (e, same) refl

page_of-bytes :
    (b : Bytes) (n : ℕ) → page_of (bytes b 0 n) ≡ (λ (k : ℕ). if ltb k n then b k else 0)
page_of-bytes b n = fun_ext (λ k.
    let e : 0 + k ≡ k = omega arith in
    subst (λ (x : ℕ). get_or (bytes b 0 n) k 0 ≡ (if ltb k n then b x else 0)) e
      (get_or-bytes b n 0 k))

module _ (sb : SuperBlock) (devsw : ℕ → Device) where
  -- The result -1 is not looked at.
  unfoldable pub write_page : FileState → ℕ → Bytes → Outcome FileState
  write_page s o b = do (r, f, s') ← write_to_swap_file sb devsw new_swap_file s b o 4096; ok s'

  unfoldable pub read_page : FileState → ℕ → Outcome (Option Bytes × FileState)
  read_page s o = do
    (r, f, s') ← read_from_swap_file sb devsw new_swap_file s o 4096
    ok (read_result r, s')

  read_page-Reads :
      (s : FileState) (o : ℕ) (l : List ℕ)
      → Reads sb devsw s o 4096 l
      → read_page s o ≡ ok (some (page_of l), s)
  unfolding read_page
  read_page-Reads s o l h = let (off, e) = h 0 in rw e refl

  write_page-ok :
      (s s' : FileState) (o off : ℕ) (b : Bytes)
      → write_to_swap_file sb devsw new_swap_file s b o 4096
        ≡ ok (some 4096, record new_swap_file { off = off }, s')
      → write_page s o b ≡ ok s'
  unfolding write_page
  write_page-ok s s' o off b e = rw e refl

  pub read_page-write_page :
      (s : FileState) (o : ℕ) (b : Bytes)
      → IsLaidOut sb
      → IsOpen sb s
      → cost 4096 o 4096 ≤ free_blocks sb s.disk
      → o ≤ s.ip.size
      → o + 4096 ≤ max_file
      → (s' : FileState) × (write_page s o b ≡ ok s')
        × IsOpen sb s'
        × (s'.ip.size ≡ max s.ip.size (o + 4096))
        × (read_page s' o ≡ ok (some (first_page b), s'))
        × ((p : ℕ)
            → p + 4096 ≤ s.ip.size
            → (p + 4096 ≤ o) ⊎ (o + 4096 ≤ p)
            → (bs : Bytes) × (read_page s p ≡ ok (some bs, s))
              × (read_page s' p ≡ ok (some bs, s')))
  read_page-write_page s o b l ready room low fits =
      let (s', e, w) = write_to_swap_file-Swapped sb devsw s b 0 o 4096 l ready low fits room in
      (
        s',
        write_page-ok s s' o (o + 4096) b e,
        w.still_open,
        w.size_eq ∙ ground arith,
        read_page-Reads s' o (bytes b 0 4096) w.same
            ∙ ap (λ (x : Bytes). ok (some x, s')) (page_of-bytes b 4096),
        λ p h apart.
            let (bs, before, after) = w.others p 4096 h apart in
            (page_of bs, read_page-Reads s p bs before, read_page-Reads s' p bs after),
      )

  -- `writeToSwapFile` and `readFromSwapFile` as what paging asks for.
  abbrev pub disk_file : IsLaidOut sb → SwapFile
  disk_file l = record {
    File = FileState;
    size = λ s. s.ip.size;
    IsReady = IsOpen sb;
    HasRoom = λ s o. cost 4096 o 4096 ≤ free_blocks sb s.disk;
    write_page = write_page;
    read_page = read_page;
    read-write = λ s o b ready room low fits. read_page-write_page s o b l ready room low fits;
  }
