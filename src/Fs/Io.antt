-- ===== src/Fs/Io.antt =====
-- Reading and writing through an open file, file.c, and the swap file, `writeToSwapFile` and
-- `readFromSwapFile` of fs.c. A pipe's result is an argument (Pipe has its functions); the inode is locked
-- and a transaction is open around each call of `readi` and `writei`.
pub mod Chunks
pub mod Swap
pub mod Pages
pub mod Tests
use osassignment.Prelude.{
  ℕ, zero, suc, ◌+◌, ◌-◌, Bool, true, false, Option, none, some, List, [], ltb, ◌==◌, if◌then◌else◌,
  length, Outcome, ok, panic, ◌>>=◌,
}
use osassignment.Fs.{SuperBlock}
use osassignment.Fs.Inode.{Inode, FileState}
use osassignment.Fs.Data.{Buffer, Device, readi, writei}
use osassignment.Files.{FileType, fd_none, fd_pipe, fd_inode}

-- The part of `struct file` that reading and writing use.
pub record OpenFile : Type 0 where
  pub ftype : FileType
  pub readable : ℕ
  pub writable : ℕ
  pub off : ℕ

-- `none` is -1.
unfoldable pub fileread :
    SuperBlock
    → (ℕ → Device)
    → (ℕ → Option (List ℕ))
    → OpenFile
    → FileState
    → ℕ
    → Outcome (Option (List ℕ) × OpenFile × FileState)
fileread sb devsw pipe f s n = if f.readable == 0 then ok (none, f, s) else elim f.ftype [
  | fd_pipe ↦ ok (pipe n, f, s)
  | fd_none ↦ panic
  | fd_inode ↦ do
    (r, s1) ← readi sb devsw s f.off n
    elim r [
      | none ↦ ok (none, f, s1)
      | some l ↦ ok (some l, record f { off = f.off + length l }, s1)
    ]
]

-- `((MAXOPBLOCKS - 1 - 1 - 2) / 2) * 512`
abbrev pub max_write : ℕ
max_write = 1536

abbrev pub cut : ℕ → ℕ
cut n = if ltb max_write n then max_write else n

-- The loop of `filewrite` with `n` bytes to go; whether all are written, and the offset.
unfoldable pub filewrite_loop :
    ℕ → SuperBlock → (ℕ → Device) → FileState → Buffer → ℕ → ℕ → Outcome (Bool × ℕ × FileState)
filewrite_loop zero sb devsw s src off n = ok (true, off, s)
filewrite_loop (suc fuel) sb devsw s src off n = elim (n == 0) [
  | true ↦ ok (true, off, s)
  | false ↦ do
    (r, s1) ← writei sb devsw s src off (cut n)
    elim r [
      | none ↦ ok (false, off, s1)
      | some m ↦ elim (m == cut n) [
        | false ↦ panic
        | true ↦ filewrite_loop fuel sb devsw s1 (λ i. src (i + m)) (off + m) (n - m)
      ]
    ]
]

unfoldable pub filewrite :
    SuperBlock
    → (ℕ → Device)
    → (Buffer → ℕ → Option ℕ)
    → OpenFile
    → FileState
    → Buffer
    → ℕ
    → Outcome (Option ℕ × OpenFile × FileState)
unfolding filewrite_loop
filewrite sb devsw pipe f s src n = if f.writable == 0 then ok (none, f, s) else elim f.ftype [
  | fd_pipe ↦ ok (pipe src n, f, s)
  | fd_none ↦ panic
  | fd_inode ↦ do
    (all, off, s1) ← filewrite_loop n sb devsw s src f.off n
    ok ((if all then some n else none), record f { off = off }, s1)
]

-- What `createSwapFile` makes of its file: it sets `readable` to O_WRONLY and `writable` to O_RDWR.
abbrev pub new_swap_file : OpenFile
new_swap_file = record { ftype = fd_inode; readable = 1; writable = 2; off = 0 }

abbrev no_pipe_read : ℕ → Option (List ℕ)
no_pipe_read n = none

abbrev no_pipe_write : Buffer → ℕ → Option ℕ
no_pipe_write src n = none

-- The file and its inode, for a file that is no pipe.
unfoldable pub write_to_swap_file :
    SuperBlock
    → (ℕ → Device)
    → OpenFile
    → FileState
    → Buffer
    → ℕ
    → ℕ
    → Outcome (Option ℕ × OpenFile × FileState)
unfolding filewrite
write_to_swap_file sb devsw f s buffer place size =
    filewrite sb devsw no_pipe_write (record f { off = place }) s buffer size

unfoldable pub read_from_swap_file :
    SuperBlock
    → (ℕ → Device)
    → OpenFile
    → FileState
    → ℕ
    → ℕ
    → Outcome (Option (List ℕ) × OpenFile × FileState)
unfolding fileread
read_from_swap_file sb devsw f s place size =
    fileread sb devsw no_pipe_read (record f { off = place }) s size
