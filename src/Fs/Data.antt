-- ===== src/Fs/Data.antt =====
-- The bytes of a file: `readi` and `writei` of fs.c. Their sums with `off` inside the loops stay below the
-- sum that was tested before, so only the tests wrap.
pub mod Bytes
pub mod Read
pub mod Write
pub mod Written
pub mod Size
pub mod RoundTrip
use osassignment.Prelude.{
  ℕ, zero, suc, ◌+◌, ◌-◌, ◌*◌, ◌/◌, ◌%◌, ◌^◌, Bool, true, false, ◌||◌, ◌&&◌, Option, none, some,
  List, [], ◌∷◌, ◌++◌, ltb, leb, ◌==◌, if◌then◌else◌, Outcome, ok, panic, ◌>>=◌,
}
use osassignment.Fs.{SuperBlock, Disk, bsize}
use osassignment.Fs.Inode.{Inode, FileState, t_dev, max_file, bmap, iupdate}

-- A memory from the address that a call gets.
abbrev pub Buffer : Type 0
Buffer = ℕ → ℕ

-- The functions of a device, none where the table has a null pointer. `none` as a result is -1.
pub record Device : Type 0 where
  pub read : Option (Inode → ℕ → Option (List ℕ))
  pub write : Option (Inode → Buffer → ℕ → Option ℕ)

abbrev pub ndev : ℕ
ndev = 10

-- A major number of 2 ^ 15 or more is a negative short.
unfoldable pub dev_read : (ℕ → Device) → Inode → ℕ → Option (List ℕ)
dev_read devsw ip n =
    if leb (2 ^ 15) ip.major || leb ndev ip.major
    then none
    else elim (devsw ip.major).read [ none ↦ none | some f ↦ f ip n ]

unfoldable pub dev_write : (ℕ → Device) → Inode → Buffer → ℕ → Option ℕ
dev_write devsw ip src n =
    if leb (2 ^ 15) ip.major || leb ndev ip.major
    then none
    else elim (devsw ip.major).write [ none ↦ none | some f ↦ f ip src n ]

abbrev pub min : ℕ → ℕ → ℕ
min a b = if ltb a b then a else b

-- `n` bytes of `f` from `i` on.
abbrev pub bytes : Buffer → ℕ → ℕ → List ℕ
bytes f i zero = []
bytes f i (suc n) = f i ∷ bytes f (i + 1) n

-- `memmove(bp->data + i, src, m)` for block `b`
abbrev pub put_bytes : Disk → ℕ → ℕ → ℕ → Buffer → Disk
put_bytes d b i m src c j =
    if c == b then (if leb i j && ltb j (i + m) then src (j - i) else d c j) else d c j

-- The bytes of this round.
abbrev pub chunk : ℕ → ℕ → ℕ
chunk off n = min n (bsize - off % bsize)

-- The loop of `readi` with `n` bytes to go.
unfoldable pub read_loop : ℕ → SuperBlock → FileState → ℕ → ℕ → Outcome (List ℕ × FileState)
read_loop zero sb s off n = ok ([], s)
read_loop (suc fuel) sb s off n = elim (n == 0) [
  | true ↦ ok ([], s)
  | false ↦ do
    (a, s1) ← bmap sb s (off / bsize)
    (rest, s2) ← read_loop fuel sb s1 (off + chunk off n) (n - chunk off n)
    ok (bytes (s1.disk a) (off % bsize) (chunk off n) ++ rest, s2)
]

-- `none` is -1.
unfoldable pub readi :
    SuperBlock → (ℕ → Device) → FileState → ℕ → ℕ → Outcome (Option (List ℕ) × FileState)
unfolding dev_read read_loop
readi sb devsw s off n =
    let left : ℕ = if ltb s.ip.size ((off + n) % 2 ^ 32) then s.ip.size - off else n in
    if s.ip.itype == t_dev
    then ok (dev_read devsw s.ip n, s)
    else if ltb s.ip.size off || ltb ((off + n) % 2 ^ 32) off
    then ok (none, s)
    else (do (read, s') ← read_loop left sb s off left; ok (some read, s'))

-- The loop of `writei`.
unfoldable pub write_loop : ℕ → SuperBlock → FileState → Buffer → ℕ → ℕ → Outcome FileState
write_loop zero sb s src off n = ok s
write_loop (suc fuel) sb s src off n = elim (n == 0) [
  | true ↦ ok s
  | false ↦ do
    (a, s1) ← bmap sb s (off / bsize)
    write_loop fuel sb (record s1 { disk = put_bytes s1.disk a (off % bsize) (chunk off n) src })
        (λ i. src (i + chunk off n)) (off + chunk off n) (n - chunk off n)
]

-- The end of `writei`, with the offset behind the last byte.
unfoldable pub set_size : SuperBlock → FileState → ℕ → ℕ → FileState
set_size sb s off n =
    let ip : Inode = record s.ip { size = off } in
    if ltb 0 n && ltb s.ip.size off then record { disk = iupdate sb s.disk ip; ip = ip } else s

unfoldable pub writei :
    SuperBlock → (ℕ → Device) → FileState → Buffer → ℕ → ℕ → Outcome (Option ℕ × FileState)
unfolding dev_write write_loop set_size
writei sb devsw s src off n =
    if s.ip.itype == t_dev
    then ok (dev_write devsw s.ip src n, s)
    else if ltb s.ip.size off || ltb ((off + n) % 2 ^ 32) off
    then ok (none, s)
    else if ltb (max_file * bsize) ((off + n) % 2 ^ 32)
    then ok (none, s)
    else (do s' ← write_loop n sb s src off n; ok (some n, set_size sb s' (off + n) n))
