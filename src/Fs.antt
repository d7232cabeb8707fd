-- ===== src/Fs.antt =====
-- The disk of the file system and its layout, from fs.h and fs.c: the super block, the block allocator
-- and the in-memory inode. The buffer cache and the log stand between these functions and the disk; a
-- block is read here as it was last written, which `bread` and `log_write` provide inside an operation.
pub mod Cache
pub mod Blocks
pub mod Data
pub mod Dir
pub mod Inode
pub mod Io
pub mod Path
pub mod Tests
use osassignment.Prelude.{
  ℕ, zero, suc, ◌+◌, ◌-◌, ◌*◌, ◌/◌, ◌%◌, ◌^◌, Bool, true, false, Option, none, some, ltb, ◌==◌,
  if◌then◌else◌, Outcome, ok, panic, ◌>>=◌,
}
use Prim.Native.Nat.{bit_and, bit_or}

pub record SuperBlock : Type 0 where
  pub size : ℕ
  pub nblocks : ℕ
  pub ninodes : ℕ
  pub nlog : ℕ
  pub logstart : ℕ
  pub inodestart : ℕ
  pub bmapstart : ℕ

abbrev pub bsize : ℕ
bsize = 512

-- blocks that one block of the bitmap covers
abbrev pub bpb : ℕ
bpb = 4096

-- The byte at a place in a block.
abbrev pub Disk : Type 0
Disk = ℕ → ℕ → ℕ

abbrev pub put_byte : Disk → ℕ → ℕ → ℕ → Disk
put_byte d b i v c j = if c == b then (if j == i then v else d c j) else d c j

abbrev pub bblock : SuperBlock → ℕ → ℕ
bblock sb b = b / bpb + sb.bmapstart

-- `memset(bp->data, 0, BSIZE)`
abbrev pub bzero : Disk → ℕ → Disk
bzero d b c j = if c == b then (if ltb j bsize then 0 else d c j) else d c j

-- The inner loop of `balloc`, over the bits `bi` of the bitmap block of `b`: the first free block, and
-- the disk where it is marked.
unfoldable pub alloc_bits : ℕ → SuperBlock → Disk → ℕ → ℕ → Option (ℕ × Disk)
alloc_bits zero sb d b bi = none
alloc_bits (suc n) sb d b bi = elim (ltb (b + bi) sb.size) [
  | false ↦ none
  | true ↦ elim (bit_and (d (bblock sb b) (bi / 8)) (2 ^ (bi % 8)) == 0) [
    | true ↦ some (
      b + bi,
      put_byte d (bblock sb b) (bi / 8) (bit_or (d (bblock sb b) (bi / 8)) (2 ^ (bi % 8))),
    )
    | false ↦ alloc_bits n sb d b (bi + 1)
  ]
]

-- The outer loop, over the bitmap blocks.
unfoldable pub alloc_blocks : ℕ → SuperBlock → Disk → ℕ → Outcome (ℕ × Disk)
unfolding alloc_bits
alloc_blocks zero sb d b = panic
alloc_blocks (suc n) sb d b = elim (ltb b sb.size) [
  | false ↦ panic
  | true ↦ elim (alloc_bits bpb sb d b 0) [
    | some (a, d') ↦ ok (a, bzero d' a)
    | none ↦ alloc_blocks n sb d (b + bpb)
  ]
]

unfoldable pub balloc : SuperBlock → Disk → Outcome (ℕ × Disk)
unfolding alloc_blocks
balloc sb d = alloc_blocks (sb.size / bpb + 1) sb d 0

unfoldable pub bfree : SuperBlock → Disk → ℕ → Outcome Disk
bfree sb d b =
    let bi : ℕ = b % bpb in
    let byte : ℕ = d (bblock sb b) (bi / 8) in
    if bit_and byte (2 ^ (bi % 8)) == 0
    then panic
    else ok (put_byte d (bblock sb b) (bi / 8) (bit_and byte (2 ^ 8 - 1 - 2 ^ (bi % 8))))
