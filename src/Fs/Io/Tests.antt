-- ===== src/Fs/Io/Tests.antt =====
-- The first write to an empty swap file.
use osassignment.Prelude.{
  ℕ, zero, suc, ◌+◌, ◌/◌, ◌%◌, ◌<◌, ◌≡◌, ◌≢◌, refl, ◌∙◌, inl, inr, true, false, some, ltb, leb,
  ◌==◌, if◌then◌else◌, ok, Bool-cases, arith,
}
use osassignment.Prelude.Bits
use osassignment.Fs.{SuperBlock, Disk, bsize, bpb, bblock}
use osassignment.Fs.Blocks.Bitmap.{used}
use osassignment.Fs.Blocks.Layout.{IsLaidOut, free_blocks}
use osassignment.Fs.Inode.Slots.{slot}
use osassignment.Fs.Inode.{FileState, ndirect}
use osassignment.Fs.Io.{write_to_swap_file}
use osassignment.Fs.Io.Chunks.{IsOpen}
use osassignment.Fs.Io.Swap.{Swapped, swap_file, write_to_swap_file-Swapped}
use osassignment.Fs.Tests.{
  super, super-IsLaidOut, empty_inode, empty_file, empty_file-IsFile, empty_file-IsFull, no_devices,
  five_free, text,
}

empty_file-IsOpen : IsOpen super empty_file
empty_file-IsOpen = record {
  file = empty_file-IsFile;
  full = empty_file-IsFull;
  known = omega arith;
  not_dev = omega arith;
}

write_to_swap_file-Swapped_example :
    (s' : FileState) × (write_to_swap_file super no_devices (swap_file 9) empty_file text 0 700
      ≡ ok (some 700, swap_file (0 + 700), s'))
    × Swapped super no_devices empty_file text 0 700 s'
write_to_swap_file-Swapped_example =
    write_to_swap_file-Swapped super no_devices empty_file text 9 0 700 super-IsLaidOut
      empty_file-IsOpen (omega arith) (omega arith) (omega (arith, five_free))

-- A disk of 64 blocks, the first 32 in use, and a file with the blocks 20 to 27, whose bytes are 7.
abbrev pub wide : SuperBlock
wide = record {
  size = 64;
  nblocks = 61;
  ninodes = 4;
  nlog = 0;
  logstart = 1;
  inodestart = 1;
  bmapstart = 2;
}

pub wide-IsLaidOut : IsLaidOut wide
wide-IsLaidOut = record {
  in_word = omega arith;
  boot = omega arith;
  inodes = omega arith;
  bitmap = omega arith;
}

abbrev pub half_disk : Disk
half_disk c j = if c == 2 then (if ltb j 4 then 255 else 0) else 7

abbrev pub eight_blocks : FileState
eight_blocks = record {
  disk = half_disk;
  ip = record empty_inode { size = 4096; addrs = λ k. if ltb k 8 then k + 20 else 0 };
}

all_bits : (k : ℕ) → k < 8 → Bits.bit k 255 ≡ 1
all_bits zero h = refl
all_bits (suc zero) h = refl
all_bits (suc (suc zero)) h = refl
all_bits (suc (suc (suc zero))) h = refl
all_bits (suc (suc (suc (suc zero)))) h = refl
all_bits (suc (suc (suc (suc (suc zero))))) h = refl
all_bits (suc (suc (suc (suc (suc (suc zero)))))) h = refl
all_bits (suc (suc (suc (suc (suc (suc (suc zero))))))) h = refl
all_bits (suc (suc (suc (suc (suc (suc (suc (suc k)))))))) h = absurd (omega (arith, h))

half_used : (v : ℕ) → v < 32 → used wide half_disk v ≡ 1
unfolding used
half_used v h =
    let block : bblock wide v == 2 ≡ true = ground (arith, h) in
    let byte : ltb (v % bpb / 8) 4 ≡ true = ground (arith, h) in
    rw (block, byte) (all_bits (v % bpb % 8) (omega arith))

eight_slots : (k : ℕ) → slot eight_blocks k ≡ (if ltb k 8 then k + 20 else 0)
eight_slots k = elim (Bool-cases (leb k ndirect)) [
  | inl h ↦ rw h refl
  | inr h ↦ let other : ltb k 8 ≡ false = ground (arith, h) in rw (h, other) refl
]

eight_slot : (k : ℕ) → slot eight_blocks k ≢ 0 → (k < 8) × (slot eight_blocks k ≡ k + 20)
eight_slot k ne = elim (Bool-cases (ltb k 8)) [
  | inl here ↦ (ground (arith, here), eight_slots k ∙ rw here refl)
  | inr other ↦ absurd (ne (eight_slots k ∙ rw other refl))
]

pub eight_blocks-IsOpen : IsOpen wide eight_blocks
eight_blocks-IsOpen = record {
  file = record {
    reserved = λ v h. half_used v (omega (arith, h));
    taken = λ k h ne.
        let (lt, e) = eight_slot k ne in
        record {
          in_data = omega (arith, e);
          in_range = omega (arith, e, lt);
          in_use = half_used (slot eight_blocks k) (omega (arith, e, lt));
        };
    distinct = λ j k hj hk ne same.
        let (lj, ej) = eight_slot j ne in
        let (lk, ek) = eight_slot k (λ z. ne (same ∙ z)) in omega (arith, ej, ek, same);
  };
  full = record {
    bounded = omega arith;
    there = λ o h.
        let low : ltb (o / bsize) ndirect ≡ true = ground (arith, h) in
        let few : ltb (o / bsize) 8 ≡ true = ground (arith, h) in
        let at : slot eight_blocks (o / bsize) ≡ o / bsize + 20 =
          eight_slots (o / bsize) ∙ rw few refl in
        rw low (λ z. omega (arith, at, z));
  };
  known = omega arith;
  not_dev = omega arith;
}

pub half_free : free_blocks wide half_disk ≡ 32
unfolding used
half_free = refl
