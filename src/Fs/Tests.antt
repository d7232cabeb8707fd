-- ===== src/Fs/Tests.antt =====
-- A disk of eight blocks: boot, inodes, bitmap and five data blocks, with an empty file.
use osassignment.Prelude.{
  ℕ, zero, suc, ◌+◌, ◌*◌, ◌-◌, ◌^◌, ◌≡◌, refl, ◌⊎◌, inl, inr, true, false, ◌&&◌, none, some, ltb,
  leb, if◌then◌else◌, Bool-cases, ok, panic, arith,
}
use osassignment.Fs.{SuperBlock, Disk, bsize, put_byte, bfree}
use osassignment.Fs.Blocks.Bitmap.{used}
use osassignment.Fs.Blocks.Layout.{IsLaidOut, IsReserved, free_blocks, bfree-Freed, Freed}
use osassignment.Fs.Inode.{Inode, FileState, max_file, bmap, ndirect, iupdate, ilock}
use osassignment.Fs.Inode.OnDisk.{IsCopy, ilock-iupdate}
use osassignment.Fs.Inode.Slots.{slot, index, content, IsFile}
use osassignment.Fs.Inode.Mapped.{Mapped, bmap-Mapped}
use osassignment.Fs.Data.{Buffer, Device, min, bytes, readi, writei}
use osassignment.Fs.Data.Read.{IsFull, readi-content}
use osassignment.Fs.Data.RoundTrip.{Written, writei-Written}

abbrev pub super : SuperBlock
super = record {
  size = 8;
  nblocks = 5;
  ninodes = 4;
  nlog = 0;
  logstart = 1;
  inodestart = 1;
  bmapstart = 2;
}

abbrev pub fresh_disk : Disk
fresh_disk = put_byte (λ b i. 0) 2 0 7

abbrev pub empty_inode : Inode
empty_inode = record {
  inum = 1;
  ref = 1;
  valid = 1;
  itype = 2;
  major = 0;
  minor = 0;
  nlink = 1;
  size = 0;
  addrs = λ k. 0;
}

abbrev pub empty_file : FileState
empty_file = record { disk = fresh_disk; ip = empty_inode }

abbrev pub no_devices : ℕ → Device
no_devices k = record { read = none; write = none }

pub super-IsLaidOut : IsLaidOut super
super-IsLaidOut = record {
  in_word = omega arith;
  boot = omega arith;
  inodes = omega arith;
  bitmap = omega arith;
}

pub fresh_disk-IsReserved : IsReserved super fresh_disk
unfolding used
fresh_disk-IsReserved zero h = refl
fresh_disk-IsReserved (suc zero) h = refl
fresh_disk-IsReserved (suc (suc zero)) h = refl
fresh_disk-IsReserved (suc (suc (suc v))) h = absurd (omega (arith, h))

pub empty_slot : (k : ℕ) → slot empty_file k ≡ 0
empty_slot k = elim (Bool-cases (leb k ndirect)) [ inl h ↦ rw h refl | inr h ↦ rw h refl ]

pub empty_file-IsFile : IsFile super empty_file
empty_file-IsFile = record {
  reserved = fresh_disk-IsReserved;
  taken = λ k h ne. absurd (ne (empty_slot k));
  distinct = λ j k hj hk ne e. absurd (ne (empty_slot j));
}

pub empty_file-IsFull : IsFull empty_file
empty_file-IsFull = record { bounded = omega arith; there = λ o h. absurd (omega (arith, h)) }

pub five_free : free_blocks super fresh_disk ≡ 5
unfolding used
five_free = refl

abbrev pub text : Buffer
text i = 104 + i

bfree-Freed_example :
    ((used super fresh_disk 2 ≡ 0) × (bfree super fresh_disk 2 ≡ panic))
    ⊎ ((used super fresh_disk 2 ≡ 1)
        × (d' : Disk) × (bfree super fresh_disk 2 ≡ ok d')
        × Freed super fresh_disk 2 d')
bfree-Freed_example = bfree-Freed super fresh_disk 2 (omega arith)

ilock-iupdate_example :
    (got : Inode) × (ilock super
        (iupdate super fresh_disk empty_inode)
        (record empty_inode { valid = 0; itype = 9 })
      ≡ ok got)
    × IsCopy empty_inode got
ilock-iupdate_example =
    ilock-iupdate super fresh_disk empty_inode (record empty_inode { valid = 0; itype = 9 })
      (record {
        itype = omega arith;
        major = omega arith;
        minor = omega arith;
        nlink = omega arith;
        size = omega arith;
        addrs = λ k h. omega arith;
      })
      (omega arith) refl (omega arith) refl

bmap-Mapped_example :
    (a : ℕ) × (s' : FileState) × (bmap super empty_file 20 ≡ ok (a, s'))
    × Mapped super 2 empty_file (index 20) a s'
bmap-Mapped_example =
    bmap-Mapped super super-IsLaidOut empty_file 20 empty_file-IsFile (omega (arith, five_free))
      (omega arith)

readi-content_example :
    readi super no_devices empty_file 1 7
    ≡ ok (
      (if leb 1 empty_file.ip.size && ltb (1 + 7) (2 ^ 32)
          then some (bytes (content empty_file) 1 (min 7 (empty_file.ip.size - 1)))
          else none),
      empty_file,
    )
readi-content_example =
    readi-content super no_devices empty_file 1 7 (omega arith) empty_file-IsFull (omega arith)
      (omega arith)

writei-Written_example :
    ((leb 0 empty_file.ip.size && leb (0 + 3) (max_file * bsize) ≡ false)
      × (writei super no_devices empty_file text 0 3 ≡ ok (none, empty_file)))
    ⊎ ((leb 0 empty_file.ip.size && leb (0 + 3) (max_file * bsize) ≡ true)
        × (s' : FileState) × (writei super no_devices empty_file text 0 3 ≡ ok (some 3, s'))
        × Written super empty_file text 0 3 s')
writei-Written_example =
    writei-Written super super-IsLaidOut no_devices empty_file text 0 3 empty_file-IsFile
      empty_file-IsFull (omega arith) (omega arith) (omega arith) (omega arith)
      (omega (arith, five_free))
