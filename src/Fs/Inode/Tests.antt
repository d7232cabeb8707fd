-- ===== src/Fs/Inode/Tests.antt =====
-- The last reference to a file of one block that no directory has.
use osassignment.Prelude.{
  ℕ, zero, suc, ◌-◌, ◌≡◌, ◌≢◌, refl, ◌∙◌, ◌⊎◌, inl, inr, true, false, leb, ◌==◌, if◌then◌else◌,
  Bool-cases, ok, arith,
}
use osassignment.Fs.{Disk, put_byte}
use osassignment.Fs.Blocks.Bitmap.{used}
use osassignment.Fs.Blocks.Layout.{IsReserved}
use osassignment.Fs.Inode.{FileState, ndirect, itrunc, iput}
use osassignment.Fs.Inode.Slots.{slot, IsFile, IsTaken}
use osassignment.Fs.Inode.Trunc.{HasBytes}
use osassignment.Fs.Inode.Emptied.{Emptied, itrunc-Emptied}
use osassignment.Fs.Inode.Released.{Released, is_last, iput-Released}
use osassignment.Fs.Tests.{super, super-IsLaidOut, empty_inode}

-- blocks 0 to 4 are in use, the file has block 4
abbrev used_disk : Disk
used_disk = put_byte (λ b i. 0) 2 0 31

abbrev unlinked : FileState
unlinked = record {
  disk = used_disk;
  ip = record empty_inode { nlink = 0; size = 20; addrs = λ k. if k == 3 then 4 else 0 };
}

unlinked-IsReserved : IsReserved super used_disk
unfolding used
unlinked-IsReserved zero h = refl
unlinked-IsReserved (suc zero) h = refl
unlinked-IsReserved (suc (suc zero)) h = refl
unlinked-IsReserved (suc (suc (suc v))) h = absurd (omega (arith, h))

only_slot : (k : ℕ) → slot unlinked k ≡ (if k == 3 then 4 else 0)
only_slot k = elim (Bool-cases (leb k ndirect)) [
  | inl h ↦ rw h refl
  | inr h ↦ let other : k == 3 ≡ false = ground (arith, h) in rw (h, other) refl
]

only_place : (k : ℕ) → slot unlinked k ≢ 0 → k ≡ 3
only_place k ne = elim (Bool-cases (k == 3)) [
  | inl here ↦ ground (arith, here)
  | inr other ↦ absurd (ne (only_slot k ∙ rw other refl))
]

block_four : IsTaken super used_disk 4
unfolding used
block_four = record { in_data = omega arith; in_range = omega arith; in_use = refl }

unlinked-IsFile : IsFile super unlinked
unlinked-IsFile = record {
  reserved = unlinked-IsReserved;
  taken = λ k h ne. (let e : k ≡ 3 = only_place k ne in rw e block_four);
  distinct = λ j k hj hk ne e.
      let ne' : slot unlinked k ≢ 0 = λ z. ne (e ∙ z) in
      omega (arith, only_place j ne, only_place k ne');
}

unlinked-HasBytes : HasBytes super used_disk
unlinked-HasBytes v h = ground arith

itrunc-Emptied_example :
    (s' : FileState) × (itrunc super unlinked ≡ ok s') × Emptied super unlinked s'
itrunc-Emptied_example =
    itrunc-Emptied super unlinked super-IsLaidOut unlinked-IsFile unlinked-HasBytes (omega arith)

iput-Released_example :
    ((is_last unlinked.ip ≡ false)
      × (iput super unlinked
          ≡ ok (record unlinked { ip = record unlinked.ip { ref = unlinked.ip.ref - 1 } })))
    ⊎ ((is_last unlinked.ip ≡ true)
        × (s' : FileState) × (iput super unlinked ≡ ok s')
        × Released super unlinked s')
iput-Released_example =
    iput-Released super unlinked super-IsLaidOut unlinked-IsFile unlinked-HasBytes (omega arith)
