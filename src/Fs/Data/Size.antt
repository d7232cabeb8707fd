-- ===== src/Fs/Data/Size.antt =====
-- The end of `writei`, which puts a larger size on the disk.
use osassignment.Prelude.{
  ℕ, ◌*◌, ◌/◌, ◌%◌, ◌≤◌, ◌<◌, ◌≡◌, ◌≢◌, refl, inl, inr, ◌&&◌, ltb, ◌==◌, if◌then◌else◌, Bool-cases,
  arith,
}
use osassignment.Fs.{SuperBlock, Disk, bsize}
use osassignment.Fs.Blocks.Bitmap.{used}
use osassignment.Fs.Blocks.Layout.{first_data, IsLaidOut, free_blocks}
use osassignment.Fs.Inode.{FileState, max_file, ndirect, iupdate}
use osassignment.Fs.Inode.Slots.{slot, index, content, IsTaken, IsFile}
use osassignment.Fs.Inode.OnDisk.{iupdate_behind, used-iupdate}
use osassignment.Fs.Data.{set_size}
use osassignment.Fs.Data.Write.{slot_same, IsFile-same, IsTaken-same, free_same}

-- What the end of `writei` keeps.
pub record Sized (sb : SuperBlock) (s : FileState) (size : ℕ) (s' : FileState) : Type 0 where
  pub file : IsFile sb s'
  pub slot_eq : (k : ℕ) → slot s' k ≡ slot s k
  pub kept : (c j : ℕ) → first_data sb ≤ c → s'.disk c j ≡ s.disk c j
  pub taken : (c : ℕ) → IsTaken sb s.disk c → IsTaken sb s'.disk c
  pub size_eq : s'.ip.size ≡ size
  pub itype_eq : s'.ip.itype ≡ s.ip.itype
  pub inum_eq : s'.ip.inum ≡ s.ip.inum
  pub free_eq : free_blocks sb s'.disk ≡ free_blocks sb s.disk

module _ (sb : SuperBlock) (l : IsLaidOut sb) where
  module _ (s : FileState) (f : IsFile sb s) (known : s.ip.inum < sb.ninodes) (size : ℕ) where
    abbrev d : Disk
    d = iupdate sb s.disk (record s.ip { size = size })

    update_kept : (c j : ℕ) → sb.bmapstart ≤ c → d c j ≡ s.disk c j
    update_kept c j h = iupdate_behind sb s.disk (record s.ip { size = size }) c j l known h

    update_used : (v : ℕ) → v < sb.size → used sb d v ≡ used sb s.disk v
    update_used v h = used-iupdate sb s.disk (record s.ip { size = size }) v l known h

    update_data : (c j : ℕ) → first_data sb ≤ c → d c j ≡ s.disk c j
    update_data c j h = update_kept c j (omega (arith, l.bitmap, h))

    update_table :
        (j : ℕ) → s.ip.addrs ndirect ≢ 0 → d (s.ip.addrs ndirect) j ≡ s.disk (s.ip.addrs ndirect) j
    update_table j ne =
        let t = f.taken ndirect (omega arith) ne in update_data (s.ip.addrs ndirect) j t.in_data

    update-Sized : Sized sb s size (record { disk = d; ip = record s.ip { size = size } })
    update-Sized = record {
      file = IsFile-same sb l s f d size update_table update_used;
      slot_eq = slot_same sb l s f d size update_table update_used;
      kept = update_data;
      taken = IsTaken-same sb l s f d size update_table update_used;
      size_eq = refl;
      itype_eq = refl;
      inum_eq = refl;
      free_eq = free_same sb l s f d size update_table update_used;
    }

  pub set_size-Sized :
      (s : FileState) (end n : ℕ)
      → IsFile sb s
      → s.ip.inum < sb.ninodes
      → Sized sb s (if ltb 0 n && ltb s.ip.size end then end else s.ip.size) (set_size sb s end n)
  unfolding set_size
  set_size-Sized s end n f known = elim (Bool-cases (ltb 0 n && ltb s.ip.size end)) [
    | inl grows ↦ rw grows (update-Sized s f known end)
    | inr stays ↦ rw stays (record {
      file = f;
      slot_eq = λ k. refl;
      kept = λ c j h. refl;
      taken = λ c t. t;
      size_eq = refl;
      itype_eq = refl;
      inum_eq = refl;
      free_eq = refl;
    })
  ]

  pub Sized-content :
      (s s' : FileState) (size o : ℕ)
      → IsFile sb s
      → Sized sb s size s'
      → o < max_file * bsize
      → content s' o ≡ content s o
  Sized-content s s' size o f z h =
      let same = z.slot_eq (index (o / bsize)) in
      elim (Bool-cases (slot s (index (o / bsize)) == 0)) [
        | inl hole ↦ rw (same, hole) refl
        | inr block ↦
            let t = f.taken (index (o / bsize)) (ground (arith, h)) (ground (arith, block)) in
            rw (same, block) (z.kept (slot s (index (o / bsize))) (o % bsize) t.in_data)
      ]
