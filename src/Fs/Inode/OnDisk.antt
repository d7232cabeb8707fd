-- ===== src/Fs/Inode/OnDisk.antt =====
-- The inode on the disk: what `iupdate` writes is what `ilock` reads.
use osassignment.Prelude.{
  ℕ, ◌+◌, ◌-◌, ◌*◌, ◌/◌, ◌%◌, ◌^◌, ◌≤◌, ◌<◌, ◌≡◌, ◌≢◌, refl, ap, ◌∙◌, inl, inr, true, false, ltb,
  leb, ◌==◌, ok, Bool-cases, arith,
}
use osassignment.Fs.{SuperBlock, Disk, bblock, bpb}
use osassignment.Fs.Inode.{
  Inode, byte_of, short, long, dinode_byte, iupdate, load_inode, ilock, iblock, ipb, ndirect,
}
use osassignment.Prelude.Bits
use osassignment.Fs.Blocks.Bitmap.{used}
use osassignment.Fs.Blocks.Layout.{IsLaidOut}
use osassignment.Fs.Inode.Words.{short_bytes, long_bytes}

-- The fields are numbers of their widths.
pub record Fits (ip : Inode) : Type 0 where
  pub itype : ip.itype < 2 ^ 16
  pub major : ip.major < 2 ^ 16
  pub minor : ip.minor < 2 ^ 16
  pub nlink : ip.nlink < 2 ^ 16
  pub size : ip.size < 2 ^ 32
  pub addrs : (k : ℕ) → k ≤ ndirect → ip.addrs k < 2 ^ 32

-- `got` is `ip` as far as it is kept on the disk.
pub record IsCopy (ip got : Inode) : Type 0 where
  pub itype : got.itype ≡ ip.itype
  pub major : got.major ≡ ip.major
  pub minor : got.minor ≡ ip.minor
  pub nlink : got.nlink ≡ ip.nlink
  pub size : got.size ≡ ip.size
  pub addrs : (k : ℕ) → k ≤ ndirect → got.addrs k ≡ ip.addrs k

module _ (sb : SuperBlock) (d : Disk) (ip : Inode) where
  byte_at :
      (i r : ℕ)
      → i ≡ 64 * (ip.inum % ipb) + r
      → r < 64
      → iupdate sb d ip (iblock sb ip.inum) i ≡ dinode_byte ip r
  unfolding iupdate
  byte_at i r e h =
      let here : iblock sb ip.inum == iblock sb ip.inum ≡ true = ground arith in
      let slot : i / 64 == ip.inum % ipb ≡ true =
        (let q : i / 64 ≡ ip.inum % ipb = omega (arith, e, h) in ground (arith, q)) in
      let m : i % 64 ≡ r = omega (arith, e, h) in rw (here, slot, m) refl

  addr_byte : (k t : ℕ) → t < 4 → dinode_byte ip (12 + 4 * k + t) ≡ byte_of t (ip.addrs k)
  addr_byte k t h =
      let a : ltb (12 + 4 * k + t) 2 ≡ false = ground arith in
      let b : ltb (12 + 4 * k + t) 4 ≡ false = ground arith in
      let c : ltb (12 + 4 * k + t) 6 ≡ false = ground arith in
      let e : ltb (12 + 4 * k + t) 8 ≡ false = ground arith in
      let f : ltb (12 + 4 * k + t) 12 ≡ false = ground arith in
      let m : (12 + 4 * k + t - 12) % 4 ≡ t = omega (arith, h) in
      let q : (12 + 4 * k + t - 12) / 4 ≡ k = omega (arith, h) in rw (a, b, c, e, f, m, q) refl

  addr_at :
      (k t i : ℕ)
      → k ≤ ndirect
      → t < 4
      → i ≡ 64 * (ip.inum % ipb) + (12 + 4 * k + t)
      → iupdate sb d ip (iblock sb ip.inum) i ≡ byte_of t (ip.addrs k)
  addr_at k t i l h e = byte_at i (12 + 4 * k + t) e (omega (arith, l, h)) ∙ addr_byte k t h

  long_at :
      (i v : ℕ)
      → v < 2 ^ 32
      → iupdate sb d ip (iblock sb ip.inum) i ≡ byte_of 0 v
      → iupdate sb d ip (iblock sb ip.inum) (i + 1) ≡ byte_of 1 v
      → iupdate sb d ip (iblock sb ip.inum) (i + 2) ≡ byte_of 2 v
      → iupdate sb d ip (iblock sb ip.inum) (i + 3) ≡ byte_of 3 v
      → long (iupdate sb d ip) (iblock sb ip.inum) i ≡ v
  long_at i v h a b c e = rw (a, b, c, e) (long_bytes v h)

  short_at :
      (i v : ℕ)
      → v < 2 ^ 16
      → iupdate sb d ip (iblock sb ip.inum) i ≡ byte_of 0 v
      → iupdate sb d ip (iblock sb ip.inum) (i + 1) ≡ byte_of 1 v
      → short (iupdate sb d ip) (iblock sb ip.inum) i ≡ v
  short_at i v h a b = rw (a, b) (short_bytes v h)

  -- The base of the inode in its block.
  abbrev base : ℕ
  base = 64 * (ip.inum % ipb)

  pub itype_at :
      ip.itype < 2 ^ 16
      → short (iupdate sb d ip) (iblock sb ip.inum) (64 * (ip.inum % ipb)) ≡ ip.itype
  itype_at h =
      short_at base ip.itype h (byte_at base 0 (omega arith) (omega arith))
        (byte_at (base + 1) 1 refl (omega arith))

  load-IsCopy :
      (c : Inode) → Fits ip → IsCopy ip (load_inode (iupdate sb d ip) c (iblock sb ip.inum) base)
  load-IsCopy c f = record {
    itype = itype_at f.itype;
    major =
        short_at (base + 2) ip.major f.major (byte_at (base + 2) 2 refl (omega arith))
          (byte_at (base + 2 + 1) 3 (omega arith) (omega arith));
    minor =
        short_at (base + 4) ip.minor f.minor (byte_at (base + 4) 4 refl (omega arith))
          (byte_at (base + 4 + 1) 5 (omega arith) (omega arith));
    nlink =
        short_at (base + 6) ip.nlink f.nlink (byte_at (base + 6) 6 refl (omega arith))
          (byte_at (base + 6 + 1) 7 (omega arith) (omega arith));
    size =
        long_at (base + 8) ip.size f.size (byte_at (base + 8) 8 refl (omega arith))
          (byte_at (base + 8 + 1) 9 (omega arith) (omega arith))
          (byte_at (base + 8 + 2) 10 (omega arith) (omega arith))
          (byte_at (base + 8 + 3) 11 (omega arith) (omega arith));
    addrs = λ k l.
        let in_range : leb k ndirect ≡ true = ground (arith, l) in
        rw in_range (
          long_at (base + 12 + 4 * k) (ip.addrs k) (f.addrs k l)
            (addr_at k 0 (base + 12 + 4 * k) l (omega arith) (omega arith))
            (addr_at k 1 (base + 12 + 4 * k + 1) l (omega arith) (omega arith))
            (addr_at k 2 (base + 12 + 4 * k + 2) l (omega arith) (omega arith))
            (addr_at k 3 (base + 12 + 4 * k + 3) l (omega arith) (omega arith)));
  }

  -- After `iupdate` of an allocated inode whose fields have their widths, `ilock` of a fresh cache entry
  -- for the same number gets every field back.
  pub ilock-iupdate :
      (c : Inode)
      → Fits ip
      → ip.itype ≢ 0
      → c.inum ≡ ip.inum
      → 0 < c.ref
      → c.valid ≡ 0
      → (got : Inode) × (ilock sb (iupdate sb d ip) c ≡ ok got) × IsCopy ip got
  unfolding ilock
  ilock-iupdate c f typed same held fresh =
      let copy : IsCopy ip (load_inode (iupdate sb d ip) c (iblock sb ip.inum) base) =
        load-IsCopy c f in
      let referred : ltb c.ref 1 ≡ false = ground (arith, held) in
      let allocated : short (iupdate sb d ip) (iblock sb ip.inum) base == 0 ≡ false =
        ground (arith, typed, copy.itype) in
      (
        load_inode (iupdate sb d ip) c (iblock sb ip.inum) base,
        rw (same, referred, fresh, allocated) refl,
        copy,
      )

  -- `iupdate` leaves the bytes of the other inodes as they were.
  pub iupdate_other :
      (o r : ℕ)
      → o ≢ ip.inum
      → r < 64
      → iupdate sb d ip (iblock sb o) (64 * (o % ipb) + r) ≡ d (iblock sb o) (64 * (o % ipb) + r)
  unfolding iupdate
  iupdate_other o r ne h = elim (Bool-cases (iblock sb o == iblock sb ip.inum)) [
    | inr other ↦ rw other refl
    | inl block ↦
        let slot : (64 * (o % ipb) + r) / 64 == ip.inum % ipb ≡ false =
          (let q : (64 * (o % ipb) + r) / 64 ≡ o % ipb = omega (arith, h) in
            let blocks : iblock sb o ≡ iblock sb ip.inum = ground (arith, block) in
            let apart : o % ipb ≢ ip.inum % ipb = λ e. ne (omega (arith, blocks, e)) in
            ground (arith, q, apart)) in
        rw (block, slot) refl
  ]

-- `iupdate` stays in front of the bitmap.
pub iupdate_behind :
    (sb : SuperBlock) (d : Disk) (ip : Inode) (c j : ℕ)
    → IsLaidOut sb
    → ip.inum < sb.ninodes
    → sb.bmapstart ≤ c
    → iupdate sb d ip c j ≡ d c j
unfolding iupdate
iupdate_behind sb d ip c j l known h =
    let apart : c == iblock sb ip.inum ≡ false = ground (arith, l.inodes, known, h) in rw apart refl

pub used-iupdate :
    (sb : SuperBlock) (d : Disk) (ip : Inode) (v : ℕ)
    → IsLaidOut sb
    → ip.inum < sb.ninodes
    → v < sb.size
    → used sb (iupdate sb d ip) v ≡ used sb d v
unfolding used
used-iupdate sb d ip v l known h =
    ap (λ x. Bits.bit (v % bpb % 8) x)
      (iupdate_behind sb d ip (bblock sb v) (v % bpb / 8) l known (omega arith))
