-- ===== src/Fs/Inode/Emptied.antt =====
-- `itrunc` as a whole.
use osassignment.Prelude.{
  ℕ, ◌≤◌, ◌<◌, ◌≡◌, ◌≢◌, refl, ap, ◌∙◌, inl, inr, true, false, ltb, leb, ◌==◌, ok, Bool-cases,
  arith,
}
use osassignment.Fs.{SuperBlock, Disk, bfree}
use osassignment.Fs.Blocks.Bitmap.{used}
use osassignment.Fs.Blocks.Layout.{first_data, IsLaidOut}
use osassignment.Fs.Inode.{
  Inode, FileState, set_addr, ndirect, nindirect, free_direct, free_entries, free_indirect, itrunc,
  iupdate,
}
use osassignment.Fs.Inode.Slots.{places, slot, IsFile, IsForeign}
use osassignment.Fs.Inode.OnDisk.{iupdate_behind, used-iupdate}
use osassignment.Fs.Inode.Trunc.{HasBytes, with_place, Freeing, Freeing-same, Freeing-step}
use osassignment.Fs.Inode.Truncated.{
  first_places, and_entries, Directs, Directs-none, free_direct-Directs, free_entries-Freeing,
}

-- The empty file that `itrunc` leaves, and its old blocks back in the bitmap.
pub record Emptied (sb : SuperBlock) (s s' : FileState) : Type 0 where
  pub freed : (k : ℕ) → k < places → slot s k ≢ 0 → used sb s'.disk (slot s k) ≡ 0
  pub kept : (v : ℕ) → v < sb.size → IsForeign s v → used sb s'.disk v ≡ used sb s.disk v
  pub blocks : (c j : ℕ) → first_data sb ≤ c → s'.disk c j ≡ s.disk c j
  pub size_eq : s'.ip.size ≡ 0
  pub cleared : (k : ℕ) → k ≤ ndirect → s'.ip.addrs k ≡ 0
  pub inum_eq : s'.ip.inum ≡ s.ip.inum
  pub ref_eq : s'.ip.ref ≡ s.ip.ref

module _ (sb : SuperBlock) (s : FileState) (l : IsLaidOut sb) (f : IsFile sb s)
    (bytes : HasBytes sb s.disk) where
  -- After both loops.
  record Unmapped (t : FileState) : Type 0 where
    pub freeing : Freeing sb s (λ k. true) t.disk
    pub cleared : (k : ℕ) → k ≤ ndirect → t.ip.addrs k ≡ 0
    pub inum_eq : t.ip.inum ≡ s.ip.inum
    pub ref_eq : t.ip.ref ≡ s.ip.ref

  no_table : (k : ℕ) → s.ip.addrs ndirect ≡ 0 → ndirect ≤ k → slot s k ≡ 0
  no_table k z h = elim (Bool-cases (k == ndirect)) [
    | inl table ↦ let e : k ≡ ndirect = ground (arith, table) in rw e z
    | inr entry ↦
        let high : leb k ndirect ≡ false = ground (arith, entry, h) in
        let hole : s.ip.addrs ndirect == 0 ≡ true = ground (arith, z) in rw (high, hole) refl
  ]

  -- A file without an indirect block.
  Freeing-no_table :
      (d : Disk)
      → s.ip.addrs ndirect ≡ 0
      → Freeing sb s (first_places ndirect) d
      → Freeing sb s (λ k. true) d
  Freeing-no_table d z p = record {
    freed = λ k lt e ne. elim (Bool-cases (ltb k ndirect)) [
      | inl low ↦ p.freed k lt low ne
      | inr high ↦ absurd (ne (no_table k z (ground (arith, high))))
    ];
    kept = λ v out. p.kept v (λ k lt e. out k lt refl);
    blocks = p.blocks;
    smaller = p.smaller;
  }

  free_indirect-Unmapped :
      (t : FileState)
      → Directs sb s l f bytes ndirect t
      → (u : FileState) × (free_indirect sb t ≡ ok u) × Unmapped u
  unfolding free_indirect
  free_indirect-Unmapped t d =
      let table : t.ip.addrs ndirect ≡ s.ip.addrs ndirect = d.others ndirect (omega arith) in
      elim (Bool-cases (s.ip.addrs ndirect == 0)) [
        | inl hole ↦
            let z : s.ip.addrs ndirect ≡ 0 = ground (arith, hole) in
            (
              t,
              no_table_next t table hole,
              record {
                freeing = Freeing-no_table t.disk z d.freeing;
                cleared = λ k h. elim (Bool-cases (k == ndirect)) [
                  | inl last ↦ let e : k ≡ ndirect = ground (arith, last) in rw e (table ∙ z)
                  | inr other ↦ d.cleared k (ground (arith, other, h))
                ];
                inum_eq = d.inum_eq;
                ref_eq = d.ref_eq;
              },
            )
        | inr block ↦
            let ne : s.ip.addrs ndirect ≢ 0 = ground (arith, block) in
            let start : Freeing sb s (and_entries 0) t.disk =
              Freeing-same sb s (first_places ndirect) (and_entries 0) t.disk (λ k h. ground arith)
                d.freeing in
            let (d1, q, p) =
              free_entries-Freeing sb s l f bytes nindirect 0 t.disk (omega arith) ne start in
            let (d2, r, p') =
              Freeing-step sb s l f bytes (and_entries nindirect) d1 ndirect (omega arith) ne refl
                p in
            (
              record { disk = d2; ip = set_addr t.ip ndirect 0 },
              free_indirect_next t (s.ip.addrs ndirect) d1 d2 table block q r,
              record {
                freeing =
                    Freeing-same sb s (with_place (and_entries nindirect) ndirect) (λ k. true) d2
                      (λ k h. ground (arith, h)) p';
                cleared = λ k h. elim (Bool-cases (k == ndirect)) [
                  | inl last ↦ rw last refl
                  | inr other ↦ rw other (d.cleared k (ground (arith, other, h)))
                ];
                inum_eq = d.inum_eq;
                ref_eq = d.ref_eq;
              },
            )
      ]
    where
      no_table_next :
          (t : FileState)
          → t.ip.addrs ndirect ≡ s.ip.addrs ndirect
          → (s.ip.addrs ndirect == 0) ≡ true
          → free_indirect sb t ≡ ok t
      no_table_next t table hole = rw (table, hole) refl

      free_indirect_next :
          (t : FileState) (a : ℕ) (d1 d2 : Disk)
          → t.ip.addrs ndirect ≡ a
          → (a == 0) ≡ false
          → free_entries nindirect sb t.disk a 0 ≡ ok d1
          → bfree sb d1 a ≡ ok d2
          → free_indirect sb t ≡ ok (record { disk = d2; ip = set_addr t.ip ndirect 0 })
      free_indirect_next t a d1 d2 e block q r = rw (free_indirect, e, block, q, r) refl

  -- The end of `itrunc`, which puts the inode on the disk.
  iupdate-Emptied :
      (t : FileState) (ip : Inode)
      → Unmapped t
      → s.ip.inum < sb.ninodes
      → ip ≡ record t.ip { size = 0 }
      → Emptied sb s (record { disk = iupdate sb t.disk ip; ip = ip })
  iupdate-Emptied t ip u known e =
      let number : ip.inum < sb.ninodes =
        omega (arith, known, u.inum_eq, ap (λ (i : Inode). i.inum) e) in
      let same : (v : ℕ) → v < sb.size → used sb (iupdate sb t.disk ip) v ≡ used sb t.disk v =
        λ v h. used-iupdate sb t.disk ip v l number h in
      record {
        freed =
            λ k lt ne. same (slot s k) (f.taken k lt ne).in_range ∙ u.freeing.freed k lt refl ne;
        kept = λ v h out. same v h ∙ u.freeing.kept v (λ k lt q. out k lt);
        blocks = λ c j h.
            iupdate_behind sb t.disk ip c j l number (omega (arith, l.bitmap, h))
            ∙ u.freeing.blocks c j h;
        size_eq = ap (λ (i : Inode). i.size) e;
        cleared = λ k h. ap (λ (i : Inode). i.addrs k) e ∙ u.cleared k h;
        inum_eq = ap (λ (i : Inode). i.inum) e ∙ u.inum_eq;
        ref_eq = ap (λ (i : Inode). i.ref) e ∙ u.ref_eq;
      }

-- `itrunc` of a file whose blocks are in use never panics: it frees exactly the blocks of the file, the
-- indirect block and its entries included, keeps the bit of every other block and every data block, and
-- leaves an empty file. The bytes of the bitmap are taken to be bytes.
pub itrunc-Emptied :
    (sb : SuperBlock) (s : FileState)
    → IsLaidOut sb
    → IsFile sb s
    → HasBytes sb s.disk
    → s.ip.inum < sb.ninodes
    → (s' : FileState) × (itrunc sb s ≡ ok s') × Emptied sb s s'
unfolding itrunc
itrunc-Emptied sb s l f bytes known =
    let (t, q, d) =
      free_direct-Directs sb s l f bytes ndirect 0 s (omega arith) (Directs-none sb s l f bytes) in
    let (u, r, e) = free_indirect-Unmapped sb s l f bytes t d in
    (
      record { disk = iupdate sb u.disk (record u.ip { size = 0 }); ip = record u.ip { size = 0 } },
      itrunc_next sb s t u q r,
      iupdate-Emptied sb s l f bytes u (record u.ip { size = 0 }) e known refl,
    )
  where
    itrunc_next :
        (sb : SuperBlock) (s t u : FileState)
        → free_direct ndirect sb s 0 ≡ ok t
        → free_indirect sb t ≡ ok u
        → itrunc sb s
          ≡ ok (record {
            disk = iupdate sb u.disk (record u.ip { size = 0 });
            ip = record u.ip { size = 0 };
          })
    itrunc_next sb s t u q r = rw (itrunc, q, r) refl
