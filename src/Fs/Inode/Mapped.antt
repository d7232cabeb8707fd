-- ===== src/Fs/Inode/Mapped.antt =====
-- What `bmap` promises of every block number a file can have.
use osassignment.Prelude.{
  ℕ, ◌+◌, ◌-◌, ◌≤◌, ◌<◌, ◌≡◌, ◌≢◌, refl, sym, ◌∙◌, inl, inr, true, false, ltb, leb, ◌==◌, ok,
  Bool-cases, arith,
}
use mathlib.Core.Path.{subst}
use osassignment.Fs.{SuperBlock}
use osassignment.Fs.Blocks.Layout.{IsLaidOut, free_blocks, balloc-Taken}
use osassignment.Fs.Inode.{
  FileState, word, put_word, set_addr, ndirect, nindirect, max_file, map_addr, map_entry, bmap,
}
use osassignment.Fs.Inode.Slots.{
  slot, index, IsFile, Extends, Extends-refl, Extends-trans, IsGrown-Extends,
}
use osassignment.Fs.Inode.Map.{addr-IsGrown, entry-IsGrown}

-- Place `k` has block `a`, and the file has grown by at most `most` blocks.
pub record Mapped (sb : SuperBlock) (most : ℕ) (s : FileState) (k a : ℕ) (s' : FileState)
    : Type 0 where
  pub new : ℕ
  pub few : new ≤ most
  pub grown : Extends sb new s s'
  pub here : slot s' k ≡ a
  pub there : a ≢ 0

module _ (sb : SuperBlock) (l : IsLaidOut sb) where
  module _ (s : FileState) (f : IsFile sb s) (room : 0 < free_blocks sb s.disk) where
    map_addr-Mapped :
        (k : ℕ)
        → k ≤ ndirect
        → (a : ℕ) × (s' : FileState) × (map_addr sb s k ≡ ok (a, s')) × Mapped sb 1 s k a s'
    unfolding map_addr
    map_addr-Mapped k h =
        let low : leb k ndirect ≡ true = ground (arith, h) in
        elim (Bool-cases (s.ip.addrs k == 0)) [
          | inr old ↦ (
            s.ip.addrs k,
            s,
            rw old refl,
            record {
              new = 0;
              few = omega arith;
              grown = Extends-refl sb s f;
              here = rw low refl;
              there = ground (arith, old);
            },
          )
          | inl none_there ↦
              let (a, d, found, t) = balloc-Taken sb s.disk l f.reserved room in
              let z : s.ip.addrs k ≡ 0 = ground (arith, none_there) in
              let g = addr-IsGrown sb l s f a d t k h z in
              let self : k == k ≡ true = ground arith in
              (
                a,
                record { disk = d; ip = set_addr s.ip k a },
                rw (none_there, found) refl,
                record {
                  new = 1;
                  few = omega arith;
                  grown =
                      IsGrown-Extends sb s (record { disk = d; ip = set_addr s.ip k a }) k a l.boot
                        (omega (arith, h)) f g;
                  here = rw (low, self) refl;
                  there = λ e. omega (arith, l.boot, t.in_data, e);
                },
              )
        ]

    map_entry-Mapped :
        (j : ℕ)
        → j < nindirect
        → s.ip.addrs ndirect ≢ 0
        → (a : ℕ) × (s' : FileState) × (map_entry sb s (s.ip.addrs ndirect) j ≡ ok (a, s'))
          × Mapped sb 1 s (13 + j) a s'
    unfolding map_entry
    map_entry-Mapped j lt table =
        let high : leb (13 + j) ndirect ≡ false = ground arith in
        let is_table : s.ip.addrs ndirect == 0 ≡ false = ground (arith, table) in
        let e : 13 + j - 13 ≡ j = omega arith in
        elim (Bool-cases (word s.disk (s.ip.addrs ndirect) j == 0)) [
          | inr old ↦ (
            word s.disk (s.ip.addrs ndirect) j,
            s,
            rw old refl,
            record {
              new = 0;
              few = omega arith;
              grown = Extends-refl sb s f;
              here = rw (high, is_table, e) refl;
              there = ground (arith, old);
            },
          )
          | inl none_there ↦
              let (a, d, found, t) = balloc-Taken sb s.disk l f.reserved room in
              let z : word s.disk (s.ip.addrs ndirect) j ≡ 0 = ground (arith, none_there) in
              let g = entry-IsGrown sb l s f a d t j lt table z in
              let s' : FileState = record s { disk = put_word d (s.ip.addrs ndirect) j a } in
              let self : 13 + j == 13 + j ≡ true = ground arith in
              (
                a,
                s',
                rw (none_there, found) refl,
                record {
                  new = 1;
                  few = omega arith;
                  grown = IsGrown-Extends sb s s' (13 + j) a l.boot (omega (arith, lt)) f g;
                  here = g.slot_eq (13 + j) (omega (arith, lt)) ∙ rw self refl;
                  there = λ q. omega (arith, l.boot, t.in_data, q);
                },
              )
        ]

  -- With two free blocks on the disk, `bmap` returns for every block number below MAXFILE: the block of
  -- that number, taken now if the file had none, and no byte of this file or of another one changes.
  pub bmap-Mapped :
      (s : FileState) (bn : ℕ)
      → IsFile sb s
      → 2 ≤ free_blocks sb s.disk
      → bn < max_file
      → (a : ℕ) × (s' : FileState) × (bmap sb s bn ≡ ok (a, s')) × Mapped sb 2 s (index bn) a s'
  unfolding bmap
  bmap-Mapped s bn f room h = elim (Bool-cases (ltb bn ndirect)) [
    | inl direct ↦
        let (a, s', e, m) = map_addr-Mapped s f (omega (arith, room)) bn (ground (arith, direct)) in
        (
          a,
          s',
          rw direct e,
          rw direct (record {
            new = m.new;
            few = omega (arith, m.few);
            grown = m.grown;
            here = m.here;
            there = m.there;
          }),
        )
    | inr far ↦
        let in_table : ltb (bn - ndirect) nindirect ≡ true = ground (arith, h) in
        let (x, t, e, m) = map_addr-Mapped s f (omega (arith, room)) ndirect (omega arith) in
        let left : 0 < free_blocks sb t.disk = omega (arith, room, m.few, m.grown.free_eq) in
        let table : t.ip.addrs ndirect ≢ 0 = λ z. m.there (sym m.here ∙ z) in
        let (a, s', e', m') =
          map_entry-Mapped t m.grown.file left (bn - ndirect) (ground (arith, h)) table in
        let place : 13 + (bn - ndirect) ≡ bn + 1 = ground (arith, far) in
        (
          a,
          s',
          rw (far, in_table, e)
              (subst (λ (q : ℕ). map_entry sb t q (bn - ndirect) ≡ ok (a, s')) m.here e'),
          rw far (record {
            new = m.new + m'.new;
            few = omega (arith, m.few, m'.few);
            grown = Extends-trans sb m.new m'.new s t s' m.grown m'.grown;
            here = rw (← place) m'.here;
            there = m'.there;
          }),
        )
  ]

module _ (sb : SuperBlock) where
  -- Where the file has the block, `bmap` only looks it up.
  pub bmap_there :
      (s : FileState) (bn : ℕ)
      → bn < max_file
      → slot s (index bn) ≢ 0
      → bmap sb s bn ≡ ok (slot s (index bn), s)
  unfolding bmap map_addr map_entry
  bmap_there s bn h there = elim (Bool-cases (ltb bn ndirect)) [
    | inl direct ↦
        let low : leb bn ndirect ≡ true = ground (arith, direct) in
        ground (arith, direct, low, there)
    | inr far ↦
        let in_table : ltb (bn - ndirect) nindirect ≡ true = ground (arith, h) in
        let high : leb (bn + 1) ndirect ≡ false = ground (arith, far) in
        let place : bn + 1 - 13 ≡ bn - ndirect = omega arith in
        ground (arith, far, in_table, high, place, there)
  ]
