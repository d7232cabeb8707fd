-- ===== src/Fs/Data/Write.antt =====
-- What a round of `writei`, and the growth of the size, do to a file.
use osassignment.Prelude.{
  ℕ, zero, suc, ◌+◌, ◌-◌, ◌*◌, ◌/◌, ◌%◌, ◌≤◌, ◌<◌, ◌≡◌, ◌≢◌, refl, sym, ◌∙◌, inl, inr, true, false,
  ◌&&◌, ltb, leb, ◌==◌, if◌then◌else◌, Bool-cases, arith,
}
use mathlib.Core.Path.{subst}
use osassignment.Fs.{SuperBlock, Disk, bsize, bblock}
use osassignment.Fs.Blocks.Bitmap.{used}
use osassignment.Fs.Blocks.Layout.{IsLaidOut, free_blocks, count_free, bblock-lt}
use osassignment.Fs.Inode.{FileState, max_file, ndirect}
use osassignment.Fs.Inode.Slots.{places, slot, index, content, IsTaken, IsFile, IsForeign}
use osassignment.Fs.Inode.Map.{entry_kept}
use osassignment.Fs.Data.{Buffer, put_bytes}

-- A file where `n` bytes from `off` on are those of `src`, with at most `new` blocks more than before. No
-- block of another file is touched.
pub record Wrote (sb : SuperBlock) (new : ℕ) (s : FileState) (src : Buffer) (off n : ℕ)
    (s' : FileState) : Type 0 where
  pub file : IsFile sb s'
  pub content_eq :
      (o : ℕ)
      → o < max_file * bsize
      → content s' o ≡ (if leb off o && ltb o (off + n) then src (o - off) else content s o)
  pub slot_kept : (k : ℕ) → k < places → slot s k ≢ 0 → slot s' k ≡ slot s k
  pub slot_there : (o : ℕ) → off ≤ o → o < off + n → slot s' (index (o / bsize)) ≢ 0
  pub foreign :
      (c j : ℕ)
      → IsTaken sb s.disk c
      → IsForeign s c
      → (s'.disk c j ≡ s.disk c j) × IsTaken sb s'.disk c × IsForeign s' c
  pub ip_eq : s'.ip ≡ record s.ip { addrs = s'.ip.addrs }
  pub free_le : free_blocks sb s.disk ≤ free_blocks sb s'.disk + new

-- Another disk and size, with the same bitmap and the same indirect block.
module _ (sb : SuperBlock) (l : IsLaidOut sb) (s : FileState) (f : IsFile sb s) (d : Disk)
    (size : ℕ)
    (table : (j : ℕ)
      → s.ip.addrs ndirect ≢ 0
      → d (s.ip.addrs ndirect) j ≡ s.disk (s.ip.addrs ndirect) j)
    (same_used : (v : ℕ) → v < sb.size → used sb d v ≡ used sb s.disk v) where
  abbrev after : FileState
  after = record { disk = d; ip = record s.ip { size = size } }

  pub slot_same : (k : ℕ) → slot after k ≡ slot s k
  slot_same k = elim (Bool-cases (leb k ndirect)) [
    | inl low ↦ rw low refl
    | inr high ↦ rw high (entry_kept sb l s f d k table)
  ]

  pub IsTaken-same : (c : ℕ) → IsTaken sb s.disk c → IsTaken sb d c
  IsTaken-same c t = record {
    in_data = t.in_data;
    in_range = t.in_range;
    in_use = same_used c t.in_range ∙ t.in_use;
  }

  pub IsFile-same : IsFile sb after
  IsFile-same = record {
    reserved = λ v h. same_used v (omega (arith, h)) ∙ f.reserved v h;
    taken = λ k h ne.
        subst (λ (v : ℕ). IsTaken sb d v) (sym (slot_same k))
          (IsTaken-same (slot s k) (f.taken k h (λ z. ne (slot_same k ∙ z))));
    distinct = λ j k hj hk ne e.
        f.distinct j k hj hk (λ z. ne (slot_same j ∙ z)) (sym (slot_same j) ∙ (e ∙ slot_same k));
  }

  pub IsForeign-same : (c : ℕ) → IsForeign s c → IsForeign after c
  IsForeign-same c h k lt e = h k lt (sym (slot_same k) ∙ e)

  count_same : (n : ℕ) → n ≤ sb.size → count_free n sb d ≡ count_free n sb s.disk
  count_same zero h = refl
  count_same (suc n) h =
      omega (arith, same_used n (omega (arith, h)), count_same n (omega (arith, h)))

  pub free_same : free_blocks sb d ≡ free_blocks sb s.disk
  free_same = count_same sb.size (omega arith)

-- The bytes of a round, in the block of the file that `bmap` gave.
module _ (sb : SuperBlock) (l : IsLaidOut sb) (s : FileState) (f : IsFile sb s) (src : Buffer)
    (off m : ℕ) (room : off + m ≤ max_file * bsize) (some_bytes : 0 < m)
    (in_block : off % bsize + m ≤ bsize) (there : slot s (index (off / bsize)) ≢ 0) where
  abbrev a : ℕ
  a = slot s (index (off / bsize))

  abbrev d : Disk
  d = put_bytes s.disk a (off % bsize) m src

  place_lt : index (off / bsize) < places
  place_lt = ground (arith, room, some_bytes)

  a-IsTaken : IsTaken sb s.disk a
  a-IsTaken = f.taken (index (off / bsize)) place_lt there

  elsewhere : (c j : ℕ) → c ≢ a → d c j ≡ s.disk c j
  elsewhere c j ne = let other : c == a ≡ false = ground (arith, ne) in rw other refl

  put_table :
      (j : ℕ) → s.ip.addrs ndirect ≢ 0 → d (s.ip.addrs ndirect) j ≡ s.disk (s.ip.addrs ndirect) j
  put_table j ne = elsewhere (s.ip.addrs ndirect) j (λ e.
      (let k : ndirect ≡ index (off / bsize) =
          f.distinct ndirect (index (off / bsize)) (omega arith) place_lt ne e in
        absurd (ground (arith, k))))

  put_used : (v : ℕ) → v < sb.size → used sb d v ≡ used sb s.disk v
  unfolding used
  put_used v h =
      let low = bblock-lt sb v l h in
      let data_block = a-IsTaken.in_data in
      let lt : bblock sb v < a = omega (arith, low, data_block) in
      let apart : bblock sb v == a ≡ false = ground (arith, lt) in rw apart refl

  put_content :
      (o : ℕ)
      → o < max_file * bsize
      → content (record s { disk = d }) o
        ≡ (if leb off o && ltb o (off + m) then src (o - off) else content s o)
  put_content o h =
      let same = slot_same sb l s f d s.ip.size put_table put_used (index (o / bsize)) in
      elim (Bool-cases (o / bsize == off / bsize)) [
        | inl block ↦
            let e : o / bsize ≡ off / bsize = ground (arith, block) in
            let now : slot (record s { disk = d }) (index (o / bsize)) ≡ a = same ∙ rw e refl in
            let some_block : a == 0 ≡ false = ground (arith, there) in
            let self : a == a ≡ true = ground arith in
            elim (Bool-cases (leb off o && ltb o (off + m))) [
              | inl inside ↦
                  let range : leb (off % bsize) (o % bsize) && ltb (o % bsize) (off % bsize + m)
                      ≡ true =
                    ground (arith, inside, e) in
                  let shift : o % bsize - off % bsize ≡ o - off = ground (arith, inside, e) in
                  rw (now, some_block, self, range, shift, inside) refl
              | inr outside ↦
                  let range : leb (off % bsize) (o % bsize) && ltb (o % bsize) (off % bsize + m)
                      ≡ false =
                    ground (arith, outside, e) in
                  rw (now, some_block, self, range, outside, e, some_block) refl
            ]
        | inr other ↦
            let ne : o / bsize ≢ off / bsize = ground (arith, other) in
            let outside : leb off o && ltb o (off + m) ≡ false = ground (arith, ne, in_block) in
            elim (Bool-cases (slot s (index (o / bsize)) == 0)) [
              | inl hole ↦ rw (same, hole, outside) refl
              | inr block ↦
                  let apart : slot s (index (o / bsize)) ≢ a = λ q.
                    (let lt : index (o / bsize) < places = ground (arith, h) in
                      let k : index (o / bsize) ≡ index (off / bsize) =
                        f.distinct (index (o / bsize)) (index (off / bsize)) lt place_lt
                          (ground (arith, block)) q in
                      ne (ground (arith, k))) in
                  let kept = elsewhere (slot s (index (o / bsize))) (o % bsize) apart in
                  rw (same, block, outside) kept
            ]
      ]

  pub put-Wrote : Wrote sb 0 s src off m (record s { disk = d })
  put-Wrote = record {
    file = IsFile-same sb l s f d s.ip.size put_table put_used;
    content_eq = put_content;
    slot_kept = λ k h ne. slot_same sb l s f d s.ip.size put_table put_used k;
    slot_there = λ o low high z.
        (let e : o / bsize ≡ off / bsize = ground (arith, low, high, in_block) in
          there (
            rw (← e)
              (sym (slot_same sb l s f d s.ip.size put_table put_used (index (o / bsize))) ∙ z)));
    foreign = λ c j t h. (
      elsewhere c j (λ e. h (index (off / bsize)) place_lt (sym e)),
      IsTaken-same sb l s f d s.ip.size put_table put_used c t,
      IsForeign-same sb l s f d s.ip.size put_table put_used c h,
    );
    ip_eq = refl;
    free_le = (let e = free_same sb l s f d s.ip.size put_table put_used in omega (arith, e));
  }
