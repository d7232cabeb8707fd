-- ===== src/Fs/Data/RoundTrip.antt =====
-- The whole of `writei`, and `readi` after it.
use osassignment.Prelude.{
  ℕ, ◌+◌, ◌-◌, ◌*◌, ◌/◌, ◌%◌, ◌^◌, ◌≤◌, ◌<◌, ◌≡◌, ◌≢◌, refl, sym, ap, ◌∙◌, inl, inr, true, false,
  ◌||◌, ◌&&◌, none, some, ltb, leb, ◌==◌, if◌then◌else◌, ok, Bool-cases, arith, ◌⊎◌,
}
use osassignment.Fs.{SuperBlock, bsize}
use osassignment.Fs.Blocks.Layout.{IsLaidOut, free_blocks}
use osassignment.Fs.Inode.{Inode, FileState, t_dev, max_file}
use osassignment.Fs.Inode.Slots.{places, slot, index, content, IsTaken, IsFile, IsForeign}
use osassignment.Fs.Data.{Buffer, Device, set_size, write_loop, writei}
use osassignment.Fs.Data.Read.{IsFull}
use osassignment.Fs.Data.Write.{Wrote}
use osassignment.Fs.Data.Size.{Sized, set_size-Sized, Sized-content}
use osassignment.Fs.Data.Written.{touched, write_loop-Wrote}

-- A file after a write of `n` bytes at `off`.
pub record Written (sb : SuperBlock) (s : FileState) (src : Buffer) (off n : ℕ) (s' : FileState)
    : Type 0 where
  pub file : IsFile sb s'
  pub full : IsFull s'
  pub content_eq :
      (o : ℕ)
      → o < max_file * bsize
      → content s' o ≡ (if leb off o && ltb o (off + n) then src (o - off) else content s o)
  pub size_eq : s'.ip.size ≡ (if ltb s.ip.size (off + n) then off + n else s.ip.size)
  pub itype_eq : s'.ip.itype ≡ s.ip.itype
  pub inum_eq : s'.ip.inum ≡ s.ip.inum
  pub foreign :
      (c j : ℕ)
      → IsTaken sb s.disk c
      → IsForeign s c
      → (s'.disk c j ≡ s.disk c j) × IsTaken sb s'.disk c × IsForeign s' c
  pub free_le : free_blocks sb s.disk ≤ free_blocks sb s'.disk + 2 * touched off n

module _ (sb : SuperBlock) (l : IsLaidOut sb) where
  Wrote-Written :
      (s t u : FileState) (src : Buffer) (off n : ℕ)
      → IsFull s
      → off ≤ s.ip.size
      → off + n ≤ max_file * bsize
      → Wrote sb (2 * touched off n) s src off n t
      → Sized sb t (if ltb 0 n && ltb t.ip.size (off + n) then off + n else t.ip.size) u
      → Written sb s src off n u
  Wrote-Written s t u src off n full low room w z =
      let same : t.ip.size ≡ s.ip.size = ap (λ (i : Inode). i.size) w.ip_eq in
      let size : u.ip.size ≡ (if ltb s.ip.size (off + n) then off + n else s.ip.size) =
        ground (arith, z.size_eq, same, low) in
      let old = full.bounded in
      record {
        file = z.file;
        full = record {
          bounded = ground (arith, size, old, room);
          there = λ o h e.
              (let gone : slot t (index (o / bsize)) ≡ 0 =
                  sym (z.slot_eq (index (o / bsize))) ∙ e in
                elim (Bool-cases (ltb o s.ip.size)) [
                  | inl before ↦
                      let lt : o < s.ip.size = ground (arith, before) in
                      let was = full.there o lt in
                      let place : index (o / bsize) < places = ground (arith, lt, old) in
                      was (sym (w.slot_kept (index (o / bsize)) place was) ∙ gone)
                  | inr after ↦
                      w.slot_there o (ground (arith, after, low)) (ground (arith, size, after, h))
                        gone
                ]);
        };
        content_eq = λ o h. Sized-content sb l t u _ o w.file z h ∙ w.content_eq o h;
        size_eq = size;
        itype_eq = z.itype_eq ∙ ap (λ (i : Inode). i.itype) w.ip_eq;
        inum_eq = z.inum_eq ∙ ap (λ (i : Inode). i.inum) w.ip_eq;
        foreign = λ c j taken foreign.
            (let (x, y, v) = w.foreign c j taken foreign in
              (z.kept c j taken.in_data ∙ x, z.taken c y, λ k h e. v k h (sym (z.slot_eq k) ∙ e)));
        free_le = omega (arith, w.free_le, z.free_eq);
      }

  -- `writei` to a file with all its blocks, on a disk with two free blocks for each block the range
  -- touches, always returns. A range that starts behind the end of the file or ends behind the largest
  -- file is refused with -1 and nothing changes; any other write changes exactly the bytes of its range,
  -- the size is the old one or the end of the range, and no block of another file is touched.
  pub writei-Written :
      (devsw : ℕ → Device) (s : FileState) (src : Buffer) (off n : ℕ)
      → IsFile sb s
      → IsFull s
      → s.ip.inum < sb.ninodes
      → s.ip.itype ≢ t_dev
      → off < 2 ^ 32
      → n < 2 ^ 32
      → 2 * touched off n ≤ free_blocks sb s.disk
      → ((leb off s.ip.size && leb (off + n) (max_file * bsize) ≡ false)
          × (writei sb devsw s src off n ≡ ok (none, s)))
        ⊎ ((leb off s.ip.size && leb (off + n) (max_file * bsize) ≡ true)
            × (s' : FileState) × (writei sb devsw s src off n ≡ ok (some n, s'))
            × Written sb s src off n s')
  unfolding writei
  writei-Written devsw s src off n f full known file ho hn free =
      let not_dev : s.ip.itype == t_dev ≡ false = ground (arith, file) in
      elim (Bool-cases (leb off s.ip.size && leb (off + n) (max_file * bsize))) [
        | inr bad ↦ inl (bad, refused devsw s src off n not_dev ho hn bad)
        | inl good ↦
            let low : off ≤ s.ip.size = ground (arith, good) in
            let room : off + n ≤ max_file * bsize = ground (arith, good) in
            let first : ltb s.ip.size off || ltb ((off + n) % 2 ^ 32) off ≡ false =
              ground (arith, low, room) in
            let second : ltb (max_file * bsize) ((off + n) % 2 ^ 32) ≡ false =
              ground (arith, room) in
            let (t, e, w) = write_loop-Wrote sb n l s src off n (omega arith) f room free in
            let inum : t.ip.inum ≡ s.ip.inum = ap (λ (i : Inode). i.inum) w.ip_eq in
            let z = set_size-Sized sb l t (off + n) n w.file (omega (arith, inum, known)) in
            inr (
              good,
              set_size sb t (off + n) n,
              accepted devsw s src off n t not_dev first second e,
              Wrote-Written s t (set_size sb t (off + n) n) src off n full low room w z,
            )
      ]
    where
      refused :
          (devsw : ℕ → Device) (s : FileState) (src : Buffer) (off n : ℕ)
          → (s.ip.itype == t_dev) ≡ false
          → off < 2 ^ 32
          → n < 2 ^ 32
          → leb off s.ip.size && leb (off + n) (max_file * bsize) ≡ false
          → writei sb devsw s src off n ≡ ok (none, s)
      refused devsw s src off n not_dev ho hn bad =
          elim (Bool-cases (ltb s.ip.size off || ltb ((off + n) % 2 ^ 32) off)) [
            | inl first ↦ rw (not_dev, first) refl
            | inr passes ↦
                let second : ltb (max_file * bsize) ((off + n) % 2 ^ 32) ≡ true =
                  ground (arith, bad, passes, ho, hn) in
                rw (not_dev, passes, second) refl
          ]

      accepted :
          (devsw : ℕ → Device) (s : FileState) (src : Buffer) (off n : ℕ) (t : FileState)
          → (s.ip.itype == t_dev) ≡ false
          → ltb s.ip.size off || ltb ((off + n) % 2 ^ 32) off ≡ false
          → ltb (max_file * bsize) ((off + n) % 2 ^ 32) ≡ false
          → write_loop n sb s src off n ≡ ok t
          → writei sb devsw s src off n ≡ ok (some n, set_size sb t (off + n) n)
      accepted devsw s src off n t not_dev first second e = rw (not_dev, first, second, e) refl
