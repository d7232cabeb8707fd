-- ===== src/Fs/Io/Chunks.antt =====
-- `filewrite` writes in pieces what `writei` would write at once.
use osassignment.Prelude.{
  ℕ, zero, suc, ◌+◌, ◌-◌, ◌*◌, ◌≤◌, ◌<◌, ◌≡◌, ◌≢◌, refl, sym, ◌∙◌, inl, inr, true, false, ◌&&◌,
  some, ltb, leb, ◌==◌, if◌then◌else◌, ok, Bool-cases, arith,
}
use mathlib.Core.Path.{subst}
use osassignment.Fs.{SuperBlock, bsize}
use osassignment.Fs.Blocks.Layout.{IsLaidOut, free_blocks}
use osassignment.Fs.Inode.{FileState, t_dev, max_file}
use osassignment.Fs.Inode.Slots.{content, IsFile}
use osassignment.Fs.Data.{Buffer, Device, writei}
use osassignment.Fs.Data.Read.{IsFull}
use osassignment.Fs.Data.Written.{touched}
use osassignment.Fs.Data.RoundTrip.{Written, writei-Written}
use osassignment.Fs.Io.{cut, filewrite_loop}

-- A file that can be read and written.
pub record IsOpen (sb : SuperBlock) (s : FileState) : Type 0 where
  pub file : IsFile sb s
  pub full : IsFull s
  pub known : s.ip.inum < sb.ninodes
  pub not_dev : s.ip.itype ≢ t_dev

-- A file where `n` bytes from `off` on are those of `src`.
pub record Stored (sb : SuperBlock) (s : FileState) (src : Buffer) (off n : ℕ) (s' : FileState)
    : Type 0 where
  pub still_open : IsOpen sb s'
  pub content_eq :
      (o : ℕ)
      → o < max_file * bsize
      → content s' o ≡ (if leb off o && ltb o (off + n) then src (o - off) else content s o)
  pub size_eq : s'.ip.size ≡ (if ltb s.ip.size (off + n) then off + n else s.ip.size)

-- The free blocks that are enough: two for each block that a piece touches.
abbrev pub cost : ℕ → ℕ → ℕ → ℕ
cost zero off n = 0
cost (suc fuel) off n =
    if n == 0 then 0 else 2 * touched off (cut n) + cost fuel (off + cut n) (n - cut n)

module _ (sb : SuperBlock) where
  Stored-none :
      (s : FileState) (src : Buffer) (off : ℕ)
      → IsOpen sb s
      → off ≤ s.ip.size
      → Stored sb s src off 0 s
  Stored-none s src off f h = record {
    still_open = f;
    content_eq =
        λ o lt. (let out : leb off o && ltb o (off + 0) ≡ false = ground arith in rw out refl);
    size_eq = ground (arith, h);
  }

  Stored-append :
      (off m n : ℕ) (s t u : FileState) (src : Buffer)
      → off ≤ s.ip.size
      → Written sb s src off m t
      → Stored sb t (λ i. src (i + m)) (off + m) n u
      → Stored sb s src off (m + n) u
  Stored-append off m n s t u src low v w = record {
    still_open = w.still_open;
    content_eq = λ o h.
        (let new = w.content_eq o h in
          let old = v.content_eq o h in
          elim (Bool-cases (leb (off + m) o && ltb o (off + m + n))) [
            | inl late ↦
                let all : leb off o && ltb o (off + (m + n)) ≡ true = ground (arith, late) in
                let place : o - (off + m) + m ≡ o - off = ground (arith, late) in
                rw all (new ∙ rw (late, place) refl)
            | inr early ↦ elim (Bool-cases (leb off o && ltb o (off + m))) [
              | inl first ↦
                  let all : leb off o && ltb o (off + (m + n)) ≡ true = ground (arith, first) in
                  rw all (new ∙ rw early (old ∙ rw first refl))
              | inr out ↦
                  let all : leb off o && ltb o (off + (m + n)) ≡ false =
                    ground (arith, early, out) in
                  rw all (new ∙ rw early (old ∙ rw out refl))
            ]
          ]);
    size_eq = ground (arith, v.size_eq, w.size_eq, low);
  }

  filewrite_loop_next :
      (fuel : ℕ) (devsw : ℕ → Device) (s t u : FileState) (src : Buffer) (off n : ℕ)
      → (n == 0) ≡ false
      → writei sb devsw s src off (cut n) ≡ ok (some (cut n), t)
      → filewrite_loop fuel sb devsw t (λ i. src (i + cut n)) (off + cut n) (n - cut n)
        ≡ ok (true, off + n, u)
      → filewrite_loop (suc fuel) sb devsw s src off n ≡ ok (true, off + n, u)
  unfolding filewrite_loop
  filewrite_loop_next fuel devsw s t u src off n more e rest =
      let same : cut n == cut n ≡ true = ground arith in ground (arith, more, e, same, rest)

  pub filewrite_loop-Stored :
      (fuel : ℕ) (l : IsLaidOut sb) (devsw : ℕ → Device) (s : FileState) (src : Buffer) (off n : ℕ)
      → n ≤ fuel
      → IsOpen sb s
      → off ≤ s.ip.size
      → off + n ≤ max_file * bsize
      → cost fuel off n ≤ free_blocks sb s.disk
      → (s' : FileState) × (filewrite_loop fuel sb devsw s src off n ≡ ok (true, off + n, s'))
        × Stored sb s src off n s'
  unfolding filewrite_loop
  filewrite_loop-Stored zero l devsw s src off n h f low room free =
      let z : n ≡ 0 = omega (arith, h) in
      let end : off + 0 ≡ off = omega arith in rw (z, end) (s, refl, Stored-none s src off f low)
  filewrite_loop-Stored (suc fuel) l devsw s src off n h f low room free =
      elim (Bool-cases (n == 0)) [
        | inl done ↦
            let z : n ≡ 0 = ground (arith, done) in
            let end : off + 0 ≡ off = omega arith in
            rw (z, end) (s, refl, Stored-none s src off f low)
        | inr more ↦
            let some_bytes : 0 < n = ground (arith, more) in
            let some_cut : 0 < cut n = ground (arith, some_bytes) in
            let within : cut n ≤ n = ground arith in
            let price : 2 * touched off (cut n) + cost fuel (off + cut n) (n - cut n)
                ≤ free_blocks sb s.disk =
              subst
                (λ b.
                  (if b then 0 else 2 * touched off (cut n) + cost fuel (off + cut n) (n - cut n))
                  ≤ free_blocks sb s.disk)
                more free in
            elim (writei-Written sb l devsw s src off (cut n) f.file f.full f.known f.not_dev
              (omega (arith, room)) (omega (arith, room, within)) (omega (arith, price))) [
                | inl (bad, e) ↦ absurd (ground (arith, bad, low, room, within))
                | inr (good, t, e, w) ↦
                    let t_open : IsOpen sb t = record {
                      file = w.file;
                      full = w.full;
                      known = omega (arith, w.inum_eq, f.known);
                      not_dev = λ z. f.not_dev (sym w.itype_eq ∙ z);
                    } in
                    let size = w.size_eq in
                    let (u, e', st) =
                      filewrite_loop-Stored fuel l devsw t (λ i. src (i + cut n)) (off + cut n)
                        (n - cut n) (omega (arith, some_cut, h)) t_open (ground (arith, size, low))
                        (omega (arith, within, room)) (omega (arith, price, w.free_le)) in
                    let total : cut n + (n - cut n) ≡ n = omega (arith, within) in
                    let end : off + cut n + (n - cut n) ≡ off + n = omega (arith, within) in
                    (
                      u,
                      filewrite_loop_next fuel devsw s t u src off n more e (
                          subst
                            (λ (x : ℕ).
                              filewrite_loop fuel sb devsw t (λ i. src (i + cut n)) (off + cut n)
                                (n - cut n)
                              ≡ ok (true, x, u))
                            end e'),
                      subst (λ (x : ℕ). Stored sb s src off x u) total
                          (Stored-append off (cut n) (n - cut n) s t u src low w st),
                    )
              ]
      ]
