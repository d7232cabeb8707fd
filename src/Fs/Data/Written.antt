-- ===== src/Fs/Data/Written.antt =====
-- What `writei` does, and that `readi` reads it back.
use osassignment.Prelude.{
  ℕ, zero, suc, ◌+◌, ◌-◌, ◌*◌, ◌/◌, ◌%◌, ◌≤◌, ◌<◌, ◌≡◌, ◌≢◌, refl, sym, ap, ◌∙◌, inl, inr, true,
  false, ◌&&◌, ltb, leb, ◌==◌, if◌then◌else◌, ok, Bool-cases, arith,
}
use mathlib.Core.Path.{subst}
use osassignment.Fs.{SuperBlock, bsize}
use osassignment.Fs.Blocks.Layout.{IsLaidOut, free_blocks}
use osassignment.Fs.Inode.{Inode, FileState, max_file, bmap}
use osassignment.Fs.Inode.Slots.{places, slot, index, content, IsFile, Extends}
use osassignment.Fs.Inode.Mapped.{bmap-Mapped}
use osassignment.Fs.Data.{Buffer, put_bytes, chunk, write_loop}
use osassignment.Fs.Data.Write.{Wrote, put-Wrote}

-- How many blocks a range of bytes touches.
abbrev pub touched : ℕ → ℕ → ℕ
touched off n = if n == 0 then 0 else (off + n - 1) / bsize + 1 - off / bsize

module _ (sb : SuperBlock) where
  Wrote-none : (s : FileState) (src : Buffer) (off : ℕ) → IsFile sb s → Wrote sb 0 s src off 0 s
  Wrote-none s src off f = record {
    file = f;
    content_eq =
        λ o h. (let out : leb off o && ltb o (off + 0) ≡ false = ground arith in rw out refl);
    slot_kept = λ k h ne. refl;
    slot_there = λ o low high. absurd (omega (arith, low, high));
    foreign = λ c j t h. (refl, t, h);
    ip_eq = refl;
    free_le = omega arith;
  }

  Extends-Wrote :
      (j k off n : ℕ) (s t u : FileState) (src : Buffer)
      → Extends sb j s t
      → Wrote sb k t src off n u
      → Wrote sb (j + k) s src off n u
  Extends-Wrote j k off n s t u src e w = record {
    file = w.file;
    content_eq = λ o h.
        (let place : index (o / bsize) < places = ground (arith, h) in
          let old = e.content_eq o place in
          subst
            (λ (x : ℕ). content u o ≡ (if leb off o && ltb o (off + n) then src (o - off) else x))
            old (w.content_eq o h));
    slot_kept = λ p h ne.
        (let first = e.slot_kept p h ne in w.slot_kept p h (λ z. ne (sym first ∙ z)) ∙ first);
    slot_there = w.slot_there;
    foreign = λ c i taken foreign.
        (let (x, y, z) = e.foreign c i taken foreign in
          let (x', y', z') = w.foreign c i y z in (x' ∙ x, y', z'));
    ip_eq = w.ip_eq ∙ ap (λ (i : Inode). record i { addrs = u.ip.addrs }) e.ip_eq;
    free_le = omega (arith, e.free_eq, w.free_le);
  }

  Wrote-append :
      (j k off m n : ℕ) (s t u : FileState) (src : Buffer)
      → off + (m + n) ≤ max_file * bsize
      → Wrote sb j s src off m t
      → Wrote sb k t (λ i. src (i + m)) (off + m) n u
      → Wrote sb (j + k) s src off (m + n) u
  Wrote-append j k off m n s t u src room v w = record {
    file = w.file;
    content_eq = λ o h.
        (let new = w.content_eq o h in
          let old = v.content_eq o h in
          elim (Bool-cases (leb (off + m) o && ltb o (off + m + n))) [
            | inl late ↦
                let all : leb off o && ltb o (off + (m + n)) ≡ true = ground (arith, late) in
                let at : o - (off + m) + m ≡ o - off = ground (arith, late) in
                rw all (new ∙ rw (late, at) refl)
            | inr early ↦ elim (Bool-cases (leb off o && ltb o (off + m))) [
              | inl first ↦
                  let all : leb off o && ltb o (off + (m + n)) ≡ true = ground (arith, first) in
                  rw all (new ∙ rw early (old ∙ rw first refl))
              | inr out ↦
                  let all : leb off o && ltb o (off + (m + n)) ≡ false =
                    ground (arith, early, out) in
                  rw all (new ∙ rw early (old ∙ rw out refl))
            ]
          ]);
    slot_kept = λ p h ne.
        (let first = v.slot_kept p h ne in w.slot_kept p h (λ z. ne (sym first ∙ z)) ∙ first);
    slot_there = λ o low high. elim (Bool-cases (ltb o (off + m))) [
      | inl early ↦
          let there = v.slot_there o low (ground (arith, early)) in
          let place : index (o / bsize) < places = ground (arith, high, room) in
          λ z. there (sym (w.slot_kept (index (o / bsize)) place there) ∙ z)
      | inr late ↦ w.slot_there o (ground (arith, late)) (omega (arith, high))
    ];
    foreign = λ c i taken foreign.
        (let (x, y, z) = v.foreign c i taken foreign in
          let (x', y', z') = w.foreign c i y z in (x' ∙ x, y', z'));
    ip_eq = w.ip_eq ∙ ap (λ (i : Inode). record i { addrs = u.ip.addrs }) v.ip_eq;
    free_le = omega (arith, v.free_le, w.free_le);
  }

  Wrote-mono :
      (j k off n : ℕ) (s t : FileState) (src : Buffer)
      → j ≤ k
      → Wrote sb j s src off n t
      → Wrote sb k s src off n t
  Wrote-mono j k off n s t src le w = record {
    file = w.file;
    content_eq = w.content_eq;
    slot_kept = w.slot_kept;
    slot_there = w.slot_there;
    foreign = w.foreign;
    ip_eq = w.ip_eq;
    free_le = omega (arith, w.free_le, le);
  }

  -- A round: `bmap` and the copy of its bytes.
  pub round-Wrote :
      (l : IsLaidOut sb) (s : FileState) (src : Buffer) (off n : ℕ)
      → IsFile sb s
      → 0 < n
      → off + n ≤ max_file * bsize
      → 2 ≤ free_blocks sb s.disk
      → (a : ℕ) × (t : FileState) × (bmap sb s (off / bsize) ≡ ok (a, t))
        × Wrote sb 2 s src off
            (chunk off n)
            (record t { disk = put_bytes t.disk a (off % bsize) (chunk off n) src })
  round-Wrote l s src off n f some_bytes room free =
      let (a, t, e, m) =
        bmap-Mapped sb l s (off / bsize) f free (omega (arith, some_bytes, room)) in
      let there : slot t (index (off / bsize)) ≢ 0 = λ z. m.there (sym m.here ∙ z) in
      let within : off + chunk off n ≤ max_file * bsize = ground (arith, room) in
      let some_chunk : 0 < chunk off n = ground (arith, some_bytes) in
      let in_block : off % bsize + chunk off n ≤ bsize = ground arith in
      let w =
        put-Wrote sb l t m.grown.file src off (chunk off n) within some_chunk in_block there in
      let w' : Wrote sb 0 t src off (chunk off n)
          (record t { disk = put_bytes t.disk a (off % bsize) (chunk off n) src }) =
        subst
          (λ (x : ℕ).
            Wrote sb 0 t src off (chunk off n)
              (record t { disk = put_bytes t.disk x (off % bsize) (chunk off n) src }))
          m.here w in
      (
        a,
        t,
        e,
        Wrote-mono (m.new + 0) 2 off (chunk off n) s _ src (omega (arith, m.few))
            (Extends-Wrote m.new 0 off (chunk off n) s t _ src m.grown w'),
      )

  write_loop_next :
      (fuel : ℕ) (s : FileState) (src : Buffer) (off n a : ℕ) (t s' : FileState)
      → (n == 0) ≡ false
      → bmap sb s (off / bsize) ≡ ok (a, t)
      → write_loop fuel sb
          (record t { disk = put_bytes t.disk a (off % bsize) (chunk off n) src })
          (λ i. src (i + chunk off n))
          (off + chunk off n)
          (n - chunk off n)
        ≡ ok s'
      → write_loop (suc fuel) sb s src off n ≡ ok s'
  unfolding write_loop
  write_loop_next fuel s src off n a t s' more e e' = rw (write_loop, more, e) e'

  -- The loop ends, with two free blocks for each block that it touches.
  pub write_loop-Wrote :
      (fuel : ℕ) (l : IsLaidOut sb) (s : FileState) (src : Buffer) (off n : ℕ)
      → n ≤ fuel
      → IsFile sb s
      → off + n ≤ max_file * bsize
      → 2 * touched off n ≤ free_blocks sb s.disk
      → (s' : FileState) × (write_loop fuel sb s src off n ≡ ok s')
        × Wrote sb (2 * touched off n) s src off n s'
  unfolding write_loop
  write_loop-Wrote zero l s src off n h f room free =
      let z : n ≡ 0 = omega (arith, h) in (s, refl, rw z (Wrote-none s src off f))
  write_loop-Wrote (suc fuel) l s src off n h f room free = elim (Bool-cases (n == 0)) [
    | inl done ↦
        let z : n ≡ 0 = ground (arith, done) in
        (s, rw (write_loop, done) refl, rw z (Wrote-none s src off f))
    | inr more ↦
        let some_bytes : 0 < n = ground (arith, more) in
        let some_chunk : 0 < chunk off n = ground (arith, some_bytes) in
        let within : chunk off n ≤ n = ground arith in
        let fewer : touched (off + chunk off n) (n - chunk off n) + 1 ≡ touched off n =
          ground (arith, more) in
        let (a, t, e, w) =
          round-Wrote l s src off n f some_bytes room (omega (arith, free, fewer)) in
        let u : FileState = record t {
          disk = put_bytes t.disk a (off % bsize) (chunk off n) src;
        } in
        let left : 2 * touched (off + chunk off n) (n - chunk off n) ≤ free_blocks sb u.disk =
          omega (arith, w.free_le, free, fewer) in
        let (s', e', w') =
          write_loop-Wrote fuel l u (λ i. src (i + chunk off n)) (off + chunk off n)
            (n - chunk off n) (omega (arith, some_chunk, h)) w.file (omega (arith, within, room))
            left in
        let total : chunk off n + (n - chunk off n) ≡ n = omega (arith, within) in
        let blocks : 2 + 2 * touched (off + chunk off n) (n - chunk off n) ≡ 2 * touched off n =
          omega (arith, fewer) in
        let all =
          Wrote-append 2 (2 * touched (off + chunk off n) (n - chunk off n)) off (chunk off n)
            (n - chunk off n) s u s' src (omega (arith, room, total)) w w' in
        (
          s',
          write_loop_next fuel s src off n a t s' more e e',
          subst (λ (x : ℕ). Wrote sb x s src off n s') blocks
              (subst
                (λ (x : ℕ).
                  Wrote sb (2 + 2 * touched (off + chunk off n) (n - chunk off n)) s src off x s')
                total all),
        )
  ]
