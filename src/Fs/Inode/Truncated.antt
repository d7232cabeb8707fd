-- ===== src/Fs/Inode/Truncated.antt =====
-- The loops of `itrunc`.
use osassignment.Prelude.{
  ℕ, zero, suc, ◌+◌, ◌-◌, ◌*◌, ◌≤◌, ◌<◌, ◌≡◌, ◌≢◌, refl, sym, ◌∙◌, inl, inr, Bool, true, false,
  ◌||◌, ◌&&◌, ltb, leb, ◌==◌, ok, Bool-cases, arith,
}
use mathlib.Core.Path.{subst}
use osassignment.Fs.{SuperBlock, Disk, bfree}
use osassignment.Fs.Blocks.Layout.{IsLaidOut}
use osassignment.Fs.Inode.{FileState, word, set_addr, ndirect, nindirect, free_direct, free_entries}
use osassignment.Fs.Inode.Slots.{slot, IsTaken, IsFile}
use osassignment.Fs.Inode.Trunc.{
  HasBytes, with_place, Freeing, Freeing-same, Freeing-skip, Freeing-step,
}

-- The places below `i`; those of the table's first `j` entries as well.
abbrev pub first_places : ℕ → ℕ → Bool
first_places i k = ltb k i

abbrev pub and_entries : ℕ → ℕ → Bool
and_entries j k = ltb k ndirect || (leb 13 k && ltb k (13 + j))

module _ (sb : SuperBlock) (s : FileState) (l : IsLaidOut sb) (f : IsFile sb s)
    (bytes : HasBytes sb s.disk) where
  Freeing-none : Freeing sb s (first_places 0) s.disk
  Freeing-none = record {
    freed = λ k lt e ne. absurd (ground (arith, e));
    kept = λ v out. refl;
    blocks = λ c j h. refl;
    smaller = λ c j. omega arith;
  }

  -- The direct blocks.
  pub record Directs (i : ℕ) (t : FileState) : Type 0 where
    pub freeing : Freeing sb s (first_places i) t.disk
    pub cleared : (k : ℕ) → k < i → t.ip.addrs k ≡ 0
    pub others : (k : ℕ) → i ≤ k → t.ip.addrs k ≡ s.ip.addrs k
    pub inum_eq : t.ip.inum ≡ s.ip.inum
    pub ref_eq : t.ip.ref ≡ s.ip.ref

  pub Directs-none : Directs 0 s
  Directs-none = record {
    freeing = Freeing-none;
    cleared = λ k h. absurd (omega (arith, h));
    others = λ k h. refl;
    inum_eq = refl;
    ref_eq = refl;
  }

  next_places : (i k : ℕ) → first_places (i + 1) k ≡ with_place (first_places i) i k
  next_places i k = ground arith

  pub free_direct-Directs :
      (n i : ℕ) (t : FileState)
      → i + n ≡ ndirect
      → Directs i t
      → (u : FileState) × (free_direct n sb t i ≡ ok u) × Directs ndirect u
  unfolding free_direct
  free_direct-Directs zero i t e d = let q : i ≡ ndirect = omega (arith, e) in (t, refl, rw (← q) d)
  free_direct-Directs (suc n) i t e d =
      let low : leb i ndirect ≡ true = ground (arith, e) in
      let here : slot s i ≡ t.ip.addrs i = rw low (sym (d.others i (omega arith))) in
      elim (Bool-cases (t.ip.addrs i == 0)) [
        | inl hole ↦
            let z : slot s i ≡ 0 = here ∙ ground (arith, hole) in
            let zero_addr : t.ip.addrs i ≡ 0 = ground (arith, hole) in
            let next : Directs (i + 1) t = record {
              freeing =
                  Freeing-same sb s (with_place (first_places i) i) (first_places (i + 1)) t.disk
                    (λ k lt. next_places i k)
                    (Freeing-skip sb s (first_places i) t.disk i (omega (arith, e)) z d.freeing);
              cleared = λ k h. elim (Bool-cases (k == i)) [
                | inl same ↦ let q : k ≡ i = ground (arith, same) in rw q zero_addr
                | inr other ↦ d.cleared k (ground (arith, other, h))
              ];
              others = λ k h. d.others k (omega (arith, h));
              inum_eq = d.inum_eq;
              ref_eq = d.ref_eq;
            } in
            let (u, q, r) = free_direct-Directs n (i + 1) t (omega (arith, e)) next in
            (u, rw (free_direct, hole) q, r)
        | inr block ↦
            let ne : slot s i ≢ 0 =
              λ z. (let q : t.ip.addrs i ≡ 0 = sym here ∙ z in ground (arith, block, q)) in
            let (d', q, p) =
              Freeing-step sb s l f bytes (first_places i) t.disk i (omega (arith, e)) ne
                (ground arith) d.freeing in
            let q' : bfree sb t.disk (t.ip.addrs i) ≡ ok d' =
              subst (λ (x : ℕ). bfree sb t.disk x ≡ ok d') here q in
            let t' : FileState = record { disk = d'; ip = set_addr t.ip i 0 } in
            let next : Directs (i + 1) t' = record {
              freeing =
                  Freeing-same sb s (with_place (first_places i) i) (first_places (i + 1)) d'
                    (λ k lt. next_places i k) p;
              cleared = λ k h. elim (Bool-cases (k == i)) [
                | inl same ↦ rw same refl
                | inr other ↦ rw other (d.cleared k (ground (arith, other, h)))
              ];
              others = λ k h.
                  (let other : k == i ≡ false = ground (arith, h) in
                    rw other (d.others k (omega (arith, h))));
              inum_eq = d.inum_eq;
              ref_eq = d.ref_eq;
            } in
            let (u, r, z) = free_direct-Directs n (i + 1) t' (omega (arith, e)) next in
            (u, free_direct_next n t i d' u block q' r, z)
      ]
    where
      free_direct_next :
          (n : ℕ) (t : FileState) (i : ℕ) (d' : Disk) (u : FileState)
          → (t.ip.addrs i == 0) ≡ false
          → bfree sb t.disk (t.ip.addrs i) ≡ ok d'
          → free_direct n sb (record { disk = d'; ip = set_addr t.ip i 0 }) (i + 1) ≡ ok u
          → free_direct (suc n) sb t i ≡ ok u
      free_direct_next n t i d' u block q r = rw (free_direct, block, q) r

  -- The entries of the indirect block `s.ip.addrs ndirect`.
  pub free_entries-Freeing :
      (n j : ℕ) (d : Disk)
      → j + n ≡ nindirect
      → s.ip.addrs ndirect ≢ 0
      → Freeing sb s (and_entries j) d
      → (d' : Disk) × (free_entries n sb d (s.ip.addrs ndirect) j ≡ ok d')
        × Freeing sb s (and_entries nindirect) d'
  unfolding free_entries
  free_entries-Freeing zero j d e table p =
      let q : j ≡ nindirect = omega (arith, e) in (d, refl, rw (← q) p)
  free_entries-Freeing (suc n) j d e table p =
      let t = f.taken ndirect (omega arith) table in
      let here : slot s (13 + j) ≡ word d (s.ip.addrs ndirect) j = entry j d table t p in
      elim (Bool-cases (word d (s.ip.addrs ndirect) j == 0)) [
        | inl hole ↦
            let z : slot s (13 + j) ≡ 0 = here ∙ ground (arith, hole) in
            let p' : Freeing sb s (and_entries (j + 1)) d =
              Freeing-same sb s (with_place (and_entries j) (13 + j)) (and_entries (j + 1)) d
                (λ k lt. next_entries j k)
                (Freeing-skip sb s (and_entries j) d (13 + j) (omega (arith, e)) z p) in
            let (d', q, r) = free_entries-Freeing n (j + 1) d (omega (arith, e)) table p' in
            (d', rw (free_entries, hole) q, r)
        | inr block ↦
            let ne : slot s (13 + j) ≢ 0 = λ z.
              (let q : word d (s.ip.addrs ndirect) j ≡ 0 = sym here ∙ z in
                ground (arith, block, q)) in
            let (d1, q, p1) =
              Freeing-step sb s l f bytes (and_entries j) d (13 + j) (omega (arith, e)) ne
                (ground arith) p in
            let q' : bfree sb d (word d (s.ip.addrs ndirect) j) ≡ ok d1 =
              subst (λ (x : ℕ). bfree sb d x ≡ ok d1) here q in
            let p' : Freeing sb s (and_entries (j + 1)) d1 =
              Freeing-same sb s (with_place (and_entries j) (13 + j)) (and_entries (j + 1)) d1
                (λ k lt. next_entries j k) p1 in
            let (d', r, z) = free_entries-Freeing n (j + 1) d1 (omega (arith, e)) table p' in
            (d', free_entries_next n d d1 d' j block q' r, z)
      ]
    where
      next_entries : (j k : ℕ) → and_entries (j + 1) k ≡ with_place (and_entries j) (13 + j) k
      next_entries j k = ground arith

      entry :
          (j : ℕ) (d : Disk)
          → s.ip.addrs ndirect ≢ 0
          → IsTaken sb s.disk (s.ip.addrs ndirect)
          → Freeing sb s (and_entries j) d
          → slot s (13 + j) ≡ word d (s.ip.addrs ndirect) j
      entry j d table t p =
          let high : leb (13 + j) ndirect ≡ false = ground arith in
          let is_table : s.ip.addrs ndirect == 0 ≡ false = ground (arith, table) in
          let e : 13 + j - 13 ≡ j = omega arith in
          let b0 = p.blocks (s.ip.addrs ndirect) (4 * j) t.in_data in
          let b1 = p.blocks (s.ip.addrs ndirect) (4 * j + 1) t.in_data in
          let b2 = p.blocks (s.ip.addrs ndirect) (4 * j + 2) t.in_data in
          let b3 = p.blocks (s.ip.addrs ndirect) (4 * j + 3) t.in_data in
          rw (high, is_table, e) (omega (arith, b0, b1, b2, b3))

      free_entries_next :
          (n : ℕ) (d d1 d' : Disk) (j : ℕ)
          → (word d (s.ip.addrs ndirect) j == 0) ≡ false
          → bfree sb d (word d (s.ip.addrs ndirect) j) ≡ ok d1
          → free_entries n sb d1 (s.ip.addrs ndirect) (j + 1) ≡ ok d'
          → free_entries (suc n) sb d (s.ip.addrs ndirect) j ≡ ok d'
      free_entries_next n d d1 d' j block q r = rw (free_entries, block, q) r
