-- ===== src/Fs/Dir/Link.antt =====
-- What `dirlink` adds.
use osassignment.Prelude.{
  ℕ, zero, suc, ◌+◌, ◌*◌, ◌/◌, ◌%◌, ◌^◌, ◌≤◌, ◌<◌, ◌≡◌, ◌≢◌, refl, inl, inr, true, false, none,
  some, List, ltb, ◌==◌, if◌then◌else◌, take, All, ok, Bool-cases, arith,
}
use osassignment.Fs.{SuperBlock}
use osassignment.Fs.Inode.{FileState}
use osassignment.Fs.Data.{Device}
use osassignment.Fs.Dir.{
  dirsiz, dirent_size, dirent_inum, new_dirent, namecmp, is_zero, matches, empty_loop,
}
use osassignment.Fs.Dir.Names.{new_dirent-inum, matches-new_dirent, matches-new_dirent_ne}
use osassignment.Fs.Dir.Lookup.{IsDir, dirent_at, first_match, entries, read_dirent-content}

-- Where `dirlink` puts its entry: before the end, over an unused entry, or at the end.
pub record IsPlace (dp : FileState) (off : ℕ) : Type 0 where
  pub aligned : off % dirent_size ≡ 0
  pub in_dir : off ≤ dp.ip.size
  pub unused : off < dp.ip.size → dirent_inum (dirent_at dp off) ≡ 0

module _ (sb : SuperBlock) (devsw : ℕ → Device) (dp : FileState) (d : IsDir dp) where
  empty_loop-IsPlace :
      (fuel n off : ℕ)
      → n < fuel
      → off % dirent_size ≡ 0
      → off + n * dirent_size ≡ dp.ip.size
      → (p : ℕ) × (empty_loop fuel sb devsw dp off ≡ ok (p, dp)) × IsPlace dp p
  unfolding empty_loop
  empty_loop-IsPlace zero n off h a e = absurd (omega (arith, h))
  empty_loop-IsPlace (suc fuel) zero off h a e =
      let end : ltb off dp.ip.size ≡ false = ground (arith, e) in
      (
        off,
        rw (empty_loop, end) refl,
        record {
          aligned = a;
          in_dir = omega (arith, e);
          unused = λ lt. absurd (omega (arith, e, lt));
        },
      )
  empty_loop-IsPlace (suc fuel) (suc n) off h a e =
      let more : ltb off dp.ip.size ≡ true = ground (arith, e) in
      let read = read_dirent-content sb devsw dp d off (omega (arith, e)) in
      elim (Bool-cases (dirent_inum (dirent_at dp off) == 0)) [
        | inl empty ↦ (
          off,
          ground (arith, more, read, empty),
          record { aligned = a; in_dir = omega (arith, e); unused = λ lt. ground (arith, empty) },
        )
        | inr used ↦
            let (p, q, r) =
              empty_loop-IsPlace fuel n (off + dirent_size) (omega (arith, h)) (omega (arith, a))
                (omega (arith, e)) in
            (p, ground (arith, more, read, used, q), r)
      ]

  pub find-IsPlace :
      (p : ℕ) × (empty_loop (dp.ip.size / dirent_size + 2) sb devsw dp 0 ≡ ok (p, dp))
      × IsPlace dp p
  find-IsPlace =
      let size = d.whole in
      empty_loop-IsPlace (dp.ip.size / dirent_size + 2) (entries dp) 0 (omega arith) refl
        (omega (arith, size))

-- A directory where one entry is new.
pub record Linked (dp : FileState) (name : List ℕ) (inum off : ℕ) (dp' : FileState) : Type 0 where
  pub place : IsPlace dp off
  pub size_eq : dp'.ip.size ≡ (if off == dp.ip.size then off + dirent_size else dp.ip.size)
  pub new : dirent_at dp' off ≡ new_dirent name inum
  pub old :
      (p : ℕ)
      → p % dirent_size ≡ 0
      → p ≢ off
      → p + dirent_size ≤ dp.ip.size
      → dirent_at dp' p ≡ dirent_at dp p

module _ (dp dp' : FileState) (name : List ℕ) (inum off : ℕ) (l : Linked dp name inum off dp')
    (nonzero : All (λ c. c ≢ 0) name) where
  -- Over the old entries and, when the new one is at the end, one more.
  abbrev pub more : ℕ
  more = if off == dp.ip.size then 1 else 0

  -- Another name finds what it found before.
  pub first_match_other :
      (q : List ℕ) (n p : ℕ)
      → is_zero (namecmp q (take dirsiz name)) ≡ false
      → p % dirent_size ≡ 0
      → p + n * dirent_size ≡ dp.ip.size
      → first_match (n + more) dp' q p ≡ first_match n dp q p
  unfolding matches
  first_match_other q zero p ne a e = elim (Bool-cases (off == dp.ip.size)) [
    | inr inside ↦ rw inside refl
    | inl at_end ↦
        let here : p ≡ off = ground (arith, at_end, e) in
        let no_match : matches q (dirent_at dp' p) ≡ false =
          rw (here, l.new) (matches-new_dirent_ne q name inum nonzero ne) in
        rw (at_end, no_match) refl
  ]
  first_match_other q (suc n) p ne a e =
      let rest = first_match_other q n (p + dirent_size) ne (omega (arith, a)) (omega (arith, e)) in
      let next : suc n + more ≡ suc (n + more) = omega arith in
      elim (Bool-cases (p == off)) [
        | inr other ↦
            let same = l.old p a (ground (arith, other)) (omega (arith, e)) in
            rw (next, same, rest) refl
        | inl here ↦
            let at : p ≡ off = ground (arith, here) in
            let now : matches q (dirent_at dp' p) ≡ false =
              rw (at, l.new) (matches-new_dirent_ne q name inum nonzero ne) in
            let unused : dirent_inum (dirent_at dp p) == 0 ≡ true =
              (let z = l.place.unused (omega (arith, at, e)) in rw at (ground (arith, z))) in
            rw (next, now, unused, rest) refl
      ]

  -- The name itself, which no old entry had, finds the new entry.
  pub first_match_new :
      (n p : ℕ)
      → 0 < inum
      → inum < 2 ^ 16
      → p % dirent_size ≡ 0
      → p ≤ off
      → p + n * dirent_size ≡ dp.ip.size
      → first_match n dp name p ≡ none
      → first_match (n + more) dp' name p ≡ some (inum, off)
  first_match_new zero p positive small a before e gone =
      let aligned = l.place.aligned in
      let inside = l.place.in_dir in
      let here : p ≡ off = omega (arith, inside, before, e) in
      let at_end : off == dp.ip.size ≡ true = ground (arith, here, e) in
      let found : matches name (dirent_at dp' p) ≡ true =
        rw (here, l.new) (matches-new_dirent name inum nonzero positive small) in
      let number : dirent_inum (dirent_at dp' p) ≡ inum =
        rw (here, l.new) (new_dirent-inum name inum small) in
      rw (at_end, found, number, here) refl
  first_match_new (suc n) p positive small a before e gone =
      let next : suc n + more ≡ suc (n + more) = omega arith in
      let aligned = l.place.aligned in
      elim (Bool-cases (p == off)) [
        | inl same ↦
            let here : p ≡ off = ground (arith, same) in
            let found : matches name (dirent_at dp' p) ≡ true =
              rw (here, l.new) (matches-new_dirent name inum nonzero positive small) in
            let number : dirent_inum (dirent_at dp' p) ≡ inum =
              rw (here, l.new) (new_dirent-inum name inum small) in
            rw (next, found, number, here) refl
        | inr other ↦
            let ne : p ≢ off = ground (arith, other) in
            let same = l.old p a ne (omega (arith, e)) in
            elim (Bool-cases (matches name (dirent_at dp p))) [
              | inl found ↦ absurd (ground (arith, found, gone))
              | inr no_match ↦
                  let gone' : first_match n dp name (p + dirent_size) ≡ none =
                    ground (arith, no_match, gone) in
                  let rest =
                    first_match_new n (p + dirent_size) positive small (omega (arith, a))
                      (omega (arith, a, aligned, before, ne)) (omega (arith, e)) gone' in
                  rw (next, same, no_match) rest
            ]
      ]
