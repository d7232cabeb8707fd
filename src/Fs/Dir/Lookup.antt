-- ===== src/Fs/Dir/Lookup.antt =====
-- What `dirlookup` finds.
use osassignment.Prelude.{
  ℕ, zero, suc, ◌+◌, ◌-◌, ◌*◌, ◌/◌, ◌%◌, ◌^◌, ◌≤◌, ◌<◌, ◌≡◌, ◌≢◌, refl, inl, inr, true, false, ◌&&◌,
  Option, none, some, List, ltb, leb, ◌==◌, if◌then◌else◌, length, ok, panic, ◌⊎◌, flag, All,
  Bool-cases, Option-cases, arith,
}
use osassignment.Fs.{SuperBlock}
use osassignment.Fs.Inode.{FileState, t_dir, t_dev}
use osassignment.Fs.Inode.Slots.{content}
use osassignment.Fs.Data.{Device, min, bytes}
use osassignment.Fs.Data.Bytes.{length-bytes}
use osassignment.Fs.Data.Read.{IsFull, readi-content}
use osassignment.Fs.Cache.{Icache, iget}
use osassignment.Fs.Cache.Refs.{refs, iget-refs}
use osassignment.Fs.Dir.{
  dirent_size, Dirent, dirent_inum, matches, read_dirent, lookup_loop, find_entry, dirlookup,
}

-- A directory that can be read: whole entries, and every block there.
pub record IsDir (dp : FileState) : Type 0 where
  pub itype : dp.ip.itype ≡ t_dir
  pub full : IsFull dp
  pub whole : dp.ip.size % dirent_size ≡ 0

unfoldable pub dirent_at : FileState → ℕ → Dirent
dirent_at dp off = bytes (content dp) off dirent_size

-- The first of `n` entries from `off` on that a name matches: its inode and its offset.
abbrev pub first_match : ℕ → FileState → List ℕ → ℕ → Option (ℕ × ℕ)
first_match zero dp name off = none
first_match (suc n) dp name off =
    if matches name (dirent_at dp off)
    then some (dirent_inum (dirent_at dp off), off)
    else first_match n dp name (off + dirent_size)

abbrev pub entries : FileState → ℕ
entries dp = dp.ip.size / dirent_size

module _ (sb : SuperBlock) (devsw : ℕ → Device) (dp : FileState) (d : IsDir dp) where
  pub read_dirent-content :
      (off : ℕ)
      → off + dirent_size ≤ dp.ip.size
      → read_dirent sb devsw dp off ≡ ok (dirent_at dp off, dp)
  unfolding read_dirent dirent_at
  read_dirent-content off h =
      let fits = d.full.bounded in
      let not_dev : dp.ip.itype ≢ t_dev = λ e. omega (arith, d.itype, e) in
      let read =
        readi-content sb devsw dp off dirent_size not_dev d.full (omega (arith, h, fits))
          (omega arith) in
      let inside : leb off dp.ip.size && ltb (off + dirent_size) (2 ^ 32) ≡ true =
        ground (arith, h, fits) in
      let all : min dirent_size (dp.ip.size - off) ≡ dirent_size = ground (arith, h) in
      let long : length (dirent_at dp off) == dirent_size ≡ true =
        ground (arith, length-bytes (content dp) dirent_size off) in
      ground (arith, read, inside, all, length-bytes (content dp) dirent_size off)

  lookup_loop-first_match :
      (fuel n : ℕ) (name : List ℕ) (off : ℕ)
      → n < fuel
      → off + n * dirent_size ≡ dp.ip.size
      → lookup_loop fuel sb devsw dp name off ≡ ok (first_match n dp name off, dp)
  unfolding lookup_loop
  lookup_loop-first_match zero n name off h e = absurd (omega (arith, h))
  lookup_loop-first_match (suc fuel) zero name off h e =
      let end : ltb off dp.ip.size ≡ false = ground (arith, e) in rw (lookup_loop, end) refl
  lookup_loop-first_match (suc fuel) (suc n) name off h e =
      let more : ltb off dp.ip.size ≡ true = ground (arith, e) in
      let read = read_dirent-content off (omega (arith, e)) in
      elim (Bool-cases (matches name (dirent_at dp off))) [
        | inl found ↦ ground (arith, more, read, found)
        | inr other ↦
            let rest =
              lookup_loop-first_match fuel n name (off + dirent_size) (omega (arith, h))
                (omega (arith, e)) in
            ground (arith, more, read, other, rest)
      ]

  pub find_entry-first_match :
      (name : List ℕ) → find_entry sb devsw dp name ≡ ok (first_match (entries dp) dp name 0, dp)
  unfolding find_entry
  find_entry-first_match name =
      let is_dir : dp.ip.itype == t_dir ≡ true = ground (arith, d.itype) in
      let size = d.whole in
      rw is_dir (
        lookup_loop-first_match (dp.ip.size / dirent_size + 2) (entries dp) name 0 (omega arith)
          (omega (arith, size)))

  -- `dirlookup` in a directory whose size is that of whole entries and whose blocks are all there: if
  -- `namecmp` tells the name from that of every entry in use, it returns none and changes nothing.
  -- Otherwise it takes a reference to the inode of the first entry that matches and returns it with the
  -- offset of the entry, and changes neither the directory nor any other count; or it panics in `iget`,
  -- exactly when nothing refers to that inode and every slot of the cache is in use.
  pub dirlookup-first_match :
      (c : Icache) (name : List ℕ)
      → ((first_match (entries dp) dp name 0 ≡ none)
          × (dirlookup sb devsw c dp name ≡ ok (none, c, dp)))
        ⊎ ((e : ℕ × ℕ) × (first_match (entries dp) dp name 0 ≡ some e)
            × (((dirlookup sb devsw c dp name ≡ panic)
                  × (refs c e.0 ≡ 0)
                  × All (λ ip. 0 < ip.ref) c)
                ⊎ ((c' : Icache) × (iget c e.0 ≡ ok c')
                    × (dirlookup sb devsw c dp name ≡ ok (some e, c', dp))
                    × ((m : ℕ) → refs c' m ≡ refs c m + flag (e.0 == m)))))
  unfolding dirlookup
  dirlookup-first_match c name =
      let found = find_entry-first_match name in
      elim (Option-cases (first_match (entries dp) dp name 0)) [
        | inl absent ↦ inl (absent, rw (found, absent) refl)
        | inr (e, match) ↦ inr (
          e,
          match,
          elim (iget-refs c e.0) [
            | inl (p, no_refs, busy) ↦ inl (rw (found, match, p) refl, no_refs, busy)
            | inr (c', q, h) ↦ inr (c', q, rw (found, match, q) refl, h)
          ],
        )
      ]
