-- ===== src/Fs/Dir/Linked.antt =====
-- `dirlookup` after `dirlink`.
use osassignment.Prelude.{
  ℕ, ◌+◌, ◌-◌, ◌*◌, ◌^◌, ◌≤◌, ◌<◌, ◌≡◌, ◌≢◌, refl, ap, ◌∙◌, ◌⊎◌, inl, inr, true, false, ◌&&◌,
  Option, none, some, List, ltb, leb, ◌==◌, get_or, take, All, Outcome, ok, panic, fault,
  Bool-cases, Option-cases, arith,
}
use osassignment.Prelude.Int.{ℤ, pos, negsuc}
use mathlib.Core.Path.{subst}
use osassignment.Fs.{SuperBlock, bsize}
use osassignment.Fs.Blocks.Layout.{IsLaidOut, free_blocks}
use osassignment.Fs.Inode.{FileState, t_dir, t_dev, max_file}
use osassignment.Fs.Inode.Slots.{content, IsFile}
use osassignment.Fs.Data.{Device, bytes}
use osassignment.Fs.Data.Bytes.{bytes_same}
use osassignment.Fs.Data.Read.{IsFull}
use osassignment.Fs.Data.Written.{touched}
use osassignment.Fs.Data.RoundTrip.{Written, writei-Written}
use osassignment.Fs.Dir.{
  dirsiz, dirent_size, new_dirent, namecmp, is_zero, find_entry, dirlookup, put_found, dirlink,
}
use osassignment.Fs.Cache.{Icache, put_slot, iget}
use osassignment.Fs.Cache.Refs.{refs, iget-refs}
use osassignment.Fs.Cache.Taken.{iput-iget}
use osassignment.Fs.Dir.Names.{length-new_dirent, bytes-get_or}
use osassignment.Fs.Dir.Lookup.{IsDir, dirent_at, first_match, entries, find_entry-first_match}
use osassignment.Fs.Dir.Link.{
  IsPlace, find-IsPlace, Linked, more, first_match_other, first_match_new,
}

new_dirent_bytes :
    (name : List ℕ) (inum : ℕ)
    → bytes (λ i. get_or (new_dirent name inum) i 0) 0 dirent_size ≡ new_dirent name inum
new_dirent_bytes name inum =
    subst (λ (n : ℕ). bytes (λ i. get_or (new_dirent name inum) i 0) 0 n ≡ new_dirent name inum)
      (length-new_dirent name inum) (bytes-get_or (new_dirent name inum))

Written-Linked :
    (sb : SuperBlock) (dp dp' : FileState) (name : List ℕ) (inum off : ℕ)
    → IsDir dp
    → IsPlace dp off
    → off + dirent_size ≤ max_file * bsize
    → Written sb dp (λ i. get_or (new_dirent name inum) i 0) off dirent_size dp'
    → Linked dp name inum off dp'
unfolding dirent_at
Written-Linked sb dp dp' name inum off d place fits w =
    let size = w.size_eq in
    let whole = d.whole in
    let low = place.in_dir in
    let aligned = place.aligned in
    let bounded = d.full.bounded in
    record {
      place = place;
      size_eq = elim (Bool-cases (off == dp.ip.size)) [
        | inl at_end ↦ rw at_end (size ∙ ground (arith, at_end))
        | inr inside ↦
            let ne : off ≢ dp.ip.size = ground (arith, inside) in
            let room : off + dirent_size ≤ dp.ip.size = omega (arith, ne, low, whole, aligned) in
            let stays : ltb dp.ip.size (off + dirent_size) ≡ false = ground (arith, room) in
            rw inside (size ∙ rw stays refl)
      ];
      new =
          bytes_same (content dp') (λ i. get_or (new_dirent name inum) i 0) dirent_size off 0
            (λ k lt.
              let range : leb off (off + k) && ltb (off + k) (off + dirent_size) ≡ true =
                ground (arith, lt) in
              let at : off + k - off ≡ 0 + k = omega arith in
              w.content_eq (off + k) (omega (arith, lt, fits)) ∙ rw (range, at) refl)
          ∙ new_dirent_bytes name inum;
      old = λ p a ne h. bytes_same (content dp') (content dp) dirent_size p p (λ k lt.
          let far : (p + dirent_size ≤ off) ⊎ (off + dirent_size ≤ p) =
            ground (arith, a, aligned, ne) in
          let out : leb off (p + k) && ltb (p + k) (off + dirent_size) ≡ false =
            ground (arith, lt, far) in
          w.content_eq (p + k) (omega (arith, lt, h, bounded)) ∙ rw out refl);
    }

Linked-IsDir :
    (dp dp' : FileState) (name : List ℕ) (inum off : ℕ)
    → IsDir dp
    → dp'.ip.itype ≡ t_dir
    → IsFull dp'
    → Linked dp name inum off dp'
    → IsDir dp'
Linked-IsDir dp dp' name inum off d itype full l =
    let size = l.size_eq in
    let aligned = l.place.aligned in
    let whole = d.whole in
    record { itype = itype; full = full; whole = ground (arith, size, aligned, whole) }

-- Every name that `namecmp` tells apart from `name` is looked up with the same result.
abbrev pub SameOthers : SuperBlock → (ℕ → Device) → List ℕ → FileState → FileState → Type 0
SameOthers sb devsw name dp dp' =
    (q : List ℕ)
    → is_zero (namecmp q (take dirsiz name)) ≡ false
    → (r : Option (ℕ × ℕ)) × (find_entry sb devsw dp q ≡ ok (r, dp))
      × (find_entry sb devsw dp' q ≡ ok (r, dp'))

-- How `dirlink` ends when the name is there, for the inode `n`.
abbrev pub Refused : Icache → FileState → ℕ → Outcome (ℤ × Icache × FileState) → Type 0
Refused c dp n r =
    ((iget c n ≡ panic) × (r ≡ panic))
    ⊎ ((n ≡ dp.ip.inum) × (r ≡ fault))
    ⊎ ((n ≢ dp.ip.inum)
        × (c' : Icache) × (r ≡ ok (negsuc 0, c', dp))
        × ((m : ℕ) → refs c' m ≡ refs c m))

dirlink-Refused :
    (sb : SuperBlock) (devsw : ℕ → Device) (c : Icache) (dp : FileState) (name : List ℕ) (inum : ℕ)
    (e : ℕ × ℕ)
    → find_entry sb devsw dp name ≡ ok (some e, dp)
    → Refused c dp e.0 (dirlink sb devsw c dp name inum)
unfolding dirlink dirlookup put_found
dirlink-Refused sb devsw c dp name inum e look = elim (iget-refs c e.0) [
  | inl (p, z, busy) ↦ inl (p, rw (look, p) refl)
  | inr (c1, q, h) ↦ elim (Bool-cases (e.0 == dp.ip.inum)) [
    | inl self ↦ inr (inl (ground (arith, self), rw (look, q, self) refl))
    | inr other ↦
        let (ip, ip', slot, put, same) = iput-iget sb dp.disk c c1 e.0 q in
        inr (
          inr
            (ground (arith, other), put_slot c1 e.0 ip', rw (look, q, other, slot, put) refl, same))
  ]
]

-- `dirlink` in a directory of whole entries whose blocks are all there, each a data block in use at one
-- place, that is not of the largest size and whose number is below `ninodes`, on a disk with the layout
-- of mkfs.c and two free blocks, for a number of 16 bits other than 0 and a name without the character 0.
-- If the name is not there it returns 0, changes no count, and the number is then found under the name,
-- and under any other name, one that `namecmp` tells apart from the first 14 characters, what was found
-- before. If the name is there it returns -1 and leaves the directory and every count as they were, with
-- two exceptions: it panics when `iget` has no slot, and it waits for ever, holding the directory's
-- lock, when the entry found is the directory itself, as for the name `.`.
pub dirlink-dirlookup :
    (sb : SuperBlock) (devsw : ℕ → Device) (c : Icache) (dp : FileState) (name : List ℕ) (inum : ℕ)
    → IsLaidOut sb
    → IsFile sb dp
    → IsDir dp
    → dp.ip.inum < sb.ninodes
    → dp.ip.size + dirent_size ≤ max_file * bsize
    → 2 ≤ free_blocks sb dp.disk
    → All (λ x. x ≢ 0) name
    → 0 < inum
    → inum < 2 ^ 16
    → ((e : ℕ × ℕ) × (find_entry sb devsw dp name ≡ ok (some e, dp))
        × Refused c dp e.0 (dirlink sb devsw c dp name inum))
      ⊎ ((off : ℕ) × (dp' : FileState) × (find_entry sb devsw dp name ≡ ok (none, dp))
          × (dirlink sb devsw c dp name inum ≡ ok (pos 0, c, dp'))
          × (find_entry sb devsw dp' name ≡ ok (some (inum, off), dp'))
          × SameOthers sb devsw name dp dp')
unfolding dirlink dirlookup
dirlink-dirlookup sb devsw c dp name inum l f d known fits free nonzero positive small =
    let look = find_entry-first_match sb devsw dp d in
    let whole = d.whole in
    elim (Option-cases (first_match (entries dp) dp name 0)) [
      | inr (e, found) ↦
          let r : find_entry sb devsw dp name ≡ ok (some e, dp) =
            look name ∙ ap (λ o. ok (o, dp)) found in
          inl (e, r, dirlink-Refused sb devsw c dp name inum e r)
      | inl absent ↦
          let r : find_entry sb devsw dp name ≡ ok (none, dp) =
            look name ∙ ap (λ o. ok (o, dp)) absent in
          let (off, empty, place) = find-IsPlace sb devsw dp d in
          let low = place.in_dir in
          let aligned = place.aligned in
          let not_dev : dp.ip.itype ≢ t_dev = λ e. omega (arith, d.itype, e) in
          let one : touched off dirent_size ≡ 1 = ground (arith, aligned) in
          elim (writei-Written sb l devsw dp (λ i. get_or (new_dirent name inum) i 0) off
            dirent_size f d.full known not_dev (omega (arith, low, fits)) (omega arith)
            (omega (arith, one, free))) [
              | inl (bad, e) ↦ absurd (ground (arith, bad, low, fits))
              | inr (good, dp', e, w) ↦
                  let linked =
                    Written-Linked sb dp dp' name inum off d place (omega (arith, low, fits)) w in
                  let d' : IsDir dp' =
                    Linked-IsDir dp dp' name inum off d (w.itype_eq ∙ d.itype) w.full linked in
                  let look' = find_entry-first_match sb devsw dp' d' in
                  let size = linked.size_eq in
                  let count : entries dp' ≡ entries dp + more dp dp' name inum off linked nonzero =
                    ground (arith, size, whole) in
                  let all : 0 + entries dp * dirent_size ≡ dp.ip.size = omega (arith, whole) in
                  inr (
                    off,
                    dp',
                    r,
                    ground (arith, r, empty, e),
                    look' name
                        ∙ ap (λ o. ok (o, dp'))
                            (rw count (
                              first_match_new dp dp' name inum off linked nonzero (entries dp) 0
                                positive small refl (omega arith) all absent)),
                    λ q ne. (
                      first_match (entries dp) dp q 0,
                      look q,
                      look' q
                          ∙ ap (λ o. ok (o, dp'))
                              (rw count (
                                first_match_other dp dp' name inum off linked nonzero q (entries dp)
                                  0 ne refl all)),
                    ),
                  )
            ]
    ]
