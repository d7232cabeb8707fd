-- ===== src/Fs/Dir/Kept.antt =====
-- Reading a directory keeps its number and is never a fault.
use osassignment.Prelude.{
  ℕ, zero, suc, ◌+◌, ◌-◌, ◌*◌, ◌/◌, ◌%◌, ◌^◌, ◌<◌, ◌≤◌, ◌≡◌, refl, ◌∙◌, inl, inr, ◌||◌, none, some,
  List, [], ltb, ◌==◌, if◌then◌else◌, length, Outcome, IsSafe, IsSafe-bind, Bool-cases,
  Option-cases, arith,
}
use osassignment.Fs.{SuperBlock, Disk, balloc, bsize}
use osassignment.Fs.Blocks.{Balloced, balloc-Balloced}
use osassignment.Fs.Inode.{
  FileState, word, ndirect, nindirect, map_addr, map_entry, bmap, t_dir, t_dev,
}
use osassignment.Fs.Data.{Device, dev_read, read_loop, readi, chunk}
use osassignment.Fs.Dir.{dirent_size, dirent_inum, read_dirent, matches, lookup_loop, find_entry}

-- What an operation keeps of the directory's inode.
abbrev pub IsSame : FileState → FileState → Type 0
IsSame s s' =
    (s'.ip.inum ≡ s.ip.inum)
    × (s'.ip.ref ≡ s.ip.ref)
    × (s'.ip.size ≡ s.ip.size)
    × (s'.ip.itype ≡ s.ip.itype)

IsSame-trans : (s t u : FileState) → IsSame s t → IsSame t u → IsSame s u
IsSame-trans s t u (a, b, c, d) (a', b', c', d') = (a' ∙ a, b' ∙ b, c' ∙ c, d' ∙ d)

-- A value beside the state.
abbrev pub WithSame {ℓ} : {V : Type ℓ} → FileState → V × FileState → Type 0
WithSame s r = IsSame s r.1

-- A longer run.
then_same :
    {V : Type 0} (s t : FileState) (r : Outcome (V × FileState))
    → IsSame s t
    → IsSafe (WithSame t) r
    → IsSafe (WithSame s) r
then_same s t r k (inl e) = inl e
then_same s t r k (inr (u, e, k')) = inr (u, e, IsSame-trans s t u.1 k k')

balloc-IsSafe : (sb : SuperBlock) (d : Disk) → IsSafe (λ (r : ℕ × Disk). Unit {0}) (balloc sb d)
unfolding Balloced
balloc-IsSafe sb d = elim (balloc-Balloced sb d) [
  | inl (e, all) ↦ inl e
  | inr (a, e, low) ↦ inr (_, e, tt)
]

map_addr-IsSafe : (sb : SuperBlock) (s : FileState) (k : ℕ) → IsSafe (WithSame s) (map_addr sb s k)
unfolding map_addr
map_addr-IsSafe sb s k = elim (Bool-cases (s.ip.addrs k == 0)) [
  | inr there ↦ inr ((s.ip.addrs k, s), rw there refl, (refl, refl, refl, refl))
  | inl hole ↦ rw hole (
      IsSafe-bind (λ (r : ℕ × Disk). Unit {0}) (WithSame s) _ _ (balloc-IsSafe sb s.disk)
        (λ r u. inr (_, refl, (refl, refl, refl, refl))))
]

map_entry-IsSafe :
    (sb : SuperBlock) (s : FileState) (a j : ℕ) → IsSafe (WithSame s) (map_entry sb s a j)
unfolding map_entry
map_entry-IsSafe sb s a j = elim (Bool-cases (word s.disk a j == 0)) [
  | inr there ↦ inr ((word s.disk a j, s), rw there refl, (refl, refl, refl, refl))
  | inl hole ↦ rw hole (
      IsSafe-bind (λ (r : ℕ × Disk). Unit {0}) (WithSame s) _ _ (balloc-IsSafe sb s.disk)
        (λ r u. inr (_, refl, (refl, refl, refl, refl))))
]

bmap-IsSafe : (sb : SuperBlock) (s : FileState) (bn : ℕ) → IsSafe (WithSame s) (bmap sb s bn)
unfolding bmap
bmap-IsSafe sb s bn = elim (Bool-cases (ltb bn ndirect)) [
  | inl low ↦ rw low (map_addr-IsSafe sb s bn)
  | inr high ↦ elim (Bool-cases (ltb (bn - ndirect) nindirect)) [
    | inr above ↦ inl (rw (high, above) refl)
    | inl entry ↦
        rw (high, entry)
          (IsSafe-bind (WithSame s) (WithSame s) _ _ (map_addr-IsSafe sb s ndirect)
            (λ r k. then_same s r.1 _ k (map_entry-IsSafe sb r.1 r.0 (bn - ndirect))))
  ]
]

read_loop-IsSafe :
    (n : ℕ) (sb : SuperBlock) (s : FileState) (off m : ℕ)
    → IsSafe (WithSame s) (read_loop n sb s off m)
unfolding read_loop
read_loop-IsSafe zero sb s off m = inr (_, refl, (refl, refl, refl, refl))
read_loop-IsSafe (suc n) sb s off m = elim (Bool-cases (m == 0)) [
  | inl done ↦ inr (([], s), rw (read_loop, done) refl, (refl, refl, refl, refl))
  | inr more ↦
      rw (read_loop, more)
        (IsSafe-bind (WithSame s) (WithSame s) _ _ (bmap-IsSafe sb s (off / bsize)) (λ r k.
          IsSafe-bind (WithSame r.1) (WithSame s) _ _
            (read_loop-IsSafe n sb r.1 (off + chunk off m) (m - chunk off m))
            (λ t k'. inr (_, refl, IsSame-trans s r.1 t.1 k k'))))
]

readi-IsSafe :
    (sb : SuperBlock) (devsw : ℕ → Device) (s : FileState) (off n : ℕ)
    → IsSafe (WithSame s) (readi sb devsw s off n)
unfolding readi
readi-IsSafe sb devsw s off n = elim (Bool-cases (s.ip.itype == t_dev)) [
  | inl dev ↦ inr ((dev_read devsw s.ip n, s), rw dev refl, (refl, refl, refl, refl))
  | inr file ↦ elim (Bool-cases (ltb s.ip.size off || ltb ((off + n) % 2 ^ 32) off)) [
    | inl past ↦ inr ((none, s), rw (file, past) refl, (refl, refl, refl, refl))
    | inr inside ↦
        let left : ℕ = if ltb s.ip.size ((off + n) % 2 ^ 32) then s.ip.size - off else n in
        rw (file, inside)
          (IsSafe-bind (WithSame s) (WithSame s) _ _ (read_loop-IsSafe left sb s off left)
            (λ r k. inr (_, refl, k)))
  ]
]

read_dirent-IsSafe :
    (sb : SuperBlock) (devsw : ℕ → Device) (s : FileState) (off : ℕ)
    → IsSafe (WithSame s) (read_dirent sb devsw s off)
unfolding read_dirent
read_dirent-IsSafe sb devsw s off =
    IsSafe-bind (WithSame s) (WithSame s) _ _ (readi-IsSafe sb devsw s off dirent_size) (λ r k.
      elim (Option-cases r.0) [
        | inl nothing ↦ inl (rw nothing refl)
        | inr (e, got) ↦ elim (Bool-cases (length e == dirent_size)) [
          | inl whole ↦ inr ((e, r.1), rw (got, whole) refl, k)
          | inr cut ↦ inl (rw (got, cut) refl)
        ]
      ])

-- The rounds of `dirlookup` are enough, whatever the directory holds.
lookup_loop-IsSafe :
    (fuel : ℕ) (sb : SuperBlock) (devsw : ℕ → Device) (s : FileState) (name : List ℕ) (off : ℕ)
    → s.ip.size + dirent_size ≤ off + fuel * dirent_size
    → off < s.ip.size + dirent_size
    → IsSafe (WithSame s) (lookup_loop fuel sb devsw s name off)
unfolding lookup_loop
lookup_loop-IsSafe zero sb devsw s name off h low = absurd (omega (arith, h, low))
lookup_loop-IsSafe (suc fuel) sb devsw s name off h low = elim (Bool-cases (ltb off s.ip.size)) [
  | inr end ↦ inr ((none, s), rw (lookup_loop, end) refl, (refl, refl, refl, refl))
  | inl more ↦
      rw (lookup_loop, more)
        (IsSafe-bind (WithSame s) (WithSame s) _ _ (read_dirent-IsSafe sb devsw s off) (λ r k.
          elim (Bool-cases (matches name r.0)) [
            | inl found ↦ inr ((some (dirent_inum r.0, off), r.1), rw found refl, k)
            | inr other ↦ rw other (
                then_same s r.1 _ k (
                  lookup_loop-IsSafe fuel sb devsw r.1 name (off + dirent_size)
                    (omega (arith, h, k.2)) (ground (arith, more, k.2))))
          ]))
]

pub find_entry-IsSafe :
    (sb : SuperBlock) (devsw : ℕ → Device) (s : FileState) (name : List ℕ)
    → IsSafe (WithSame s) (find_entry sb devsw s name)
unfolding find_entry
find_entry-IsSafe sb devsw s name = elim (Bool-cases (s.ip.itype == t_dir)) [
  | inl dir ↦ rw dir (
      lookup_loop-IsSafe (s.ip.size / dirent_size + 2) sb devsw s name 0 (omega arith)
        (omega arith))
  | inr other ↦ inl (rw other refl)
]
