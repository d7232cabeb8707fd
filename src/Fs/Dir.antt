-- ===== src/Fs/Dir.antt =====
-- Directories: `namecmp`, `dirlookup` and `dirlink` of fs.c. The directory `dp` is locked by the caller, and
-- its fields other than the count are those of `dp`; the counts stand in the inode cache, Fs/Cache.
pub mod Names
pub mod Lookup
pub mod Link
pub mod Linked
pub mod Kept
mod Tests
use osassignment.Prelude.{
  ℕ, zero, suc, ◌+◌, ◌-◌, ◌*◌, ◌/◌, ◌%◌, ◌^◌, Bool, true, false, Option, none, some, List, [], ◌∷◌,
  ltb, ◌==◌, if◌then◌else◌, length, get_or, drop, Outcome, ok, panic, fault, ◌>>=◌,
}
use osassignment.Prelude.Int.{ℤ, pos, negsuc}
use osassignment.Text.{strncpy}
use osassignment.Text.Copy.{c_string}
use osassignment.Text.Compare.{strncmp}
use osassignment.Fs.{SuperBlock}
use osassignment.Fs.Inode.{Inode, FileState, t_dir, iput}
use osassignment.Fs.Cache.{Icache, get_slot, put_slot, iget}
use osassignment.Fs.Data.{Buffer, Device, readi, writei}

abbrev pub dirsiz : ℕ
dirsiz = 14

-- `sizeof(struct dirent)`
abbrev pub dirent_size : ℕ
dirent_size = 16

abbrev pub Dirent : Type 0
Dirent = List ℕ

unfoldable pub dirent_inum : Dirent → ℕ
dirent_inum e = get_or e 0 0 + 256 * get_or e 1 0

unfoldable pub dirent_name : Dirent → List ℕ
dirent_name e = c_string (drop 2 e)

unfoldable pub new_dirent : List ℕ → ℕ → Dirent
unfolding strncpy
new_dirent name inum = inum % 256 ∷ inum / 256 % 256 ∷ strncpy name dirsiz

unfoldable pub namecmp : List ℕ → List ℕ → ℤ
unfolding strncmp
namecmp s t = strncmp s t dirsiz

abbrev pub is_zero : ℤ → Bool
is_zero (pos n) = n == 0
is_zero (negsuc n) = false

-- Whether `dirlookup` takes the entry.
unfoldable pub matches : List ℕ → Dirent → Bool
unfolding dirent_inum dirent_name namecmp
matches name e = if dirent_inum e == 0 then false else is_zero (namecmp name (dirent_name e))

-- The entry at an offset, a panic if `readi` gives less.
unfoldable pub read_dirent :
    SuperBlock → (ℕ → Device) → FileState → ℕ → Outcome (Dirent × FileState)
read_dirent sb devsw dp off = do
  (r, dp1) ← readi sb devsw dp off dirent_size
  elim r [ none ↦ panic | some e ↦ if length e == dirent_size then ok (e, dp1) else panic ]

unfoldable pub lookup_loop :
    ℕ → SuperBlock → (ℕ → Device) → FileState → List ℕ → ℕ → Outcome (Option (ℕ × ℕ) × FileState)
unfolding read_dirent matches dirent_inum
lookup_loop zero sb devsw dp name off = fault
lookup_loop (suc fuel) sb devsw dp name off = elim (ltb off dp.ip.size) [
  | false ↦ ok (none, dp)
  | true ↦ do
    (e, dp1) ← read_dirent sb devsw dp off
    elim (matches name e) [
      | true ↦ ok (some (dirent_inum e, off), dp1)
      | false ↦ lookup_loop fuel sb devsw dp1 name (off + dirent_size)
    ]
]

-- `dirlookup` up to its call of `iget`: the number and the offset of the entry.
unfoldable pub find_entry :
    SuperBlock → (ℕ → Device) → FileState → List ℕ → Outcome (Option (ℕ × ℕ) × FileState)
unfolding lookup_loop
find_entry sb devsw dp name =
    if dp.ip.itype == t_dir
    then lookup_loop (dp.ip.size / dirent_size + 2) sb devsw dp name 0
    else panic

-- The inode that is returned is the one with the number.
unfoldable pub dirlookup :
    SuperBlock
    → (ℕ → Device)
    → Icache
    → FileState
    → List ℕ
    → Outcome (Option (ℕ × ℕ) × Icache × FileState)
unfolding find_entry iget
dirlookup sb devsw c dp name = do
  (found, dp1) ← find_entry sb devsw dp name
  elim found [ none ↦ ok (none, c, dp1) | some e ↦ do c1 ← iget c e.0; ok (some e, c1, dp1) ]

-- The second loop of `dirlink`: the offset of the first empty entry, or the end.
unfoldable pub empty_loop : ℕ → SuperBlock → (ℕ → Device) → FileState → ℕ → Outcome (ℕ × FileState)
unfolding read_dirent dirent_inum
empty_loop zero sb devsw dp off = fault
empty_loop (suc fuel) sb devsw dp off = elim (ltb off dp.ip.size) [
  | false ↦ ok (off, dp)
  | true ↦ do
    (e, dp1) ← read_dirent sb devsw dp off
    elim (dirent_inum e == 0) [
      | true ↦ ok (off, dp1)
      | false ↦ empty_loop fuel sb devsw dp1 (off + dirent_size)
    ]
]

-- `iput` of the inode that `dirlookup` has found. It waits for the inode's lock; for `dp`, whose lock the
-- caller has, that is for ever.
unfoldable pub put_found : SuperBlock → Icache → FileState → ℕ → Outcome (Icache × FileState)
unfolding get_slot put_slot
put_found sb c dp n = if n == dp.ip.inum then fault else elim (get_slot c n) [
  | none ↦ fault
  | some ip ↦ do
    t ← iput sb (record { disk = dp.disk; ip = ip })
    ok (put_slot c n t.ip, record dp { disk = t.disk })
]

-- -1 when the name is there already.
unfoldable pub dirlink :
    SuperBlock → (ℕ → Device) → Icache → FileState → List ℕ → ℕ → Outcome (ℤ × Icache × FileState)
unfolding dirlookup put_found empty_loop new_dirent
dirlink sb devsw c dp name inum = do
  (found, c1, dp1) ← dirlookup sb devsw c dp name
  elim found [
    | some e ↦ do (c2, dp2) ← put_found sb c1 dp1 e.0; ok (negsuc 0, c2, dp2)
    | none ↦ do
      (off, dp2) ← empty_loop (dp1.ip.size / dirent_size + 2) sb devsw dp1 0
      (r, dp3) ← writei sb devsw dp2 (λ i. get_or (new_dirent name inum) i 0) off dirent_size
      elim r [ none ↦ panic | some n ↦ if n == dirent_size then ok (pos 0, c1, dp3) else panic ]
  ]
