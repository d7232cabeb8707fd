-- ===== src/Fs/Path.antt =====
-- Paths: `skipelem` and `namex` of fs.c, on the disk, the inode cache and the locks that this process has,
-- and the swap file's name, `itoa`.
pub mod Segments
pub mod Held
pub mod Walk
pub mod Number
mod Tests
use osassignment.Prelude.{
  ℕ, zero, suc, ◌+◌, ◌-◌, ◌*◌, ◌/◌, ◌%◌, Bool, true, false, ◌&&◌, ◌||◌, Option, none, some, List,
  [], ◌∷◌, ltb, ◌==◌, if◌then◌else◌, length, take, Outcome, ok, panic, fault, ◌>>=◌, ◌>>◌, panic_if,
}
use osassignment.Fs.{SuperBlock}
use osassignment.Fs.Inode.{Inode, t_dir}
use osassignment.Fs.Data.{Device}
use osassignment.Fs.Cache.{
  Icache, FsState, get_slot, put_slot, iget, lock_inode, iunlock, put_inode, iunlockput,
}
use osassignment.Fs.Dir.{dirsiz, dirlookup}

-- `while(*path == '/') path++`
unfoldable pub skip_slashes : List ℕ → List ℕ
skip_slashes [] = []
skip_slashes (c ∷ p) = let rest = skip_slashes p in if c == b'/' then rest else c ∷ p

-- `while(*path != '/' && *path != 0) path++`: what is passed and what is left.
unfoldable pub span_elem : List ℕ → List ℕ × List ℕ
span_elem [] = ([], [])
span_elem (c ∷ p) =
    let rest = span_elem p in if c == b'/' then ([], c ∷ p) else (c ∷ rest.0, rest.1)

-- The rest of the path and the name, cut to DIRSIZ bytes.
unfoldable pub skipelem : List ℕ → Option (List ℕ × List ℕ)
unfolding skip_slashes span_elem
skipelem path = elim (skip_slashes path) [
  | [] ↦ none
  | c ∷ p ↦ let s = span_elem (c ∷ p) in some (skip_slashes s.1, take dirsiz s.0)
]

abbrev first_of : Option (ℕ × ℕ) → Option ℕ
first_of none = none
first_of (some e) = some e.0

abbrev pub is_nil : List ℕ → Bool
is_nil [] = true
is_nil (c ∷ p) = false

-- The fields of an inode, other than the count, go back into its slot.
unfoldable pub store_slot : Icache → ℕ → Inode → Icache
unfolding get_slot put_slot
store_slot c n ip = elim (get_slot c n) [
  | none ↦ c
  | some old ↦ put_slot c n (record ip { ref = old.ref })
]

-- `dirlookup` in the locked directory `n`, whose fields are `dp`.
unfoldable pub lookup_in :
    SuperBlock → (ℕ → Device) → FsState → ℕ → Inode → List ℕ → Outcome (Option ℕ × FsState)
unfolding dirlookup store_slot
lookup_in sb devsw s n dp elem = do
  (found, c1, dp1) ← dirlookup sb devsw s.cache (record { disk = s.disk; ip = dp }) elem
  ok (first_of found, record s { disk = dp1.disk; cache = store_slot c1 n dp1.ip })

-- The loop of `namex`, and what follows it.
unfoldable pub namex_loop :
    ℕ
    → SuperBlock
    → (ℕ → Device)
    → FsState
    → ℕ
    → List ℕ
    → List ℕ
    → Bool
    → Outcome (Option ℕ × List ℕ × FsState)
unfolding skipelem lock_inode iunlock put_inode iunlockput lookup_in get_slot
namex_loop zero sb devsw s ip path name parent = fault
namex_loop (suc fuel) sb devsw s ip path name parent = elim (skipelem path) [
  | none ↦ elim parent [
    | true ↦ do s1 ← put_inode sb s ip; ok (none, name, s1)
    | false ↦ ok (some ip, name, s)
  ]
  | some (rest, elem) ↦ do
    s1 ← lock_inode sb s ip
    elim (get_slot s1.cache ip) [
      | none ↦ fault
      | some dp ↦ elim (dp.itype == t_dir) [
        | false ↦ do s2 ← iunlockput sb s1 ip; ok (none, elem, s2)
        | true ↦ elim (parent && is_nil rest) [
          | true ↦ do s2 ← iunlock s1 ip; ok (some ip, elem, s2)
          | false ↦ do
            (found, s2) ← lookup_in sb devsw s1 ip dp elem
            s3 ← iunlockput sb s2 ip
            elim found [
              | none ↦ ok (none, elem, s3)
              | some next ↦ namex_loop fuel sb devsw s3 next rest elem parent
            ]
        ]
      ]
    ]
]

abbrev pub rootino : ℕ
rootino = 1

abbrev pub starts_at_root : List ℕ → Bool
starts_at_root [] = false
starts_at_root (c ∷ p) = c == b'/'

-- `idup`, of an inode that has a reference.
unfoldable pub idup : Icache → ℕ → Outcome Icache
unfolding get_slot put_slot
idup c n = elim (get_slot c n) [
  | none ↦ fault
  | some ip ↦ ok (put_slot c n (record ip { ref = ip.ref + 1 }))
]

unfoldable pub namex :
    SuperBlock → (ℕ → Device) → FsState → ℕ → List ℕ → Bool → Outcome (Option ℕ × List ℕ × FsState)
unfolding namex_loop idup iget
namex sb devsw s cwd path parent = do
  c ← (if starts_at_root path then iget s.cache rootino else idup s.cache cwd)
  namex_loop (length path + 1) sb devsw (record s { cache = c })
      (if starts_at_root path then rootino else cwd) path [] parent

pub namei : SuperBlock → (ℕ → Device) → FsState → ℕ → List ℕ → Outcome (Option ℕ × List ℕ × FsState)
unfolding namex
namei sb devsw s cwd path = namex sb devsw s cwd path false

pub nameiparent :
    SuperBlock → (ℕ → Device) → FsState → ℕ → List ℕ → Outcome (Option ℕ × List ℕ × FsState)
unfolding namex
nameiparent sb devsw s cwd path = namex sb devsw s cwd path true

-- The digits of `itoa`, the highest first.
unfoldable pub itoa_digits : ℕ → ℕ → List ℕ → List ℕ
itoa_digits zero i buf = buf
itoa_digits (suc n) i buf =
    let rest = itoa_digits n (i / 10) ((48 + i % 10) ∷ buf) in
    if i / 10 == 0 then (48 + i % 10) ∷ buf else rest

-- `itoa` for a number that is not negative, as every pid; a pid has at most ten digits.
unfoldable pub itoa : ℕ → List ℕ
unfolding itoa_digits
itoa i = itoa_digits 10 i []

-- The path of the swap file of a process, `memmove(path, "/.swap", 6); itoa(p->pid, path + 6)`.
unfoldable pub swap_path : ℕ → List ℕ
unfolding itoa
swap_path pid = b'/' ∷ b'.' ∷ b's' ∷ b'w' ∷ b'a' ∷ b'p' ∷ itoa pid
