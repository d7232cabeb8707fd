-- ===== src/Fs/Cache.antt =====
-- The inode cache of fs.c: `iget`, and `ilock`, `iunlock`, `iput` and `iunlockput` of an inode in the cache. An
-- inode in use is named by its number, for which at most one slot has references. `icache.lock` makes
-- each access to a count one step, and the sleep locks that other processes hold are waited for.
pub mod Refs
pub mod Kept
pub mod Taken
use osassignment.Prelude.{
  ℕ, ◌+◌, Bool, true, false, ◌&&◌, Option, none, some, List, [], ◌∷◌, ltb, ◌==◌, if◌then◌else◌,
  Outcome, ok, panic, fault, ◌>>=◌, ◌>>◌, panic_if,
}
use osassignment.Fs.{SuperBlock, Disk}
use osassignment.Fs.Inode.{Inode, FileState, ilock, iput}

abbrev pub Icache : Type 0
Icache = List Inode

-- `ip->ref > 0 && ip->inum == inum`
abbrev pub is_cached : ℕ → Inode → Bool
is_cached n ip = ltb 0 ip.ref && ip.inum == n

-- The slot that the number stands for, and the cache with another inode there.
unfoldable pub get_slot : Icache → ℕ → Option Inode
get_slot [] n = none
get_slot (x ∷ c) n = let rest = get_slot c n in if is_cached n x then some x else rest

unfoldable pub put_slot : Icache → ℕ → Inode → Icache
put_slot [] n ip = []
put_slot (x ∷ c) n ip = let rest = put_slot c n ip in if is_cached n x then ip ∷ c else x ∷ rest

-- The first slot without references is taken.
unfoldable pub recycle_inode : Icache → ℕ → Outcome Icache
recycle_inode [] n = panic
recycle_inode (x ∷ c) n =
    let rest = recycle_inode c n in
    if x.ref == 0
    then ok (record x { inum = n; ref = 1; valid = 0 } ∷ c)
    else (do c1 ← rest; ok (x ∷ c1))

unfoldable pub iget : Icache → ℕ → Outcome Icache
unfolding get_slot put_slot recycle_inode
iget c n = elim (get_slot c n) [
  | some ip ↦ ok (put_slot c n (record ip { ref = ip.ref + 1 }))
  | none ↦ recycle_inode c n
]

-- The disk, the cache, and the sleep locks that this process holds.
pub record FsState : Type 0 where
  pub disk : Disk
  pub cache : Icache
  pub locked : ℕ → Bool

abbrev pub set_lock : (ℕ → Bool) → ℕ → Bool → ℕ → Bool
set_lock locked n b m = if m == n then b else locked m

-- A process that waits for its own lock waits for ever, here a fault; a number without references is
-- a pointer that `ilock` refuses.
unfoldable pub lock_inode : SuperBlock → FsState → ℕ → Outcome FsState
unfolding get_slot put_slot
lock_inode sb s n = elim (get_slot s.cache n) [
  | none ↦ panic
  | some ip ↦ elim (s.locked n) [
    | true ↦ fault
    | false ↦ do
      ip1 ← ilock sb s.disk ip
      ok (record s { cache = put_slot s.cache n ip1; locked = set_lock s.locked n true })
  ]
]

unfoldable pub iunlock : FsState → ℕ → Outcome FsState
unfolding get_slot
iunlock s n = elim (s.locked n) [
  | false ↦ panic
  | true ↦ elim (get_slot s.cache n) [
    | none ↦ panic
    | some ip ↦ ok (record s { locked = set_lock s.locked n false })
  ]
]

-- `iput` has the lock for the time of the call. A number without references would take a count below 0.
unfoldable pub put_inode : SuperBlock → FsState → ℕ → Outcome FsState
unfolding get_slot put_slot
put_inode sb s n = elim (s.locked n) [
  | true ↦ fault
  | false ↦ elim (get_slot s.cache n) [
    | none ↦ fault
    | some ip ↦ do
      t ← iput sb (record { disk = s.disk; ip = ip })
      ok (record s { disk = t.disk; cache = put_slot s.cache n t.ip })
  ]
]

unfoldable pub iunlockput : SuperBlock → FsState → ℕ → Outcome FsState
unfolding iunlock put_inode
iunlockput sb s n = do s1 ← iunlock s n; put_inode sb s1 n
