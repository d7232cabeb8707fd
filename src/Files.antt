-- ===== src/Files.antt =====
-- The table of open files of file.c. `ftable.lock` makes each function one step.
pub mod Counts
mod Tests
use osassignment.Prelude.{
  ℕ, zero, suc, ◌+◌, ◌-◌, Bool, true, false, Option, none, some, ltb, ◌==◌, if◌then◌else◌, Outcome,
  ok, panic, ◌>>=◌, ◌>>◌, panic_if,
}

pub data FileType : Type 0 where
  fd_none fd_pipe fd_inode : FileType

-- The part of `struct file` that decides when it is closed.
pub record File : Type 0 where
  pub ref : ℕ
  pub ftype : FileType

abbrev pub nfile : ℕ
nfile = 100

abbrev pub Table : Type 0
Table = ℕ → File

abbrev pub put : Table → ℕ → File → Table
put t f x g = if g == f then x else t g

-- The loop of `filealloc`, over `n` files from `i` on.
unfoldable pub alloc_from : ℕ → ℕ → Table → Option ℕ × Table
alloc_from zero i t = (none, t)
alloc_from (suc n) i t =
    let rest : Option ℕ × Table = alloc_from n (i + 1) t in
    if (t i).ref == 0 then (some i, put t i (record (t i) { ref = 1 })) else rest

unfoldable pub filealloc : Table → Option ℕ × Table
unfolding alloc_from
filealloc t = alloc_from nfile 0 t

unfoldable pub filedup : Table → ℕ → Outcome Table
filedup t f = do panic_if (ltb (t f).ref 1); ok (put t f (record (t f) { ref = (t f).ref + 1 }))

-- With the last reference, what `ff.type` says is to be closed: the pipe, the inode, or nothing.
pub fileclose : Table → ℕ → Outcome (Table × Option FileType)
fileclose t f = do
  panic_if (ltb (t f).ref 1)
  (if ltb 0 ((t f).ref - 1)
      then ok (put t f (record (t f) { ref = (t f).ref - 1 }), none)
      else ok (put t f (record { ref = 0; ftype = fd_none }), some (t f).ftype))
