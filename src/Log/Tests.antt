-- ===== src/Log/Tests.antt =====
-- A small log, and the theorems on it.
use osassignment.Prelude.{ℕ, ◌≡◌, refl, [], ◌∷◌, All, ◌⊎◌, ◌==◌, if◌then◌else◌, inr, arith}
use osassignment.Log.{Block, Disk, Sys, commit, recover_from_log, boot}
use osassignment.Log.Writes.{Outside}
use osassignment.Log.Recovery.{Recoverable}
use osassignment.Log.Atomic.{new_view, commit_atomic}
use osassignment.Log.Ops.{Log}
use osassignment.Log.Ops.Room.{empty_log}

-- two changed blocks, with room for `left` writes before the power fails
abbrev sys : ℕ → Sys
sys left = record {
  start = 2;
  cache = λ b i. b;
  disk = record { header = []; blocks = λ b i. 0 };
  left = left;
  lh = 100 ∷ 101 ∷ [];
}

named : All (Outside 2) (100 ∷ 101 ∷ [])
named = (inr (omega arith), (inr (omega arith), tt))

commit_atomic_example :
    ((recover_from_log
        (boot 2 (recover_from_log (boot 2 (commit (sys 4)).disk 1)).disk 30)).disk.header
      ≡ [])
    × (((b : ℕ)
          → Outside 2 b
          → (recover_from_log
                (boot 2 (recover_from_log (boot 2 (commit (sys 4)).disk 1)).disk 30)).disk.blocks
              b
            ≡ (sys 4).disk.blocks b)
        ⊎ ((b : ℕ)
            → Outside 2 b
            → (recover_from_log
                  (boot 2 (recover_from_log (boot 2 (commit (sys 4)).disk 1)).disk 30)).disk.blocks
                b
              ≡ new_view (sys 4) b))
commit_atomic_example = commit_atomic (sys 4) refl named (omega arith) 1 30 (omega arith)

-- a committed block 100 that is in the log, in block 3, and not yet at home
abbrev disk1 : Disk
disk1 = record { header = 100 ∷ []; blocks = λ b i. b }

abbrev view1 : ℕ → Block
view1 b i = if b == 100 then 3 else b

disk1-Recoverable : Recoverable 2 disk1 view1
disk1-Recoverable = record {
  named = (inr (omega arith), tt);
  fits = omega arith;
  slots = (refl, tt);
  home = λ b o m. ground arith;
}

abbrev log1 : Log
log1 = record (empty_log 30) { outstanding = 1 }

-- what the operation may still write, and the blocks of the log
abbrev left : ℕ
left = 10

abbrev area : ℕ
area = 30
