-- ===== src/Log/Ops/Room.antt =====
-- The room that `begin_op` keeps is enough for the operations that run.
use osassignment.Prelude.{
  ℕ, suc, ◌+◌, ◌≤◌, ◌≡◌, Bool, true, some, List, [], ◌∷◌, ◌++◌, truth, length, ok, All,
}
use osassignment.Log.Ops.{Log, begin_op, end_op, end_commit, log_write, log_size, max_op_blocks}

-- The log, and for each operation between `begin_op` and `end_op` how many blocks it may still write.
pub record World : Type 0 where
  pub log : Log
  pub ops : List ℕ

abbrev pub empty_log : ℕ → Log
empty_log size = record { size = size; outstanding = 0; committing = 0; lh = [] }

-- What the calls of any number of processes may lead to. An operation writes at most `MAXOPBLOCKS` blocks.
pub data Reachable (size : ℕ) : World → Type 0 where
  starts : Reachable size (record { log = empty_log size; ops = [] })
  begins :
      {w : World} (g : Log)
      → begin_op w.log ≡ some g
      → Reachable size w
      → Reachable size (record { log = g; ops = max_op_blocks ∷ w.ops })
  writes :
      {w : World} (g : Log) (xs ys : List ℕ) (r b : ℕ)
      → w.ops ≡ xs ++ suc r ∷ ys
      → log_write w.log b ≡ ok g
      → Reachable size w
      → Reachable size (record { log = g; ops = xs ++ r ∷ ys })
  ends :
      {w : World} (g : Log) (do_commit : Bool) (xs ys : List ℕ) (r : ℕ)
      → w.ops ≡ xs ++ r ∷ ys
      → end_op w.log ≡ ok (g, do_commit)
      → Reachable size w
      → Reachable size (record { log = g; ops = xs ++ ys })
  commits :
      {w : World}
      → truth w.log.committing ≡ true
      → Reachable size w
      → Reachable size (record { log = end_commit w.log; ops = w.ops })

abbrev pub total : List ℕ → ℕ
total [] = 0
total (x ∷ xs) = x + total xs

-- The blocks in the log and those that may still come fit, and nothing runs while a commit does.
pub record IsValid (size : ℕ) (w : World) : Type 0 where
  pub size_eq : w.log.size ≡ size
  pub count : w.log.outstanding ≡ length w.ops
  pub room : length w.log.lh + total w.ops ≤ log_size
  pub bounded : All (λ r. r ≤ max_op_blocks) w.ops
  pub alone : truth w.log.committing ≡ true → length w.ops ≡ 0
