-- ===== src/Log/Ops.antt =====
-- log.c: which operations may run, `begin_op`, `end_op` and `log_write`. `log.lock` makes each call one
-- step, and a call that sleeps tests again when it wakes up.
pub mod Room
use osassignment.Prelude.{
  ℕ, zero, suc, ◌+◌, ◌-◌, ◌*◌, Bool, true, false, ◌||◌, Option, none, some, List, [], ◌∷◌, ltb, leb,
  ◌==◌, truth, if◌then◌else◌, length, Outcome, ok, panic, fault, ◌>>=◌, ◌>>◌, panic_if,
}

abbrev pub log_size : ℕ
log_size = 30

abbrev pub max_op_blocks : ℕ
max_op_blocks = 10

-- `lh` is the first `n` of the header's block numbers, and `size` is the superblock's `nlog`.
pub record Log : Type 0 where
  pub size : ℕ
  pub outstanding : ℕ
  pub committing : ℕ
  pub lh : List ℕ

-- `none` if the caller sleeps.
unfoldable pub begin_op : Log → Option Log
begin_op g =
    if truth g.committing
    then none
    else if ltb log_size (length g.lh + (g.outstanding + 1) * max_op_blocks)
    then none
    else some (record g { outstanding = g.outstanding + 1 })

-- The truth value is `do_commit`. A call without a `begin_op`, which would take the count below 0, is
-- a fault.
pub end_op : Log → Outcome (Log × Bool)
end_op g = elim g.outstanding [
  | zero ↦ fault
  | suc n ↦ do
    panic_if (truth g.committing)
    (if n == 0
        then ok (record g { outstanding = 0; committing = 1 }, true)
        else ok (record g { outstanding = n }, false))
]

-- What `end_op` does after `commit`, which has set `n` to 0.
pub end_commit : Log → Log
end_commit g = record g { committing = 0; lh = [] }

-- The loop and the store of `log_write`: a block that is there already is not added again.
pub absorb : List ℕ → ℕ → List ℕ
absorb [] b = b ∷ []
absorb (x ∷ xs) b = let rest : List ℕ = absorb xs b in if x == b then b ∷ xs else x ∷ rest

-- `n >= size - 1` is a test of C integers, true for the size 0.
pub log_write : Log → ℕ → Outcome Log
unfolding absorb
log_write g b = do
  panic_if (leb log_size (length g.lh) || leb g.size (length g.lh + 1))
  panic_if (ltb g.outstanding 1)
  ok (record g { lh = absorb g.lh b })
