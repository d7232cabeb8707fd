-- ===== src/Proc/Steps.antt =====
-- Every order of the steps of all processes.
use mathlib.Core.Path.{subst}
use osassignment.Prelude.{
  ok_injective, ℕ, ◌<◌, ◌≡◌, ◌≢◌, refl, sym, ap, ◌∙◌, true, false, none, ◌==◌, Bool-cases, inl, inr,
  ok, arith,
}
use osassignment.Kalloc.{Kmem}
use osassignment.Proc.{
  unused, embryo, runnable, running, Chan, no_chan, object_chan, Proc, Table, nproc, store,
  allocproc, fork_child, wakeup1, exit, wait, schedule, yield, sleep, sleep_end, kill,
}
use osassignment.Proc.Calm.{is_settled, IsValid, Calm-IsValid, wakeup1-Calm}
use osassignment.Proc.Moves.{
  allocproc-Calm, schedule-Calm, yield-Calm, sleep-Calm, sleep_end-Calm, kill-Calm,
}
use osassignment.Proc.Exit.{exit-IsValid}
use osassignment.Proc.Wait.{wait-IsValid}

fork_child-IsValid :
    {init : ℕ} (t : Table) (cur np pgdir : ℕ)
    → (t cur).state ≡ running
    → (t np).state ≡ embryo
    → IsValid init t
    → IsValid init (fork_child t cur np pgdir)
unfolding fork_child
fork_child-IsValid {init} t cur np pgdir r e v = record {
  heard = λ q j lt h d. elim (Bool-cases (j == np)) [
    | inl same ↦ absurd (ground (arith, same, d))
    | inr other ↦ elim (Bool-cases (q == np)) [
      | inl new ↦ rw new refl
      | inr old ↦ rw old (v.heard q j lt (rw other at h) (rw other at d))
    ]
  ];
  no_self = λ j. elim (Bool-cases (j == np)) [
    | inl same ↦
        let apart : cur == j ≡ false = elim (Bool-cases (cur == j)) [
          | inr ne ↦ ne
          | inl eq ↦
              let one : cur ≡ np = ground arith in
              let both : (t np).state ≡ running = rw (← one) r in
              absurd (states_apart (sym both ∙ e))
        ] in
        rw same apart
    | inr other ↦ rw other (v.no_self j)
  ];
  orphan = rw settled v.orphan;
  alive = rw settled v.alive;
  range = λ j h. elim (Bool-cases (j == np)) [
    | inl same ↦ rw same refl
    | inr other ↦ rw other (v.range j h)
  ];
}
  where
    states_apart : running ≢ embryo
    states_apart h = let no : is_settled running ≡ is_settled embryo = ap is_settled h in cc

    settled : init == np ≡ false
    settled = elim (Bool-cases (init == np)) [
      | inr ne ↦ ne
      | inl eq ↦
          let one : init ≡ np = ground arith in
          let live : is_settled (t np).state ≡ true = rw (← one) v.alive in
          let dead : is_settled (t np).state ≡ false = ap is_settled e in cc
    ]

-- The table when `userinit` has made the process `init`, in the slot that `allocproc` has found.
abbrev pub no_proc : Proc
no_proc = record {
  state = unused;
  pid = 0;
  parent = none;
  chan = no_chan;
  killed = 0;
  kstack = 0;
  pgdir = 0;
}

abbrev pub boot_table : ℕ → ℕ → ℕ → Table
boot_table init kstack pgdir =
    store (λ _. no_proc) init
      (record no_proc { state = runnable; pid = 1; kstack = kstack; pgdir = pgdir })

-- The tables that any steps of the processes lead to. A process that makes a step runs; others take
-- no step. Only `wait` sleeps on the address of a process.
pub data Reached (init : ℕ) : Table → Type 0 where
  boots : (kstack pgdir : ℕ) → Reached init (boot_table init kstack pgdir)
  allocates :
      {t : Table} (nextpid : ℕ) (k : Kmem) → Reached init t → Reached init (allocproc t nextpid k).1
  forks :
      {t : Table} (cur np pgdir : ℕ)
      → (t cur).state ≡ running
      → (t np).state ≡ embryo
      → Reached init t
      → Reached init (fork_child t cur np pgdir)
  wakes : {t : Table} (c : Chan) → Reached init t → Reached init (wakeup1 t c)
  exits :
      {t t' : Table} (cur : ℕ)
      → cur ≢ init
      → exit init t cur ≡ ok t'
      → Reached init t
      → Reached init t'
  waits_for :
      {t : Table} (cur : ℕ)
      → cur < nproc
      → (t cur).state ≡ running
      → Reached init t
      → Reached init (wait t cur).0
  schedules : {t : Table} (i : ℕ) → Reached init t → Reached init (schedule t i)
  yields :
      {t : Table} (cur : ℕ) → (t cur).state ≡ running → Reached init t → Reached init (yield t cur)
  falls_asleep :
      {t : Table} (cur a : ℕ)
      → cur < nproc
      → (t cur).state ≡ running
      → Reached init t
      → Reached init (sleep t cur (object_chan a))
  wakes_up :
      {t : Table} (cur : ℕ)
      → (t cur).state ≡ running
      → Reached init t
      → Reached init (sleep_end t cur)
  kills : {t : Table} (pid : ℕ) → Reached init t → Reached init (kill t pid).0

boot_table-IsValid : (init kstack pgdir : ℕ) → IsValid init (boot_table init kstack pgdir)
boot_table-IsValid init kstack pgdir =
    let self : init == init ≡ true = ground arith in
    record {
      heard = λ q i lt h z. absurd (elim (Bool-cases (i == init)) [
        | inl same ↦ ground (arith, same, h)
        | inr other ↦ ground (arith, other, h)
      ]);
      no_self = λ i. ground arith;
      orphan = rw self refl;
      alive = rw self refl;
      range = λ i h. ground arith;
    }

-- In every order of these steps no process sleeps in `wait` while it has a zombie child, and `initproc`
-- stays alive.
pub Reached-IsValid : {init : ℕ} {t : Table} → Reached init t → IsValid init t
Reached-IsValid {init} (boots kstack pgdir) = boot_table-IsValid init kstack pgdir
Reached-IsValid (allocates {t} nextpid k r) =
    Calm-IsValid (allocproc-Calm t nextpid k) (Reached-IsValid r)
Reached-IsValid (forks {t} cur np pgdir run new r) =
    fork_child-IsValid t cur np pgdir run new (Reached-IsValid r)
Reached-IsValid (wakes {t} c r) = Calm-IsValid (wakeup1-Calm t c) (Reached-IsValid r)
Reached-IsValid {init} (exits {t} {t'} cur ne e r) =
    let (u, eq, v, dead, kids) = exit-IsValid init t cur ne (Reached-IsValid r) in
    let same : ok u ≡ ok t' = sym eq ∙ e in subst (IsValid init) (ok_injective same) v
Reached-IsValid {init} (waits_for {t} cur lt run r) =
    (wait-IsValid init t cur lt (rw run refl) (Reached-IsValid r)).1
Reached-IsValid (schedules {t} i r) = Calm-IsValid (schedule-Calm t i) (Reached-IsValid r)
Reached-IsValid (yields {t} cur run r) =
    Calm-IsValid (λ j. yield-Calm t cur j run) (Reached-IsValid r)
Reached-IsValid (falls_asleep {t} cur a lt run r) =
    Calm-IsValid (λ j. sleep-Calm t cur a j lt run) (Reached-IsValid r)
Reached-IsValid (wakes_up {t} cur run r) =
    Calm-IsValid (λ j. sleep_end-Calm t cur j run) (Reached-IsValid r)
Reached-IsValid (kills {t} pid r) = Calm-IsValid (kill-Calm t pid) (Reached-IsValid r)
