-- ===== src/Proc.antt =====
-- The process table of proc.c. A process is its index in `ptable.proc`, and `ptable.lock` makes each
-- function here one step: up to `sched`, where the process has set its new state.
pub mod Calm
pub mod Waiting
pub mod Exit
pub mod Wait
pub mod Moves
pub mod Steps
mod Tests
use osassignment.Prelude.{
  ℕ, zero, suc, ◌+◌, ◌%◌, ◌^◌, Bool, true, false, not, ◌&&◌, ◌||◌, Option, none, some, ltb, ◌==◌,
  truth, if◌then◌else◌, Outcome, ok, panic,
}
use osassignment.Kalloc.{Kmem, kalloc}

pub data ProcState : Type 0 where
  unused embryo sleeping runnable running zombie : ProcState

-- An address to sleep on: none, that of a process, or that of another object.
pub data Chan : Type 0 where
  no_chan : Chan
  proc_chan object_chan : ℕ → Chan

abbrev pub same_chan : Chan → Chan → Bool
same_chan no_chan no_chan = true
same_chan (proc_chan i) (proc_chan j) = i == j
same_chan (object_chan a) (object_chan b) = a == b
same_chan c d = false

-- The part of `struct proc` that these functions use. `parent` is `none` for the null pointer.
pub record Proc : Type 0 where
  pub state : ProcState
  pub pid : ℕ
  pub parent : Option ℕ
  pub chan : Chan
  pub killed : ℕ
  pub kstack : ℕ
  pub pgdir : ℕ

abbrev pub nproc : ℕ
nproc = 64

abbrev pub Table : Type 0
Table = ℕ → Proc

abbrev pub is_unused : ProcState → Bool
is_unused unused = true
is_unused s = false

abbrev pub is_sleeping : ProcState → Bool
is_sleeping sleeping = true
is_sleeping s = false

abbrev pub is_runnable : ProcState → Bool
is_runnable runnable = true
is_runnable s = false

abbrev pub is_zombie : ProcState → Bool
is_zombie zombie = true
is_zombie s = false

-- `p->parent == q`
abbrev pub is_child : ℕ → Proc → Bool
is_child q p = elim p.parent [ none ↦ false | some r ↦ r == q ]

abbrev pub store : Table → ℕ → Proc → Table
store t i p j = if j == i then p else t j

-- The first index with a property, over `n` indices from `i` on.
pub find : (Proc → Bool) → Table → ℕ → ℕ → Option ℕ
find test t zero i = none
find test t (suc n) i =
    let rest : Option ℕ = find test t n (i + 1) in if test (t i) then some i else rest

-- `allocproc`, with the table, `nextpid` and the pages; the contents of the stack are left out. With no
-- page for the stack the slot is unused again, and keeps the pid.
pub allocproc : Table → ℕ → Kmem → Option ℕ × Table × ℕ × Kmem
unfolding find
allocproc t nextpid k = elim (find (λ p. is_unused p.state) t nproc 0) [
  | none ↦ (none, t, nextpid, k)
  | some i ↦ elim (kalloc k) [
    | none ↦ (none, store t i (record (t i) { pid = nextpid; kstack = 0 }), nextpid + 1, k)
    | some (stack, k') ↦ (
      some i,
      store t i (record (t i) { state = embryo; pid = nextpid; kstack = stack }),
      nextpid + 1,
      k',
    )
  ]
]

-- The end of `fork`: what it writes into the slot `np` that `allocproc` has found, with the page
-- directory that `copyuvm` has made.
pub fork_child : Table → ℕ → ℕ → ℕ → Table
fork_child t cur np pgdir =
    store t np (record (t np) { state = runnable; parent = some cur; pgdir = pgdir })

pub wakeup1 : Table → Chan → Table
wakeup1 t c i =
    if ltb i nproc && (is_sleeping (t i).state && same_chan (t i).chan c)
    then record (t i) { state = runnable }
    else t i

-- The loop of `exit` that passes the children to `initproc`, over `n` indices from `i` on.
pub reparent : ℕ → ℕ → ℕ → ℕ → Table → Table
unfolding wakeup1
reparent init cur zero i t = t
reparent init cur (suc n) i t =
    let t1 : Table = store t i (record (t i) { parent = some init }) in
    let t2 : Table = if is_zombie (t i).state then wakeup1 t1 (proc_chan init) else t1 in
    reparent init cur n (i + 1) (if is_child cur (t i) then t2 else t)

-- `wakeup1(curproc->parent)`; the null pointer is no address of a process.
abbrev pub wake_parent : Table → Option ℕ → Table
wake_parent t none = wakeup1 t no_chan
wake_parent t (some q) = wakeup1 t (proc_chan q)

-- `exit`: its test, and its part under `ptable.lock`.
pub exit : ℕ → Table → ℕ → Outcome Table
unfolding reparent
exit init t cur =
    if cur == init
    then panic
    else let t1 : Table = reparent init cur nproc 0 (wake_parent t (t cur).parent) in
      ok (store t1 cur (record (t1 cur) { state = zombie }))

-- A round of `wait` returns a pid, with the stack and the page directory that it frees; it returns -1;
-- or it sleeps.
pub data WaitEnd : Type 0 where
  reaped : ℕ → ℕ → ℕ → WaitEnd
  no_child : WaitEnd
  waits : WaitEnd

-- The scan of `wait`: the first zombie child, and else whether there are children.
pub data Scan : Type 0 where
  found : ℕ → Scan
  none_found : Bool → Scan

pub wait_scan : Table → ℕ → ℕ → ℕ → Bool → Scan
wait_scan t cur zero i havekids = none_found havekids
wait_scan t cur (suc n) i havekids = elim (is_child cur (t i)) [
  | false ↦ wait_scan t cur n (i + 1) havekids
  | true ↦ elim (is_zombie (t i).state) [ true ↦ found i | false ↦ wait_scan t cur n (i + 1) true ]
]

abbrev pub free_slot : Proc → Proc
free_slot p = record p { kstack = 0; pid = 0; parent = none; killed = 0; state = unused }

pub wait : Table → ℕ → Table × WaitEnd
unfolding wait_scan
wait t cur = elim (wait_scan t cur nproc 0 false) [
  | found i ↦ (store t i (free_slot (t i)), reaped (t i).pid (t i).kstack (t i).pgdir)
  | none_found havekids ↦
      if not havekids || truth (t cur).killed
      then (t, no_child)
      else (store t cur (record (t cur) { chan = proc_chan cur; state = sleeping }), waits)
]

-- A round of the scheduler's loop on the process `i`.
pub schedule : Table → ℕ → Table
schedule t i = if is_runnable (t i).state then store t i (record (t i) { state = running }) else t

pub yield : Table → ℕ → Table
yield t cur = store t cur (record (t cur) { state = runnable })

-- `sleep` up to `sched`, and its end.
pub sleep : Table → ℕ → Chan → Table
sleep t cur c = store t cur (record (t cur) { chan = c; state = sleeping })

pub sleep_end : Table → ℕ → Table
sleep_end t cur = store t cur (record (t cur) { chan = no_chan })

-- The truth value is false for the result -1.
pub kill : Table → ℕ → Table × Bool
unfolding find
kill t pid = elim (find (λ p. p.pid == pid) t nproc 0) [
  | none ↦ (t, false)
  | some i ↦ (
    store t i (record (t i) {
      killed = 1;
      state = if is_sleeping (t i).state then runnable else (t i).state;
    }),
    true,
  )
]
