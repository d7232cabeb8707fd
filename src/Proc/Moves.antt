-- ===== src/Proc/Moves.antt =====
-- The steps of the process table that are calm: none begins a `wait` or an exit.
use osassignment.Prelude.{
  ℕ, zero, suc, ◌+◌, ◌<◌, ◌≡◌, refl, Bool, true, some, ◌==◌, if◌then◌else◌, Bool-cases,
  Option-cases, inl, inr, arith,
}
use osassignment.Kalloc.{Kmem, kalloc}
use osassignment.Proc.{
  ProcState, unused, embryo, runnable, sleeping, running, zombie, no_chan, object_chan, Proc, Table,
  nproc, is_sleeping, is_unused, is_runnable, find, allocproc, schedule, yield, sleep, sleep_end,
  kill,
}
use osassignment.Proc.Calm.{Calm, Calm-self, Calm-state, Calm-store, sleeping_state}

find-test :
    (test : Proc → Bool) (t : Table) (n i j : ℕ) → find test t n i ≡ some j → test (t j) ≡ true
unfolding find
find-test test t zero i j e = absurd (cc)
find-test test t (suc n) i j e = elim (Bool-cases (test (t i))) [
  | inl hit ↦ let same : i ≡ j = ground (arith, hit, e) in rw (← same) hit
  | inr miss ↦ find-test test t n (i + 1) j (ground (arith, miss, e))
]

unused_state : (s : ProcState) → is_unused s ≡ true → s ≡ unused
unused_state unused h = refl
unused_state embryo h = absurd (cc)
unused_state sleeping h = absurd (cc)
unused_state runnable h = absurd (cc)
unused_state running h = absurd (cc)
unused_state zombie h = absurd (cc)

runnable_state : (s : ProcState) → is_runnable s ≡ true → s ≡ runnable
runnable_state runnable h = refl
runnable_state embryo h = absurd (cc)
runnable_state sleeping h = absurd (cc)
runnable_state unused h = absurd (cc)
runnable_state running h = absurd (cc)
runnable_state zombie h = absurd (cc)

pub allocproc-Calm :
    (t : Table) (nextpid : ℕ) (k : Kmem) (j : ℕ) → Calm j (t j) ((allocproc t nextpid k).1 j)
unfolding allocproc
allocproc-Calm t nextpid k j = elim (Option-cases (find (λ p. is_unused p.state) t nproc 0)) [
  | inl full ↦ rw (full, allocproc) (Calm-self j (t j))
  | inr (i, e) ↦
      let free : (t i).state ≡ unused =
        unused_state (t i).state (find-test (λ p. is_unused p.state) t nproc 0 i e) in
      elim (Option-cases (kalloc k)) [
        | inl no_page ↦
            rw (e, no_page, allocproc)
              (Calm-store t i (record (t i) { pid = nextpid; kstack = 0 })
                (Calm-state i (t i) (record (t i) { pid = nextpid; kstack = 0 }) refl refl refl
                  (rw free refl))
                j)
        | inr (r, page) ↦
            rw (e, page, allocproc)
              (Calm-store t i (record (t i) { state = embryo; pid = nextpid; kstack = r.0 })
                (Calm-state i (t i) (record (t i) { state = embryo; pid = nextpid; kstack = r.0 })
                  refl (rw free refl) (rw free refl) refl)
                j)
      ]
]

pub schedule-Calm : (t : Table) (i j : ℕ) → Calm j (t j) (schedule t i j)
unfolding schedule
schedule-Calm t i j = elim (Bool-cases (is_runnable (t i).state)) [
  | inl ready ↦
      let s : (t i).state ≡ runnable = runnable_state (t i).state ready in
      rw ready (
        Calm-store t i (record (t i) { state = running })
          (Calm-state i (t i) (record (t i) { state = running }) refl (rw s refl) (rw s refl) refl)
          j)
  | inr other ↦ rw other (Calm-self j (t j))
]

pub yield-Calm : (t : Table) (cur j : ℕ) → (t cur).state ≡ running → Calm j (t j) (yield t cur j)
unfolding yield
yield-Calm t cur j s =
    Calm-store t cur (record (t cur) { state = runnable })
      (Calm-state cur (t cur) (record (t cur) { state = runnable }) refl (rw s refl) (rw s refl)
        refl)
      j

pub sleep-Calm :
    (t : Table) (cur a j : ℕ)
    → cur < nproc
    → (t cur).state ≡ running
    → Calm j (t j) (sleep t cur (object_chan a) j)
unfolding sleep
sleep-Calm t cur a j lt s =
    Calm-store t cur (record (t cur) { chan = object_chan a; state = sleeping })
      (record {
        parent_eq = refl;
        zombie_eq = rw s refl;
        settled_eq = rw s refl;
        waiting = λ w. absurd (cc);
        range = λ h w. absurd (omega arith);
      })
      j

pub sleep_end-Calm :
    (t : Table) (cur j : ℕ) → (t cur).state ≡ running → Calm j (t j) (sleep_end t cur j)
unfolding sleep_end
sleep_end-Calm t cur j s =
    Calm-store t cur (record (t cur) { chan = no_chan })
      (Calm-state cur (t cur) (record (t cur) { chan = no_chan }) refl refl refl (rw s refl)) j

pub kill-Calm : (t : Table) (pid j : ℕ) → Calm j (t j) ((kill t pid).0 j)
unfolding kill
kill-Calm t pid j = elim (Option-cases (find (λ p. p.pid == pid) t nproc 0)) [
  | inl none_there ↦ rw (none_there, kill) (Calm-self j (t j))
  | inr (i, e) ↦
      let p' : Proc = record (t i) {
        killed = 1;
        state = if is_sleeping (t i).state then runnable else (t i).state;
      } in
      rw (e, kill) (Calm-store t i p' (killed_calm i (t i)) j)
]
  where
    killed_calm :
        (i : ℕ) (p : Proc)
        → Calm i p
            (record p { killed = 1; state = if is_sleeping p.state then runnable else p.state })
    killed_calm i p = elim (Bool-cases (is_sleeping p.state)) [
      | inl busy ↦
          let s : p.state ≡ sleeping = sleeping_state p.state busy in
          rw busy (
            Calm-state i p (record p { killed = 1; state = runnable }) refl (rw s refl) (rw s refl)
              refl)
      | inr idle ↦ rw idle (Calm-state i p (record p { killed = 1 }) refl refl refl idle)
    ]
