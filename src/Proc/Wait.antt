-- ===== src/Proc/Wait.antt =====
-- `wait`: what it returns, and that it sleeps only without a zombie child.
use osassignment.Prelude.{
  ℕ, zero, suc, ◌+◌, ◌≤◌, ◌<◌, ◌≡◌, refl, Bool, true, false, ◌==◌, truth, ◌⊎◌, Bool-cases, inl, inr,
  arith,
}
use osassignment.Proc.{
  ProcState, unused, embryo, runnable, sleeping, running, zombie, proc_chan, Table, nproc,
  is_zombie, is_child, store, wait, wait_scan, WaitEnd, reaped, no_child, waits, Scan, found,
  none_found, free_slot,
}
use osassignment.Proc.Calm.{is_settled, IsValid}

wait_scan-kids :
    (t : Table) (cur n i : ℕ) (kids' : Bool)
    → wait_scan t cur n i true ≡ none_found kids'
    → kids' ≡ true
unfolding wait_scan
wait_scan-kids t cur zero i kids' e = cc
wait_scan-kids t cur (suc n) i kids' e = elim (Bool-cases (is_child cur (t i))) [
  | inr other ↦ wait_scan-kids t cur n (i + 1) kids' (rw (other, wait_scan) at e)
  | inl child ↦ elim (Bool-cases (is_zombie (t i).state)) [
    | inl dead ↦ absurd (ground (arith, child, dead, e))
    | inr alive ↦ wait_scan-kids t cur n (i + 1) kids' (rw (child, alive, wait_scan) at e)
  ]
]

wait_scan-none :
    (t : Table) (cur n i : ℕ) (kids kids' : Bool)
    → wait_scan t cur n i kids ≡ none_found kids'
    → (j : ℕ) → i ≤ j
    → j < i + n
    → is_child cur (t j) ≡ true
    → (is_zombie (t j).state ≡ false) × (kids' ≡ true)
unfolding wait_scan
wait_scan-none t cur zero i kids kids' e j l h c = absurd (omega arith)
wait_scan-none t cur (suc n) i kids kids' e j l h c = elim (Bool-cases (is_child cur (t i))) [
  | inr other ↦ elim (Bool-cases (j == i)) [
    | inl same ↦ absurd (
        let here : j ≡ i = ground arith in
        let no : is_child cur (t j) ≡ false = rw here other in cc)
    | inr later ↦
        wait_scan-none t cur n (i + 1) kids kids' (rw (other, wait_scan) at e) j (ground arith)
          (omega arith) c
  ]
  | inl child ↦ elim (Bool-cases (is_zombie (t i).state)) [
    | inl dead ↦ absurd (ground (arith, child, dead, e))
    | inr alive ↦
        let rest = rw (child, alive, wait_scan) at e in
        elim (Bool-cases (j == i)) [
          | inl same ↦
              let here : j ≡ i = ground arith in
              (rw here alive, wait_scan-kids t cur n (i + 1) kids' rest)
          | inr later ↦
              wait_scan-none t cur n (i + 1) true kids' rest j (ground arith) (omega arith) c
        ]
  ]
]

wait_scan-found :
    (t : Table) (cur n i : ℕ) (kids : Bool) (j : ℕ)
    → wait_scan t cur n i kids ≡ found j
    → (is_child cur (t j) ≡ true) × (is_zombie (t j).state ≡ true) × (j < i + n)
unfolding wait_scan
wait_scan-found t cur zero i kids j e = absurd (cc)
wait_scan-found t cur (suc n) i kids j e = elim (Bool-cases (is_child cur (t i))) [
  | inr other ↦
      let r = wait_scan-found t cur n (i + 1) kids j (rw (other, wait_scan) at e) in
      (r.0, r.1, omega (arith, r.2))
  | inl child ↦ elim (Bool-cases (is_zombie (t i).state)) [
    | inl dead ↦
        let stop : i ≡ j = ground (arith, child, dead, e) in
        (rw (← stop) child, rw (← stop) dead, omega arith)
    | inr alive ↦
        let r = wait_scan-found t cur n (i + 1) true j (rw (child, alive, wait_scan) at e) in
        (r.0, r.1, omega (arith, r.2))
  ]
]

zombie_unsettled : (s : ProcState) → is_zombie s ≡ true → is_settled s ≡ false
zombie_unsettled zombie h = refl
zombie_unsettled unused h = refl
zombie_unsettled embryo h = refl
zombie_unsettled sleeping h = absurd (cc)
zombie_unsettled runnable h = absurd (cc)
zombie_unsettled running h = absurd (cc)

free-IsValid :
    {init : ℕ} (t : Table) (i : ℕ)
    → is_zombie (t i).state ≡ true
    → IsValid init t
    → IsValid init (store t i (free_slot (t i)))
free-IsValid {init} t i z v = record {
  heard = λ q j lt h d. elim (Bool-cases (j == i)) [
    | inl same ↦ absurd (ground (arith, same, h))
    | inr other ↦ elim (Bool-cases (q == i)) [
      | inl freed ↦ rw freed refl
      | inr kept ↦ rw kept (v.heard q j lt (rw other at h) (rw other at d))
    ]
  ];
  no_self = λ j. elim (Bool-cases (j == i)) [
    | inl same ↦ rw same refl
    | inr other ↦ rw other (v.no_self j)
  ];
  orphan = rw away v.orphan;
  alive = rw away v.alive;
  range = λ j h. elim (Bool-cases (j == i)) [
    | inl same ↦ rw same refl
    | inr other ↦ rw other (v.range j h)
  ];
}
  where
    away : init == i ≡ false
    away = elim (Bool-cases (init == i)) [
      | inr other ↦ other
      | inl same ↦
          let e : init ≡ i = ground arith in
          let live : is_settled (t i).state ≡ true = rw (← e) v.alive in
          let dead : is_settled (t i).state ≡ false = zombie_unsettled (t i).state z in cc
    ]

abbrev pub asleep : Table → ℕ → Table
asleep t cur = store t cur (record (t cur) { chan = proc_chan cur; state = sleeping })

asleep-IsValid :
    {init : ℕ} (t : Table) (cur : ℕ)
    → cur < nproc
    → is_settled (t cur).state ≡ true
    → ((j : ℕ) → j < nproc → is_child cur (t j) ≡ true → is_zombie (t j).state ≡ false)
    → IsValid init t
    → IsValid init (asleep t cur)
asleep-IsValid {init} t cur lt s none_dead v = record {
  heard = λ q j l h d. elim (Bool-cases (j == cur)) [
    | inl same ↦ absurd (ground (arith, same, d))
    | inr other ↦
        let child : is_child q (t j) ≡ true = rw other at h in
        let dead : is_zombie (t j).state ≡ true = rw other at d in
        elim (Bool-cases (q == cur)) [
          | inl mine ↦
              absurd
                (let e : q ≡ cur = ground arith in let no = none_dead j l (rw e at child) in cc)
          | inr left ↦ rw left (v.heard q j l child dead)
        ]
  ];
  no_self = λ j. elim (Bool-cases (j == cur)) [
    | inl same ↦ let e : j ≡ cur = ground arith in rw (same, e) (v.no_self cur)
    | inr other ↦ rw other (v.no_self j)
  ];
  orphan = elim (Bool-cases (init == cur)) [
    | inl same ↦ let e : init ≡ cur = ground arith in rw (same, ← e) v.orphan
    | inr other ↦ rw other v.orphan
  ];
  alive = elim (Bool-cases (init == cur)) [
    | inl same ↦ rw same refl
    | inr other ↦ rw other v.alive
  ];
  range = λ j h. elim (Bool-cases (j == cur)) [
    | inl same ↦ absurd (ground arith)
    | inr other ↦ rw other (v.range j h)
  ];
}

-- How a round of `wait` ends: it frees a zombie child; or it has none, and it returns -1 if it is killed
-- or has no child, and sleeps if not.
pub data Waited (t : Table) (cur : ℕ) : Table × WaitEnd → Type 0 where
  frees :
      (i : ℕ)
      → i < nproc
      → is_child cur (t i) ≡ true
      → is_zombie (t i).state ≡ true
      → Waited t cur (store t i (free_slot (t i)), reaped (t i).pid (t i).kstack (t i).pgdir)
  fails :
      ((j : ℕ) → j < nproc → is_child cur (t j) ≡ true → is_zombie (t j).state ≡ false)
      → (truth (t cur).killed ≡ true) ⊎ ((j : ℕ) → j < nproc → is_child cur (t j) ≡ false)
      → Waited t cur (t, no_child)
  sleeps :
      ((j : ℕ) → j < nproc → is_child cur (t j) ≡ true → is_zombie (t j).state ≡ false)
      → truth (t cur).killed ≡ false
      → Waited t cur (asleep t cur, waits)

scan_cases : (s : Scan) → ((i : ℕ) × (s ≡ found i)) ⊎ ((k : Bool) × (s ≡ none_found k))
scan_cases (found i) = inl (i, refl)
scan_cases (none_found k) = inr (k, refl)

-- A round of `wait` of a running process ends in one of these ways, and leaves no process asleep in
-- `wait` with a zombie child.
pub wait-IsValid :
    (init : ℕ) (t : Table) (cur : ℕ)
    → cur < nproc
    → is_settled (t cur).state ≡ true
    → IsValid init t
    → Waited t cur (wait t cur) × IsValid init (wait t cur).0
unfolding wait
wait-IsValid init t cur lt s v = elim (scan_cases (wait_scan t cur nproc 0 false)) [
  | inl (i, e) ↦
      let r = wait_scan-found t cur nproc 0 false i e in
      (rw (e, wait) (frees i (omega (arith, r.2)) r.0 r.1), rw (e, wait) (free-IsValid t i r.1 v))
  | inr (kids, e) ↦
      let none_dead : (j : ℕ)
          → j < nproc
          → is_child cur (t j) ≡ true
          → is_zombie (t j).state ≡ false =
        λ j l c. (wait_scan-none t cur nproc 0 false kids e j (omega arith) (omega arith) c).0 in
      elim (Bool-cases kids) [
        | inr no_kid ↦ (
          rw (e, no_kid, wait)
              (fails none_dead (
                inr (λ j l. elim (Bool-cases (is_child cur (t j))) [
                  | inl c ↦ absurd (
                      let kid =
                        (wait_scan-none t cur nproc 0 false kids e j (omega arith) (omega arith)
                          c).1 in
                      cc)
                  | inr other ↦ other
                ]))),
          rw (e, no_kid, wait) v,
        )
        | inl some_kid ↦ elim (Bool-cases (truth (t cur).killed)) [
          | inl dead ↦ (
            rw (e, some_kid, dead, wait) (fails none_dead (inl dead)),
            rw (e, some_kid, dead, wait) v,
          )
          | inr live ↦ (
            rw (e, some_kid, live, wait) (sleeps none_dead live),
            rw (e, some_kid, live, wait) (asleep-IsValid t cur lt s none_dead v),
          )
        ]
      ]
]
