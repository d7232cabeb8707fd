-- ===== src/Proc/Exit.antt =====
-- `exit` and `wait` as a whole.
use mathlib.Core.Path.{subst}
use osassignment.Prelude.{
  ℕ, ◌<◌, ◌≡◌, ◌≢◌, refl, sym, ◌∙◌, true, false, Option, none, some, ◌==◌, Bool-cases, Option-cases,
  inl, inr, ok, arith,
}
use osassignment.Proc.{
  zombie, proc_chan, no_chan, Table, nproc, is_zombie, is_child, store, wake_parent, reparent, exit,
}
use osassignment.Proc.Calm.{
  waits_self, IsValid, Calm, Calm-IsValid, wakeup1-Calm, wakeup1_awake, is_child-parent,
}
use osassignment.Proc.Waiting.{reparent-Kept}

wake_parent-Calm : (t : Table) (o : Option ℕ) (i : ℕ) → Calm i (t i) (wake_parent t o i)
wake_parent-Calm t none i = wakeup1-Calm t no_chan i
wake_parent-Calm t (some q) i = wakeup1-Calm t (proc_chan q) i

parent_awake :
    {init : ℕ} (t : Table) (cur q : ℕ)
    → IsValid init t
    → is_child q (t cur) ≡ true
    → waits_self q (wake_parent t (t cur).parent q) ≡ false
parent_awake t cur q v h = elim (Option-cases (t cur).parent) [
  | inl orphan ↦ absurd (ground (arith, orphan, h))
  | inr (p, e) ↦
      let mine : p == q ≡ true = rw e at h in
      let same : p ≡ q = ground arith in rw (e, same) (wakeup1_awake t q (v.range q))
]

-- The last assignment of `exit`.
zombie-IsValid :
    {init : ℕ} (t : Table) (cur : ℕ)
    → cur ≢ init
    → IsValid init t
    → ((q : ℕ) → is_child q (t cur) ≡ true → waits_self q (t q) ≡ false)
    → IsValid init (store t cur (record (t cur) { state = zombie }))
zombie-IsValid {init} t cur ne v awake = record {
  heard = λ q i lt h z. elim (Bool-cases (q == cur)) [
    | inl self ↦ ground (arith, self)
    | inr other ↦ elim (Bool-cases (i == cur)) [
      | inl dead ↦ rw other (awake q (rw dead at h))
      | inr left ↦ rw other (v.heard q i lt (rw left at h) (rw left at z))
    ]
  ];
  no_self = λ i. elim (Bool-cases (i == cur)) [
    | inl same ↦ let e : i ≡ cur = ground arith in rw (same, e) (v.no_self cur)
    | inr other ↦ rw other (v.no_self i)
  ];
  orphan = let away : init == cur ≡ false = ground arith in rw away v.orphan;
  alive = let away : init == cur ≡ false = ground arith in rw away v.alive;
  range = λ i h. elim (Bool-cases (i == cur)) [
    | inl same ↦ rw same refl
    | inr other ↦ rw other (v.range i h)
  ];
}

zombie_childless :
    (t : Table) (cur j : ℕ)
    → is_child cur (t j) ≡ false
    → is_child cur (store t cur (record (t cur) { state = zombie }) j) ≡ false
zombie_childless t cur j h = elim (Bool-cases (j == cur)) [
  | inl same ↦
      let e : cur ≡ j = ground arith in
      rw same (subst (λ (x : ℕ). is_child cur (t x) ≡ false) (sym e) h)
  | inr other ↦ rw other h
]

-- `exit` of a process other than `initproc` does not panic. It leaves the process a zombie without
-- children, and no process asleep in `wait` with a zombie child, neither its parent nor `initproc`.
pub exit-IsValid :
    (init : ℕ) (t : Table) (cur : ℕ)
    → cur ≢ init
    → IsValid init t
    → (t' : Table) × (exit init t cur ≡ ok t')
      × IsValid init t'
      × (is_zombie (t' cur).state ≡ true)
      × ((j : ℕ) → j < nproc → is_child cur (t' j) ≡ false)
unfolding exit
exit-IsValid init t cur ne v =
    let t0 : Table = wake_parent t (t cur).parent in
    let v0 : IsValid init t0 = Calm-IsValid (λ i. wake_parent-Calm t (t cur).parent i) v in
    let t1 : Table = reparent init cur nproc 0 t0 in
    let r = reparent-Kept init cur ne nproc 0 t0 v0 in
    let same_parent : (t1 cur).parent ≡ (t cur).parent =
      r.0.own ∙ (wake_parent-Calm t (t cur).parent cur).parent_eq in
    let self : cur == cur ≡ true = ground arith in
    let away : cur == init ≡ false = ground arith in
    (
      store t1 cur (record (t1 cur) { state = zombie }),
      rw away refl,
      zombie-IsValid t1 cur ne r.0.valid (λ q h.
          r.0.awake q
            (parent_awake t cur q v (sym (is_child-parent q (t cur) (t1 cur) same_parent) ∙ h))),
      rw self refl,
      λ j lt. zombie_childless t1 cur j (r.1 j (omega arith) (omega arith)),
    )
