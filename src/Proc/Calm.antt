-- ===== src/Proc/Calm.antt =====
-- Steps of the process table that leave parents and exits alone.
use osassignment.Prelude.{
  ℕ, ◌≤◌, ◌<◌, ◌≡◌, refl, sym, ap, ◌∙◌, Bool, true, false, ◌&&◌, Option, none, some, ltb, ◌==◌,
  Bool-cases, inl, inr, arith,
}
use osassignment.Proc.{
  ProcState, unused, embryo, sleeping, runnable, running, zombie, Chan, proc_chan, same_chan, Proc,
  Table, nproc, is_sleeping, is_zombie, is_child, store, wakeup1,
}

-- Between `fork` and `exit`.
abbrev pub is_settled : ProcState → Bool
is_settled sleeping = true
is_settled runnable = true
is_settled running = true
is_settled s = false

-- The process at `i` sleeps in `wait`.
abbrev pub waits_self : ℕ → Proc → Bool
waits_self i p = is_sleeping p.state && same_chan p.chan (proc_chan i)

-- No process that sleeps in `wait` has a zombie child; no process is its own parent; `initproc` runs on
-- and has no parent; and only entries of the table sleep.
pub record IsValid (init : ℕ) (t : Table) : Type 0 where
  pub heard :
      (q i : ℕ)
      → i < nproc
      → is_child q (t i) ≡ true
      → is_zombie (t i).state ≡ true
      → waits_self q (t q) ≡ false
  pub no_self : (i : ℕ) → is_child i (t i) ≡ false
  pub orphan : (t init).parent ≡ none
  pub alive : is_settled (t init).state ≡ true
  pub range : (i : ℕ) → nproc ≤ i → is_sleeping (t i).state ≡ false

-- A change of the process at `i` that keeps its parent and begins no `wait` and no exit.
pub record Calm (i : ℕ) (p p' : Proc) : Type 0 where
  pub parent_eq : p'.parent ≡ p.parent
  pub zombie_eq : is_zombie p'.state ≡ is_zombie p.state
  pub settled_eq : is_settled p'.state ≡ is_settled p.state
  pub waiting : waits_self i p' ≡ true → waits_self i p ≡ true
  pub range : nproc ≤ i → is_sleeping p'.state ≡ true → is_sleeping p.state ≡ true

pub Calm-self : (i : ℕ) (p : Proc) → Calm i p p
Calm-self i p = record {
  parent_eq = refl;
  zombie_eq = refl;
  settled_eq = refl;
  waiting = λ h. h;
  range = λ _ h. h;
}

pub is_child-parent : (q : ℕ) (p p' : Proc) → p'.parent ≡ p.parent → is_child q p' ≡ is_child q p
is_child-parent q p p' e =
    ap (λ (o : Option ℕ). elim o as (λ _. Bool) [ none ↦ false | some r ↦ r == q ]) e

pub Calm-IsValid :
    {init : ℕ} {t t' : Table} → ((i : ℕ) → Calm i (t i) (t' i)) → IsValid init t → IsValid init t'
Calm-IsValid {init} {t} {t'} c v = record {
  heard = λ q i lt h z. elim (Bool-cases (waits_self q (t' q))) [
    | inl busy ↦ absurd (
        let old =
          v.heard q i lt (sym (is_child-parent q (t i) (t' i) (c i).parent_eq) ∙ h)
            (sym (c i).zombie_eq ∙ z) in
        let now = (c q).waiting busy in cc)
    | inr idle ↦ idle
  ];
  no_self = λ i. is_child-parent i (t i) (t' i) (c i).parent_eq ∙ v.no_self i;
  orphan = (c init).parent_eq ∙ v.orphan;
  alive = (c init).settled_eq ∙ v.alive;
  range = λ i h. elim (Bool-cases (is_sleeping (t' i).state)) [
    | inl busy ↦ absurd (let now = (c i).range h busy in let old = v.range i h in cc)
    | inr idle ↦ idle
  ];
}

-- A store of a calm change.
pub Calm-store :
    (t : Table) (i : ℕ) (p : Proc) → Calm i (t i) p → (j : ℕ) → Calm j (t j) (store t i p j)
Calm-store t i p c j = elim (Bool-cases (j == i)) [
  | inl same ↦ let e : j ≡ i = ground arith in rw (same, e) c
  | inr other ↦ rw other (Calm-self j (t j))
]

pub sleeping_state : (s : ProcState) → is_sleeping s ≡ true → s ≡ sleeping
sleeping_state sleeping h = refl
sleeping_state unused h = absurd (cc)
sleeping_state embryo h = absurd (cc)
sleeping_state runnable h = absurd (cc)
sleeping_state running h = absurd (cc)
sleeping_state zombie h = absurd (cc)

-- A change of the state alone, between states of the same kind, to one that is not sleeping.
pub Calm-state :
    (i : ℕ) (p p' : Proc)
    → p'.parent ≡ p.parent
    → is_zombie p'.state ≡ is_zombie p.state
    → is_settled p'.state ≡ is_settled p.state
    → is_sleeping p'.state ≡ false
    → Calm i p p'
Calm-state i p p' e z s h = record {
  parent_eq = e;
  zombie_eq = z;
  settled_eq = s;
  waiting = λ w. absurd (ground (arith, h, w));
  range = λ _ w. absurd (ground (arith, h, w));
}

pub wakeup1-Calm : (t : Table) (c : Chan) (i : ℕ) → Calm i (t i) (wakeup1 t c i)
unfolding wakeup1
wakeup1-Calm t c i =
    elim (Bool-cases (ltb i nproc && (is_sleeping (t i).state && same_chan (t i).chan c))) [
      | inl woken ↦
          let asleep : (t i).state ≡ sleeping =
            sleeping_state (t i).state (ground (arith, woken)) in
          rw woken (
            Calm-state i (t i) (record (t i) { state = runnable }) refl (rw asleep refl)
              (rw asleep refl) refl)
      | inr left ↦ rw left (Calm-self i (t i))
    ]

-- After it the process `q` of the table does not sleep in `wait`.
pub wakeup1_awake :
    (t : Table) (q : ℕ)
    → (nproc ≤ q → is_sleeping (t q).state ≡ false)
    → waits_self q (wakeup1 t (proc_chan q) q) ≡ false
unfolding wakeup1
wakeup1_awake t q range = ground (arith, range)
