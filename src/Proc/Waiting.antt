-- ===== src/Proc/Waiting.antt =====
-- `exit` and `wait` lose no wakeup: a process never sleeps in `wait` beside a zombie child.
use osassignment.Prelude.{
  ℕ, zero, suc, ◌+◌, ◌≤◌, ◌<◌, ◌≡◌, ◌≢◌, refl, sym, ap, ◌∙◌, true, false, none, some, ◌==◌,
  if◌then◌else◌, ◌⊎◌, Bool-cases, inl, inr, arith,
}
use osassignment.Proc.{
  proc_chan, Table, nproc, is_sleeping, is_zombie, is_child, store, wakeup1, reparent,
}
use osassignment.Proc.Calm.{
  is_settled, waits_self, IsValid, Calm, Calm-self, wakeup1-Calm, wakeup1_awake, is_child-parent,
}

module _ (init cur : ℕ) (distinct : cur ≢ init) where
  -- one round of the loop of `exit`, on a child
  abbrev moved : Table → ℕ → Table
  moved t i = store t i (record (t i) { parent = some init })

  abbrev round : Table → ℕ → Table
  round t i = if is_zombie (t i).state then wakeup1 (moved t i) (proc_chan init) else moved t i

  -- What a part of the loop keeps.
  pub record Kept (t t' : Table) : Type 0 where
    pub valid : IsValid init t'
    pub same_state : (j : ℕ) → is_zombie (t' j).state ≡ is_zombie (t j).state
    pub own : (t' cur).parent ≡ (t cur).parent
    pub awake : (q : ℕ) → waits_self q (t q) ≡ false → waits_self q (t' q) ≡ false
    pub childless : (j : ℕ) → is_child cur (t j) ≡ false → is_child cur (t' j) ≡ false

  Kept-trans : {t u v : Table} → Kept t u → Kept u v → Kept t v
  Kept-trans k l = record {
    valid = l.valid;
    same_state = λ j. l.same_state j ∙ k.same_state j;
    own = l.own ∙ k.own;
    awake = λ q h. l.awake q (k.awake q h);
    childless = λ j h. l.childless j (k.childless j h);
  }

  -- The child that has been passed on, when no one that waits for it is left.
  module _ (t u : Table) (i : ℕ) (v : IsValid init t) (c : is_child cur (t i) ≡ true)
      (calm : (j : ℕ) → Calm j (moved t i j) (u j))
      (woken : is_zombie (t i).state ≡ true → waits_self init (u init) ≡ false) where
    not_init : i ≢ init
    not_init e =
        let none_here : (t i).parent ≡ none = rw e v.orphan in
        let no : is_child cur (t i) ≡ false = rw none_here refl in cc

    not_cur : i ≢ cur
    not_cur e = let no : is_child cur (t i) ≡ false = rw e (v.no_self cur) in cc

    moved_state : (j : ℕ) → (moved t i j).state ≡ (t j).state
    moved_state j = elim (Bool-cases (j == i)) [
      | inl same ↦ let e : j ≡ i = ground arith in rw (same, e) refl
      | inr other ↦ rw other refl
    ]

    moved_waits : (j : ℕ) → waits_self j (moved t i j) ≡ waits_self j (t j)
    moved_waits j = elim (Bool-cases (j == i)) [
      | inl same ↦ let e : j ≡ i = ground arith in rw (same, e) refl
      | inr other ↦ rw other refl
    ]

    moved_other : (j : ℕ) → j ≢ i → (u j).parent ≡ (t j).parent
    moved_other j ne =
        let other : j == i ≡ false = ground arith in (calm j).parent_eq ∙ rw other refl

    moved_here : (u i).parent ≡ some init
    moved_here = let same : i == i ≡ true = ground arith in (calm i).parent_eq ∙ rw same refl

    zombies : (j : ℕ) → is_zombie (u j).state ≡ is_zombie (t j).state
    zombies j = (calm j).zombie_eq ∙ ap is_zombie (moved_state j)

    moved_awake : (q : ℕ) → waits_self q (t q) ≡ false → waits_self q (u q) ≡ false
    moved_awake q h = elim (Bool-cases (waits_self q (u q))) [
      | inl busy ↦
          let still : waits_self q (moved t i q) ≡ true = (calm q).waiting busy in
          let was : waits_self q (t q) ≡ true = sym (moved_waits q) ∙ still in cc
      | inr idle ↦ idle
    ]

    parents :
        (q j : ℕ)
        → is_child q (u j) ≡ true
        → ((j ≡ i) × (q ≡ init)) ⊎ ((j ≢ i) × (is_child q (t j) ≡ true))
    parents q j h = elim (Bool-cases (j == i)) [
      | inl same ↦
          let e : j ≡ i = ground arith in
          let here : (u j).parent ≡ some init = rw e moved_here in
          let mine : init == q ≡ true = rw here at h in inl (e, ground arith)
      | inr other ↦
          let ne : j ≢ i = λ e. ground arith in
          inr (ne, sym (is_child-parent q (t j) (u j) (moved_other j ne)) ∙ h)
    ]

    moved-Kept : Kept t u
    moved-Kept = record {
      valid = record {
        heard = λ q j lt h z. elim (parents q j h) [
          | inl (e, mine) ↦ rw mine (woken (rw (← e) (sym (zombies j) ∙ z)))
          | inr (ne, old) ↦ moved_awake q (v.heard q j lt old (sym (zombies j) ∙ z))
        ];
        no_self = λ j. elim (Bool-cases (is_child j (u j))) [
          | inl own ↦ absurd (elim (parents j j own) [
            | inl (e, mine) ↦ not_init (sym e ∙ mine)
            | inr (ne, old) ↦ let no = v.no_self j in cc
          ])
          | inr fine ↦ fine
        ];
        orphan = moved_other init (λ e. not_init (sym e)) ∙ v.orphan;
        alive = (calm init).settled_eq ∙ (ap is_settled (moved_state init) ∙ v.alive);
        range = λ j h. elim (Bool-cases (is_sleeping (u j).state)) [
          | inl busy ↦ absurd (
              let was = sym (ap is_sleeping (moved_state j)) ∙ (calm j).range h busy in
              let no = v.range j h in cc)
          | inr idle ↦ idle
        ];
      };
      same_state = zombies;
      own = moved_other cur (λ e. not_cur (sym e));
      awake = moved_awake;
      childless = λ j h. elim (Bool-cases (is_child cur (u j))) [
        | inl own ↦
            absurd (elim (parents cur j own) [ inl (e, mine) ↦ distinct mine | inr (ne, old) ↦ cc ])
        | inr fine ↦ fine
      ];
    }

  moved_range :
      (t : Table) (i : ℕ)
      → IsValid init t
      → nproc ≤ init
      → is_sleeping (moved t i init).state ≡ false
  moved_range t i v h = elim (Bool-cases (init == i)) [
    | inl same ↦ let e : init ≡ i = ground arith in rw (same, ← e) (v.range init h)
    | inr other ↦ rw other (v.range init h)
  ]

  round_gone : (t : Table) (i : ℕ) → is_child cur (round t i i) ≡ false
  round_gone t i =
      let same : i == i ≡ true = ground arith in
      let away : init == cur ≡ false = ground arith in
      let gone : is_child cur (moved t i i) ≡ false = rw same away in
      let woken : is_child cur (wakeup1 (moved t i) (proc_chan init) i) ≡ false =
        is_child-parent cur (moved t i i) (wakeup1 (moved t i) (proc_chan init) i)
          (wakeup1-Calm (moved t i) (proc_chan init) i).parent_eq
        ∙ gone in
      elim (Bool-cases (is_zombie (t i).state)) [
        | inl dead ↦ rw dead woken
        | inr alive ↦ rw alive gone
      ]

  round-Kept : (t : Table) (i : ℕ) → IsValid init t → is_child cur (t i) ≡ true → Kept t (round t i)
  round-Kept t i v c = elim (Bool-cases (is_zombie (t i).state)) [
    | inl dead ↦ rw dead (
        moved-Kept t (wakeup1 (moved t i) (proc_chan init)) i v c
          (λ j. wakeup1-Calm (moved t i) (proc_chan init) j)
          (λ z. wakeup1_awake (moved t i) init (moved_range t i v)))
    | inr alive ↦
        rw alive
          (moved-Kept t (moved t i) i v c (λ j. Calm-self j (moved t i j)) (λ z. absurd (cc)))
  ]

  -- After the loop the entries that it has passed are no children of `cur`.
  pub reparent-Kept :
      (n i : ℕ) (t : Table)
      → IsValid init t
      → Kept t (reparent init cur n i t)
        × ((j : ℕ) → i ≤ j → j < i + n → is_child cur (reparent init cur n i t j) ≡ false)
  unfolding reparent
  reparent-Kept zero i t v = (
    record {
      valid = v;
      same_state = λ j. refl;
      own = refl;
      awake = λ q h. h;
      childless = λ j h. h;
    },
    λ j l h. absurd (omega arith),
  )
  reparent-Kept (suc n) i t v = elim (Bool-cases (is_child cur (t i))) [
    | inr other ↦
        let r = reparent-Kept n (i + 1) t v in
        (
          rw other r.0,
          λ j l h. rw other (elim (Bool-cases (j == i)) [
            | inl here ↦ let e : j ≡ i = ground arith in r.0.childless j (rw e other)
            | inr later ↦ r.1 j (ground arith) (omega arith)
          ]),
        )
    | inl child ↦
        let k : Kept t (round t i) = round-Kept t i v child in
        let r = reparent-Kept n (i + 1) (round t i) k.valid in
        (
          rw child (Kept-trans k r.0),
          λ j l h. rw child (elim (Bool-cases (j == i)) [
            | inl here ↦ let e : j ≡ i = ground arith in r.0.childless j (rw e (round_gone t i))
            | inr later ↦ r.1 j (ground arith) (omega arith)
          ]),
        )
  ]
