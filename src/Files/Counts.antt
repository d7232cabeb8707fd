-- ===== src/Files/Counts.antt =====
-- A file's count is the number of references to it, so it is closed with the last one.
use osassignment.Prelude.{
  ℕ, zero, suc, ◌+◌, ◌-◌, ◌<◌, ◌≡◌, refl, sym, ap, ◌∙◌, true, Option, none, some, List, [], ◌∷◌,
  ◌++◌, ltb, ◌==◌, if◌then◌else◌, count_if, count_if-append, ok, Bool-cases, inl, inr, arith,
}
use osassignment.Files.{
  FileType, fd_none, File, Table, nfile, put, alloc_from, filealloc, filedup, fileclose,
}

-- The table and the references to its files, in the file tables of the processes and in running calls.
pub record World : Type 0 where
  pub table : Table
  pub refs : List ℕ

abbrev pub refs_to : ℕ → List ℕ → ℕ
refs_to f xs = count_if (λ g. g == f) xs

abbrev pub empty_table : Table
empty_table f = record { ref = 0; ftype = fd_none }

-- What calls with a reference lead to. Who has allocated a file sets its type.
pub data Reachable : World → Type 0 where
  starts : Reachable (record { table = empty_table; refs = [] })
  allocates :
      {w : World} (f : ℕ) (t : Table)
      → filealloc w.table ≡ (some f, t)
      → Reachable w
      → Reachable (record { table = t; refs = f ∷ w.refs })
  sets_type :
      {w : World} (f : ℕ) (ty : FileType)
      → Reachable w
      → Reachable (record w { table = put w.table f (record (w.table f) { ftype = ty }) })
  dups :
      {w : World} (f : ℕ) (t : Table)
      → filedup w.table f ≡ ok t
      → Reachable w
      → Reachable (record { table = t; refs = f ∷ w.refs })
  closes :
      {w : World} (xs ys : List ℕ) (f : ℕ) (t : Table) (r : Option FileType)
      → w.refs ≡ xs ++ f ∷ ys
      → fileclose w.table f ≡ ok (t, r)
      → Reachable w
      → Reachable (record { table = t; refs = xs ++ ys })

alloc_from-free :
    (n i f : ℕ) (t t' : Table)
    → alloc_from n i t ≡ (some f, t')
    → ((t f).ref ≡ 0) × (t' ≡ put t f (record (t f) { ref = 1 }))
unfolding alloc_from
alloc_from-free zero i f t t' e = absurd (cc)
alloc_from-free (suc n) i f t t' e = elim (Bool-cases ((t i).ref == 0)) [
  | inl free ↦
      let same : i ≡ f = ground (arith, free, e) in
      let table : put t i (record (t i) { ref = 1 }) ≡ t' = ground (arith, free, e) in
      (ground (arith, free, same), rw (← same) (sym table))
  | inr used ↦ alloc_from-free n (i + 1) f t t' (ground (arith, used, e))
]

put_ref :
    (t : Table) (f g : ℕ) (x : File) → (put t f x g).ref ≡ (if g == f then x.ref else (t g).ref)
put_ref t f g x = elim (Bool-cases (g == f)) [ inl same ↦ rw same refl | inr other ↦ rw other refl ]

refs_to-cons :
    (f g : ℕ) (xs : List ℕ)
    → refs_to g (f ∷ xs) ≡ (if g == f then refs_to g xs + 1 else refs_to g xs)
refs_to-cons f g xs = ground arith

alloc_ref :
    (t t' : Table) (f g : ℕ)
    → filealloc t ≡ (some f, t')
    → ((t f).ref ≡ 0) × ((t' g).ref ≡ (if g == f then 1 else (t g).ref))
unfolding filealloc
alloc_ref t t' f g e =
    let (free, eq) = alloc_from-free nfile 0 f t t' e in
    (free, ap (λ (u : Table). (u g).ref) eq ∙ put_ref t f g (record (t f) { ref = 1 }))

dup_ref :
    (t t' : Table) (f g : ℕ)
    → filedup t f ≡ ok t'
    → (0 < (t f).ref) × ((t' g).ref ≡ (if g == f then (t f).ref + 1 else (t g).ref))
unfolding filedup
dup_ref t t' f g e = elim (Bool-cases (ltb (t f).ref 1)) [
  | inl none_held ↦ absurd (ground (arith, none_held, e))
  | inr held ↦
      let eq : put t f (record (t f) { ref = (t f).ref + 1 }) ≡ t' = ground (arith, held, e) in
      (
        ground (arith, held),
        ap (λ (u : Table). (u g).ref) (sym eq)
            ∙ put_ref t f g (record (t f) { ref = (t f).ref + 1 }),
      )
]

close_ref :
    (t t' : Table) (f g : ℕ) (r : Option FileType)
    → fileclose t f ≡ ok (t', r)
    → (0 < (t f).ref) × ((t' g).ref ≡ (if g == f then (t f).ref - 1 else (t g).ref))
unfolding fileclose
close_ref t t' f g r e = elim (Bool-cases (ltb (t f).ref 1)) [
  | inl none_held ↦ absurd (ground (arith, none_held, e))
  | inr held ↦ elim (Bool-cases (ltb 0 ((t f).ref - 1))) [
    | inl more ↦
        let eq : put t f (record (t f) { ref = (t f).ref - 1 }) ≡ t' =
          ground (arith, held, more, e) in
        (
          ground (arith, held),
          ap (λ (u : Table). (u g).ref) (sym eq)
              ∙ put_ref t f g (record (t f) { ref = (t f).ref - 1 }),
        )
    | inr last ↦
        let eq : put t f (record { ref = 0; ftype = fd_none }) ≡ t' =
          ground (arith, held, last, e) in
        let one : (t f).ref - 1 ≡ 0 = ground (arith, last) in
        (
          ground (arith, held),
          ap (λ (u : Table). (u g).ref) (sym eq)
              ∙ (put_ref t f g (record { ref = 0; ftype = fd_none }) ∙ rw one refl),
        )
  ]
]

refs_to-split :
    (f g : ℕ) (xs ys : List ℕ)
    → refs_to g (xs ++ f ∷ ys) ≡ (if g == f then refs_to g (xs ++ ys) + 1 else refs_to g (xs ++ ys))
refs_to-split f g xs ys =
    ground (arith, count_if-append (λ h. h == g) xs (f ∷ ys), count_if-append (λ h. h == g) xs ys)

same_ref : (t : Table) (f g : ℕ) → (g == f) ≡ true → (t g).ref ≡ (t f).ref
same_ref t f g e = let same : g ≡ f = ground arith in ap (λ h. (t h).ref) same

one_more :
    (g f : ℕ) {new old_f old_g count : ℕ}
    → new ≡ (if g == f then old_f + 1 else old_g)
    → old_g ≡ count
    → ((g == f) ≡ true → old_g ≡ old_f)
    → new ≡ (if g == f then count + 1 else count)
one_more g f n c s = elim (Bool-cases (g == f)) [
  | inl same ↦ ground (arith, same, n, c, s same)
  | inr other ↦ ground (arith, other, n, c)
]

one_less :
    (g f : ℕ) {new old_f old_g count left : ℕ}
    → new ≡ (if g == f then old_f - 1 else old_g)
    → old_g ≡ count
    → count ≡ (if g == f then left + 1 else left)
    → ((g == f) ≡ true → old_g ≡ old_f)
    → new ≡ left
one_less g f n c l s = elim (Bool-cases (g == f)) [
  | inl same ↦ ground (arith, same, n, c, l, s same)
  | inr other ↦ ground (arith, other, n, c, l)
]

-- `ref` counts the references to its file, whatever the order of the calls.
pub ref-refs_to : {w : World} → Reachable w → (g : ℕ) → (w.table g).ref ≡ refs_to g w.refs
ref-refs_to starts g = refl
ref-refs_to (allocates {w} f t e r) g =
    let (free, eq) = alloc_ref w.table t f g e in
    let from_none : (t g).ref ≡ (if g == f then (w.table f).ref + 1 else (w.table g).ref) =
      rw free eq in
    one_more g f from_none (ref-refs_to r g) (same_ref w.table f g) ∙ sym (refs_to-cons f g w.refs)
ref-refs_to (sets_type {w} f ty r) g = elim (Bool-cases (g == f)) [
  | inl same ↦
      put_ref w.table f g (record (w.table f) { ftype = ty })
      ∙ (rw same (sym (same_ref w.table f g same)) ∙ ref-refs_to r g)
  | inr other ↦ put_ref w.table f g (record (w.table f) { ftype = ty }) ∙ rw other (ref-refs_to r g)
]
ref-refs_to (dups {w} f t e r) g =
    one_more g f (dup_ref w.table t f g e).1 (ref-refs_to r g) (same_ref w.table f g)
    ∙ sym (refs_to-cons f g w.refs)
ref-refs_to (closes {w} xs ys f t c h e r) g =
    one_less g f (close_ref w.table t f g c e).1 (ref-refs_to r g)
      (ap (refs_to g) h ∙ refs_to-split f g xs ys) (same_ref w.table f g)

-- Closing a file that is referred to does not panic, and it closes what stands behind the file, once,
-- exactly when no other reference to the file is left.
pub fileclose_held :
    {w : World} (xs ys : List ℕ) (f : ℕ)
    → Reachable w
    → w.refs ≡ xs ++ f ∷ ys
    → (t : Table) × (fileclose w.table f
        ≡ ok (t, (if refs_to f (xs ++ ys) == 0 then some (w.table f).ftype else none)))
unfolding fileclose
fileclose_held {w} xs ys f r h =
    let self : f == f ≡ true = ground arith in
    let count : (w.table f).ref ≡ refs_to f (xs ++ ys) + 1 =
      ref-refs_to r f ∙ (ap (refs_to f) h ∙ (refs_to-split f f xs ys ∙ rw self refl)) in
    elim (Bool-cases (refs_to f (xs ++ ys) == 0)) [
      | inl last ↦
          (put w.table f (record { ref = 0; ftype = fd_none }), ground (arith, count, last))
      | inr more ↦ (
        put w.table f (record (w.table f) { ref = (w.table f).ref - 1 }),
        ground (arith, count, more),
      )
    ]
