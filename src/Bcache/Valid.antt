-- ===== src/Bcache/Valid.antt =====
-- What holds of the cache after any calls.
use osassignment.Prelude.{
  ℕ, zero, suc, ◌+◌, ◌≤◌, ◌<◌, ◌≡◌, refl, sym, ap, ◌∙◌, inl, inr, true, false, List, ◌∷◌, ◌++◌,
  ◌==◌, flag, count_if-append, ok, ok_injective, Bool-cases, arith,
}
use mathlib.Core.Path.{subst}
use osassignment.Bcache.{Buf, Cache, decr_ref, pred_word, bget, brelse, binit, nbuf}
use osassignment.Bcache.Split.{total, total_replaced, total_moved, nowhere, at, split_first-Stop}
use osassignment.Bcache.Gets.{refs_alone, bget-has_block, bget-IsValid}
use osassignment.Bcache.Users.{
  World, users_of, named, copies, refs, has_block, Used, starts, gets, releases, sets, IsValid,
  none_named, total-set_flags, binit-named, binit-refs, binit-copies, bget-Got,
}

-- What `brelse` does to the sums over the buffers.
Released : Cache → ℕ → Cache → Type 0
Released c i c' =
    (x : Buf) × ((x.id == i) ≡ true)
    × ((f : Cache) × (k : Cache) × (c ≡ f ++ x ∷ k))
    × ((w : Buf → ℕ) → total w c' + w x ≡ total w c + w (decr_ref x))

brelse-Released :
    (c : Cache) (i : ℕ)
    → 0 < total (refs i) c
    → (c' : Cache) × (brelse c i true ≡ ok c') × Released c i c'
unfolding brelse Released
brelse-Released c i h = elim (split_first-Stop (λ b. b.id == i) c) [
  | nowhere e z ↦ absurd (omega (arith, h, none_named i c z))
  | at f k x e q t ↦ elim (Bool-cases ((decr_ref x).refcnt == 0)) [
    | inl last ↦ (
      decr_ref x ∷ f ++ k,
      rw (brelse, e, last) refl,
      (x, t, (f, k, q), λ w. rw q (total_moved w f k x (decr_ref x))),
    )
    | inr more ↦ (
      f ++ decr_ref x ∷ k,
      rw (brelse, e, more) refl,
      (x, t, (f, k, q), λ w. rw q (total_replaced w f k x (decr_ref x))),
    )
  ]
]

pred_word_pos : (n : ℕ) → 0 < n → pred_word n + 1 ≡ n
pred_word_pos zero h = absurd (omega (arith, h))
pred_word_pos (suc n) h = omega arith

users_of-split :
    (i j : ℕ) (xs ys : List ℕ) → users_of j (xs ++ i ∷ ys) ≡ users_of j (xs ++ ys) + flag (i == j)
users_of-split i j xs ys =
    omega (arith, count_if-append (λ u. u == j) xs (i ∷ ys), count_if-append (λ u. u == j) xs ys)

-- A held buffer has a count.
counted_held :
    (w : World) (xs ys : List ℕ) (i : ℕ)
    → IsValid w
    → w.users ≡ xs ++ i ∷ ys
    → total (refs i) w.cache ≡ users_of i (xs ++ ys) + 1
counted_held w xs ys i v e =
    let self : i == i ≡ true = ground arith in
    let one : flag (i == i) ≡ 1 = ap flag self in
    let count : total (refs i) w.cache ≡ users_of i (xs ++ i ∷ ys) =
      v.counted i ∙ ap (users_of i) e in
    omega (arith, count, users_of-split i i xs ys, one)

releases-IsValid :
    (w : World) (xs ys : List ℕ) (i : ℕ) (c' : Cache)
    → IsValid w
    → w.users ≡ xs ++ i ∷ ys
    → Released w.cache i c'
    → IsValid (record { cache = c'; users = xs ++ ys })
unfolding Released
releases-IsValid w xs ys i c' v e (x, t, (f, k, q), change) =
    let is_i : x.id ≡ i = ground (arith, t) in
    let count : total (refs i) w.cache ≡ users_of i (xs ++ ys) + 1 = counted_held w xs ys i v e in
    let alone : total (refs x.id) (f ++ x ∷ k) ≡ x.refcnt =
      refs_alone f k x (subst (λ (l : Cache). total (named x.id) l ≤ 1) q (v.one_name x.id)) in
    let same : total (refs i) w.cache ≡ x.refcnt =
      ap (total (refs i)) q
      ∙ subst (λ (j : ℕ). total (refs j) (f ++ x ∷ k) ≡ x.refcnt) is_i alone in
    let less : pred_word x.refcnt + 1 ≡ x.refcnt =
      pred_word_pos x.refcnt (omega (arith, count, same)) in
    record {
      one_name = λ j. omega (arith, change (named j), v.one_name j);
      one_copy = λ d n h. omega (arith, change (copies d n), v.one_copy d n h);
      counted = λ j.
          let all : total (refs j) w.cache ≡ users_of j (xs ++ i ∷ ys) =
            v.counted j ∙ ap (users_of j) e in
          let parts = users_of-split i j xs ys in
          let ch = change (refs j) in
          elim (Bool-cases (x.id == j)) [
            | inl here ↦
                let ij : i == j ≡ true = ground (arith, here, is_i) in
                let a : refs j x ≡ x.refcnt = rw here refl in
                let b : refs j (decr_ref x) ≡ pred_word x.refcnt = rw here refl in
                let d : flag (i == j) ≡ 1 = ap flag ij in
                omega (arith, all, parts, ch, a, b, d, less)
            | inr other ↦
                let ij : i == j ≡ false = ground (arith, other, is_i) in
                let a : refs j x ≡ 0 = rw other refl in
                let b : refs j (decr_ref x) ≡ 0 = rw other refl in
                let d : flag (i == j) ≡ 0 = ap flag ij in omega (arith, all, parts, ch, a, b, d)
          ];
    }

-- After any calls of `bget` for a device number that is not 0, of `brelse` by a holder, and changes of the
-- flags, no two buffers hold the same block, none is in the list twice, and every count is the number of
-- references that are held.
pub Used-IsValid : {w : World} → Used w → IsValid w
unfolding binit
Used-IsValid starts = record {
  one_name = λ i. ground (arith, binit-named nbuf i);
  one_copy = λ dev blockno h. omega (arith, binit-copies nbuf dev blockno h);
  counted = λ i. binit-refs nbuf i;
}
Used-IsValid (gets {w} dev blockno b c h e r) =
    bget-IsValid w.cache c w.users dev blockno b (bget w.cache dev blockno) (Used-IsValid r)
      (bget-Got w.cache dev blockno) e
Used-IsValid (releases {w} xs ys i c h e r) =
    let v = Used-IsValid r in
    let (c', q, rel) = brelse-Released w.cache i (omega (arith, counted_held w xs ys i v h)) in
    let same : c' ≡ c = ok_injective (sym q ∙ e) in
    subst (λ (l : Cache). IsValid (record { cache = l; users = xs ++ ys })) same
      (releases-IsValid w xs ys i c' v h rel)
Used-IsValid (sets {w} i f d r) =
    let v = Used-IsValid r in
    record {
      one_name =
          λ j. omega (arith, total-set_flags (named j) i f d w.cache (λ b. refl), v.one_name j);
      one_copy = λ dev n h.
          omega
            (arith, total-set_flags (copies dev n) i f d w.cache (λ b. refl), v.one_copy dev n h);
      counted = λ j. total-set_flags (refs j) i f d w.cache (λ b. refl) ∙ v.counted j;
    }

-- While a reference to a buffer is held the buffer keeps its block: no `bget` for another block takes it.
pub bget_held :
    {w : World} (dev blockno : ℕ) (b : Buf) (c : Cache) (i d n : ℕ)
    → Used w
    → bget w.cache dev blockno ≡ ok (b, c)
    → 0 < users_of i w.users
    → total (has_block i d n) c ≡ total (has_block i d n) w.cache
bget_held {w} dev blockno b c i d n r e used =
    bget-has_block w.cache w.users (Used-IsValid r) dev blockno b c i d n e used
