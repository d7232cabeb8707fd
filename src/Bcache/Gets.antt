-- ===== src/Bcache/Gets.antt =====
-- `bget` keeps the cache valid.
use osassignment.Prelude.{
  ℕ, ◌≤◌, ◌<◌, ◌≡◌, refl, ap, inl, inr, true, false, ◌&&◌, List, ◌∷◌, ◌++◌, ◌==◌, flag, Outcome, ok,
  ok_injective, panic, fault, Bool-cases, arith,
}
use mathlib.Core.Path.{subst}
use osassignment.Bcache.{Buf, Cache, is_unused, incr_ref, recycle, bget}
use osassignment.Bcache.Split.{total, total-append, total_replaced}
use osassignment.Bcache.Users.{
  users_of, named, copies, refs, has_block, IsValid, none_named, Got, cached, recycled, full,
  bget-Got,
}

-- A buffer whose count is taken out of the whole list's.
pub refs_alone :
    (f k : Cache) (x : Buf)
    → total (named x.id) (f ++ x ∷ k) ≤ 1
    → total (refs x.id) (f ++ x ∷ k) ≡ x.refcnt
refs_alone f k x one =
    let self : x.id == x.id ≡ true = ground arith in
    let whole = total-append (named x.id) f (x ∷ k) in
    let here : named x.id x ≡ 1 = rw self refl in
    let before : total (named x.id) f ≡ 0 = omega (arith, one, whole, here) in
    let behind : total (named x.id) k ≡ 0 = omega (arith, one, whole, here) in
    let count : refs x.id x ≡ x.refcnt = rw self refl in
    omega (
      arith,
      count,
      total-append (refs x.id) f (x ∷ k),
      none_named x.id f before,
      none_named x.id k behind,
    )

module _ (c : Cache) (us : List ℕ) (v : IsValid (record { cache = c; users = us })) where
  cached-IsValid :
      (f k : Cache) (x : Buf)
      → c ≡ f ++ x ∷ k
      → IsValid (record { cache = f ++ incr_ref x ∷ k; users = x.id ∷ us })
  cached-IsValid f k x q = record {
    one_name = λ i.
        let t = total_replaced (named i) f k x (incr_ref x) in
        let o : total (named i) (f ++ x ∷ k) ≤ 1 =
          subst (λ (l : Cache). total (named i) l ≤ 1) q (v.one_name i) in
        omega (arith, t, o);
    one_copy = λ dev blockno h.
        let t = total_replaced (copies dev blockno) f k x (incr_ref x) in
        let o : total (copies dev blockno) (f ++ x ∷ k) ≤ 1 =
          subst (λ (l : Cache). total (copies dev blockno) l ≤ 1) q (v.one_copy dev blockno h) in
        omega (arith, t, o);
    counted = λ i.
        let t = total_replaced (refs i) f k x (incr_ref x) in
        let o : total (refs i) (f ++ x ∷ k) ≡ users_of i us =
          subst (λ (l : Cache). total (refs i) l ≡ users_of i us) q (v.counted i) in
        ground (arith, t, o);
  }

  recycled-IsValid :
      (f k : Cache) (x : Buf) (dev blockno : ℕ)
      → c ≡ f ++ x ∷ k
      → is_unused x ≡ true
      → total (copies dev blockno) c ≡ 0
      → IsValid (record { cache = f ++ recycle dev blockno x ∷ k; users = x.id ∷ us })
  recycled-IsValid f k x dev blockno q unused absent = record {
    one_name = λ i.
        let t = total_replaced (named i) f k x (recycle dev blockno x) in
        let o : total (named i) (f ++ x ∷ k) ≤ 1 =
          subst (λ (l : Cache). total (named i) l ≤ 1) q (v.one_name i) in
        omega (arith, t, o);
    one_copy = λ d n h.
        let t = total_replaced (copies d n) f k x (recycle dev blockno x) in
        let o : total (copies d n) (f ++ x ∷ k) ≤ 1 =
          subst (λ (l : Cache). total (copies d n) l ≤ 1) q (v.one_copy d n h) in
        elim (Bool-cases (dev == d && blockno == n)) [
          | inr other ↦
              let no : copies d n (recycle dev blockno x) ≡ 0 = ap flag other in
              omega (arith, t, o, no)
          | inl same ↦
              let one : copies d n (recycle dev blockno x) ≡ 1 = ap flag same in
              let ed : dev ≡ d = ground (arith, same) in
              let en : blockno ≡ n = ground (arith, same) in
              let z : total (copies d n) (f ++ x ∷ k) ≡ 0 =
                subst (λ (l : Cache). total (copies d n) l ≡ 0) q
                  (subst (λ (a : ℕ). total (copies d a) c ≡ 0) en
                    (subst (λ (a : ℕ). total (copies a blockno) c ≡ 0) ed absent)) in
              omega (arith, t, z, one)
        ];
    counted = λ i.
        let t = total_replaced (refs i) f k x (recycle dev blockno x) in
        let o : total (refs i) (f ++ x ∷ k) ≡ users_of i us =
          subst (λ (l : Cache). total (refs i) l ≡ users_of i us) q (v.counted i) in
        let free : x.refcnt ≡ 0 = ground (arith, unused) in ground (arith, t, o, free);
  }

  -- A buffer in use is not taken for another block, by `bget` for any block.
  pub bget-has_block :
      (dev blockno : ℕ) (b : Buf) (c' : Cache) (i d n : ℕ)
      → bget c dev blockno ≡ ok (b, c')
      → 0 < users_of i us
      → total (has_block i d n) c' ≡ total (has_block i d n) c
  bget-has_block dev blockno b c' i d n e used =
      from (bget c dev blockno) (bget-Got c dev blockno) e
    where
      from :
          (r : Outcome (Buf × Cache))
          → Got c dev blockno r
          → r ≡ ok (b, c')
          → total (has_block i d n) c' ≡ total (has_block i d n) c
      from (ok r) (cached f k x q h) e =
          let t = total_replaced (has_block i d n) f k x (incr_ref x) in
          let p : f ++ incr_ref x ∷ k ≡ c' = ap (λ (y : Buf × Cache). y.1) (ok_injective e) in
          rw (← p, q) (omega (arith, t))
      from (ok r) (recycled f k x q unused absent) e =
          let p : f ++ recycle dev blockno x ∷ k ≡ c' =
            ap (λ (y : Buf × Cache). y.1) (ok_injective e) in
          let t = total_replaced (has_block i d n) f k x (recycle dev blockno x) in
          let free : x.refcnt ≡ 0 = ground (arith, unused) in
          let alone =
            refs_alone f k x
              (subst (λ (l : Cache). total (named x.id) l ≤ 1) q (v.one_name x.id)) in
          let count : total (refs x.id) (f ++ x ∷ k) ≡ users_of x.id us =
            subst (λ (l : Cache). total (refs x.id) l ≡ users_of x.id us) q (v.counted x.id) in
          let apart : x.id == i ≡ false = elim (Bool-cases (x.id == i)) [
            | inr other ↦ other
            | inl same ↦
                let eq : x.id ≡ i = ground (arith, same) in
                let some_user : 0 < users_of x.id us = rw eq used in
                absurd (omega (arith, alone, count, free, some_user))
          ] in
          rw (← p, q) (ground (arith, t, apart))
      from panic (full a z) e = cc
      from fault none_such e = elim none_such [ ]

pub bget-IsValid :
    (c c' : Cache) (us : List ℕ) (dev blockno : ℕ) (b : Buf) (r : Outcome (Buf × Cache))
    → IsValid (record { cache = c; users = us })
    → Got c dev blockno r
    → r ≡ ok (b, c')
    → IsValid (record { cache = c'; users = b.id ∷ us })
bget-IsValid c c' us dev blockno b (ok r) v (cached f k x q h) e =
    subst (λ (y : Buf × Cache). IsValid (record { cache = y.1; users = y.0.id ∷ us }))
      (ok_injective e) (cached-IsValid c us v f k x q)
bget-IsValid c c' us dev blockno b (ok r) v (recycled f k x q unused absent) e =
    subst (λ (y : Buf × Cache). IsValid (record { cache = y.1; users = y.0.id ∷ us }))
      (ok_injective e) (recycled-IsValid c us v f k x dev blockno q unused absent)
bget-IsValid c c' us dev blockno b panic v g e = cc
bget-IsValid c c' us dev blockno b fault v g e = elim g [ ]
