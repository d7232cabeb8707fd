-- ===== src/Bcache/Split.antt =====
-- Where the loops along the list stop, and sums over the buffers.
use osassignment.Prelude.{
  ℕ, ◌+◌, ◌≤◌, ◌≡◌, refl, ap, inl, inr, Bool, true, Option, none, some, [], ◌∷◌, ◌++◌, flag,
  Bool-cases, arith,
}
use osassignment.Bcache.{Buf, Cache, split_first, split_last}

abbrev pub total : (Buf → ℕ) → Cache → ℕ
total w [] = 0
total w (b ∷ bs) = w b + total w bs

pub total-append : (w : Buf → ℕ) (xs ys : Cache) → total w (xs ++ ys) ≡ total w xs + total w ys
total-append w [] ys = omega arith
total-append w (b ∷ xs) ys = omega (arith, total-append w xs ys)

-- Another buffer in the place of one.
pub total_replaced :
    (w : Buf → ℕ) (f k : Cache) (x y : Buf)
    → total w (f ++ y ∷ k) + w x ≡ total w (f ++ x ∷ k) + w y
total_replaced w f k x y = omega (arith, total-append w f (x ∷ k), total-append w f (y ∷ k))

-- One taken out and another put in front.
pub total_moved :
    (w : Buf → ℕ) (f k : Cache) (x y : Buf)
    → total w (y ∷ f ++ k) + w x ≡ total w (f ++ x ∷ k) + w y
total_moved w f k x y = omega (arith, total-append w f (x ∷ k), total-append w f k)

pub total_member : (w : Buf → ℕ) (f k : Cache) (x : Buf) → w x ≤ total w (f ++ x ∷ k)
total_member w f k x = omega (arith, total-append w f (x ∷ k))

pub total_both : (v w : Buf → ℕ) → ((b : Buf) → v b ≤ w b) → (c : Cache) → total v c ≤ total w c
total_both v w h [] = omega arith
total_both v w h (b ∷ c) = omega (arith, h b, total_both v w h c)

-- Where a search stops: nowhere, or at a buffer that passes.
pub data Stop (t : Buf → Bool) (c : Cache) (r : Option (Cache × Buf × Cache)) : Type 0 where
  nowhere : r ≡ none → total (λ b. flag (t b)) c ≡ 0 → Stop t c r
  at : (f k : Cache) (x : Buf) → r ≡ some (f, x, k) → c ≡ f ++ x ∷ k → t x ≡ true → Stop t c r

pub split_first-Stop : (t : Buf → Bool) (c : Cache) → Stop t c (split_first t c)
unfolding split_first
split_first-Stop t [] = nowhere refl refl
split_first-Stop t (b ∷ bs) = elim (Bool-cases (t b)) [
  | inl here ↦ at [] bs b (rw here refl) refl here
  | inr other ↦ elim (split_first-Stop t bs) [
    | nowhere e z ↦ nowhere (rw (other, e) refl) (rw other (omega (arith, z)))
    | at f k x e q h ↦ at (b ∷ f) k x (rw (other, e) refl) (ap (λ l. b ∷ l) q) h
  ]
]

pub split_last-Stop : (t : Buf → Bool) (c : Cache) → Stop t c (split_last t c)
unfolding split_last
split_last-Stop t [] = nowhere refl refl
split_last-Stop t (b ∷ bs) = elim (split_last-Stop t bs) [
  | at f k x e q h ↦ at (b ∷ f) k x (rw e refl) (ap (λ l. b ∷ l) q) h
  | nowhere e z ↦ elim (Bool-cases (t b)) [
    | inl here ↦ at [] bs b (rw (e, here) refl) refl here
    | inr other ↦ nowhere (rw (e, other) refl) (rw other (omega (arith, z)))
  ]
]
