-- ===== src/Bcache/Users.antt =====
-- The cache and the references that are held to its buffers, over any order of calls.
use osassignment.Prelude.{
  ℕ, zero, suc, ◌≤◌, ◌≡◌, ◌≢◌, refl, inl, inr, Bool, true, List, [], ◌∷◌, ◌++◌, ltb, ◌==◌,
  if◌then◌else◌, flag, count_if, Outcome, ok, panic, Bool-cases, arith,
}
use osassignment.Bcache.{
  Buf, Cache, holds, is_unused, incr_ref, recycle, bget, brelse, set_flags, binit, binit_from,
}
use osassignment.Bcache.Split.{total, nowhere, at, split_first-Stop, split_last-Stop}

pub record World : Type 0 where
  pub cache : Cache
  pub users : List ℕ

abbrev pub users_of : ℕ → List ℕ → ℕ
users_of i us = count_if (λ u. u == i) us

abbrev pub named : ℕ → Buf → ℕ
named i b = flag (b.id == i)

abbrev pub copies : ℕ → ℕ → Buf → ℕ
copies dev blockno b = flag (holds dev blockno b)

abbrev pub refs : ℕ → Buf → ℕ
refs i b = if b.id == i then b.refcnt else 0

-- Whether buffer `i` has the block.
abbrev pub has_block : ℕ → ℕ → ℕ → Buf → ℕ
has_block i dev blockno b = if b.id == i then copies dev blockno b else 0

-- Calls of `bget` for a device number that is not 0, and of `brelse` by those who hold a reference and the
-- lock.
pub data Used : World → Type 0 where
  starts : Used (record { cache = binit; users = [] })
  gets :
      {w : World} (dev blockno : ℕ) (b : Buf) (c : Cache)
      → dev ≢ 0
      → bget w.cache dev blockno ≡ ok (b, c)
      → Used w
      → Used (record { cache = c; users = b.id ∷ w.users })
  releases :
      {w : World} (xs ys : List ℕ) (i : ℕ) (c : Cache)
      → w.users ≡ xs ++ i ∷ ys
      → brelse w.cache i true ≡ ok c
      → Used w
      → Used (record { cache = c; users = xs ++ ys })
  sets :
      {w : World} (i : ℕ) (v d : Bool)
      → Used w
      → Used (record w { cache = set_flags i v d w.cache })

-- No two buffers have the same address or the same block, and each counts its references.
pub record IsValid (w : World) : Type 0 where
  pub one_name : (i : ℕ) → total (named i) w.cache ≤ 1
  pub one_copy : (dev blockno : ℕ) → dev ≢ 0 → total (copies dev blockno) w.cache ≤ 1
  pub counted : (i : ℕ) → total (refs i) w.cache ≡ users_of i w.users

pub none_named : (i : ℕ) (c : Cache) → total (named i) c ≡ 0 → total (refs i) c ≡ 0
none_named i [] h = refl
none_named i (b ∷ c) h = ground (arith, h, none_named i c)

pub total-set_flags :
    (w : Buf → ℕ) (i : ℕ) (v d : Bool) (c : Cache)
    → ((b : Buf) → w (record b { valid = v; dirty = d }) ≡ w b)
    → total w (set_flags i v d c) ≡ total w c
unfolding set_flags
total-set_flags w i v d [] h = refl
total-set_flags w i v d (b ∷ c) h = elim (Bool-cases (b.id == i)) [
  | inl here ↦ rw here (omega (arith, h b, total-set_flags w i v d c h))
  | inr other ↦ rw other (omega (arith, total-set_flags w i v d c h))
]

pub binit-named : (n i : ℕ) → total (named i) (binit_from n) ≡ flag (ltb i n)
unfolding binit_from
binit-named zero i = ground arith
binit-named (suc n) i = ground (arith, binit-named n i)

pub binit-refs : (n i : ℕ) → total (refs i) (binit_from n) ≡ 0
unfolding binit_from
binit-refs zero i = refl
binit-refs (suc n) i = ground (arith, binit-refs n i)

pub binit-copies : (n dev blockno : ℕ) → dev ≢ 0 → total (copies dev blockno) (binit_from n) ≡ 0
unfolding binit_from
binit-copies zero dev blockno h = refl
binit-copies (suc n) dev blockno h = ground (arith, h, binit-copies n dev blockno h)

-- What `bget` does: it finds the block, or it takes a buffer without users for it, or it panics because
-- the block is in no buffer and no buffer is free.
pub data Got (c : Cache) (dev blockno : ℕ) : Outcome (Buf × Cache) → Type 0 where
  cached :
      (f k : Cache) (x : Buf)
      → c ≡ f ++ x ∷ k
      → holds dev blockno x ≡ true
      → Got c dev blockno (ok (incr_ref x, f ++ incr_ref x ∷ k))
  recycled :
      (f k : Cache) (x : Buf)
      → c ≡ f ++ x ∷ k
      → is_unused x ≡ true
      → total (copies dev blockno) c ≡ 0
      → Got c dev blockno (ok (recycle dev blockno x, f ++ recycle dev blockno x ∷ k))
  full :
      total (copies dev blockno) c ≡ 0
      → total (λ b. flag (is_unused b)) c ≡ 0
      → Got c dev blockno panic

pub bget-Got : (c : Cache) (dev blockno : ℕ) → Got c dev blockno (bget c dev blockno)
unfolding bget
bget-Got c dev blockno = elim (split_first-Stop (holds dev blockno) c) [
  | at f k x e q h ↦ rw (bget, e) (cached f k x q h)
  | nowhere e z ↦ elim (split_last-Stop is_unused c) [
    | at f k x e' q h ↦ rw (bget, e, e') (recycled f k x q h z)
    | nowhere e' z' ↦ rw (bget, e, e') (full z z')
  ]
]
