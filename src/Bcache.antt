-- ===== src/Bcache.antt =====
-- The buffer cache of bio.c. `bcache.lock` makes each function one step. The list through `prev` and `next`
-- is a list of buffers, the most recently used first; the data of a buffer is that of its block.
pub mod Split
pub mod Users
pub mod Gets
pub mod Valid
mod Tests
use osassignment.Prelude.{
  ℕ, zero, suc, ◌+◌, ◌-◌, ◌%◌, ◌^◌, Bool, true, false, not, ◌&&◌, Option, none, some, List, [], ◌∷◌,
  ◌++◌, ltb, ◌==◌, if◌then◌else◌, Outcome, ok, panic, fault, ◌>>=◌, ◌>>◌, panic_if,
}

-- `id` stands for the address of the buffer; `valid` and `dirty` are its flags.
pub record Buf : Type 0 where
  pub id : ℕ
  pub dev : ℕ
  pub blockno : ℕ
  pub refcnt : ℕ
  pub valid : Bool
  pub dirty : Bool

abbrev pub Cache : Type 0
Cache = List Buf

abbrev pub holds : ℕ → ℕ → Buf → Bool
holds dev blockno b = b.dev == dev && b.blockno == blockno

abbrev pub is_unused : Buf → Bool
is_unused b = b.refcnt == 0 && not b.dirty

-- A loop along `next`: what stands before the first buffer that passes, the buffer, and what follows.
unfoldable pub split_first : (Buf → Bool) → Cache → Option (Cache × Buf × Cache)
split_first t [] = none
split_first t (b ∷ bs) =
    if t b
    then some ([], b, bs)
    else elim (split_first t bs) [ none ↦ none | some (f, x, k) ↦ some (b ∷ f, x, k) ]

-- A loop along `prev`: the last buffer that passes.
unfoldable pub split_last : (Buf → Bool) → Cache → Option (Cache × Buf × Cache)
split_last t [] = none
split_last t (b ∷ bs) = elim (split_last t bs) [
  | some (f, x, k) ↦ some (b ∷ f, x, k)
  | none ↦ if t b then some ([], b, bs) else none
]

abbrev pub incr_ref : Buf → Buf
incr_ref b = record b { refcnt = b.refcnt + 1 }

-- `refcnt--` of an unsigned number
abbrev pub pred_word : ℕ → ℕ
pred_word zero = 2 ^ 32 - 1
pred_word (suc n) = n

abbrev pub decr_ref : Buf → Buf
decr_ref b = record b { refcnt = pred_word b.refcnt }

abbrev pub recycle : ℕ → ℕ → Buf → Buf
recycle dev blockno b = record b {
  dev = dev;
  blockno = blockno;
  refcnt = 1;
  valid = false;
  dirty = false;
}

-- `bget` until it waits for the lock of the buffer.
unfoldable pub bget : Cache → ℕ → ℕ → Outcome (Buf × Cache)
unfolding split_first split_last
bget c dev blockno = elim (split_first (holds dev blockno) c) [
  | some (f, b, k) ↦ ok (incr_ref b, f ++ incr_ref b ∷ k)
  | none ↦ elim (split_last is_unused c) [
    | some (f, b, k) ↦ ok (recycle dev blockno b, f ++ recycle dev blockno b ∷ k)
    | none ↦ panic
  ]
]

-- `bread`; `iderw` fills the buffer and sets `valid`.
pub bread : Cache → ℕ → ℕ → Outcome (Buf × Bool × Cache)
unfolding bget
bread c dev blockno = do (b, c1) ← bget c dev blockno; ok (b, not b.valid, c1)

-- The buffer at address `id`, with the answer of `holdingsleep`. With the last reference it moves to the
-- front.
unfoldable pub brelse : Cache → ℕ → Bool → Outcome Cache
unfolding split_first
brelse c id holding = do
  panic_if (not holding)
  elim (split_first (λ b. b.id == id) c) [
    | none ↦ fault
    | some (f, b, k) ↦
        if (decr_ref b).refcnt == 0 then ok (decr_ref b ∷ f ++ k) else ok (f ++ decr_ref b ∷ k)
  ]

-- `iderw`, `log_write` and the commit set and clear the flags of a buffer.
unfoldable pub set_flags : ℕ → Bool → Bool → Cache → Cache
set_flags id v d [] = []
set_flags id v d (b ∷ bs) =
    let rest = set_flags id v d bs in
    if b.id == id then record b { valid = v; dirty = d } ∷ rest else b ∷ rest

-- `binit`: each buffer is put in front, so the last one comes first.
unfoldable pub binit_from : ℕ → Cache
binit_from zero = []
binit_from (suc n) =
    record { id = n; dev = 0; blockno = 0; refcnt = 0; valid = false; dirty = false } ∷ binit_from n

abbrev pub nbuf : ℕ
nbuf = 30

unfoldable pub binit : Cache
unfolding binit_from
binit = binit_from nbuf
