-- ===== src/Fs/Blocks.antt =====
-- The block allocator: what `balloc` and `bfree` do to the bitmap and to the other blocks.
pub mod Bitmap
pub mod Layout
use osassignment.Prelude.{
  ℕ, zero, suc, ◌+◌, ◌-◌, ◌*◌, ◌/◌, ◌%◌, ◌^◌, ◌≤◌, ◌<◌, ◌≡◌, ◌≢◌, refl, sym, ap, ◌∙◌, ◌⊎◌, inl, inr,
  true, false, Option, none, some, ltb, ◌==◌, if◌then◌else◌, Outcome, ok, panic, Bool-cases, arith,
}
use mathlib.Core.Path.{subst}
use osassignment.Fs.{
  SuperBlock, Disk, put_byte, bblock, bpb, bsize, bzero, alloc_bits, alloc_blocks, balloc, bfree,
}
use osassignment.Fs.Blocks.Bitmap.{
  used, mark, unmark, used-lt, used-mark, used-unmark, test_free, test_used, put_byte_ne,
}
use Prim.Native.Nat.{bit_and, bit_or}

abbrev pub AllUsed : SuperBlock → Disk → ℕ → ℕ → Type 0
AllUsed sb d from to = (v : ℕ) → from ≤ v → v < to → v < sb.size → used sb d v ≡ 1

-- The lowest free block from `from` on.
pub record Lowest (sb : SuperBlock) (d : Disk) (from a : ℕ) : Type 0 where
  pub free : used sb d a ≡ 0
  pub in_range : a < sb.size
  pub lowest : AllUsed sb d from a

-- Where the search of one bitmap block from `from` to `to` stops.
Searched : SuperBlock → Disk → ℕ → ℕ → Option (ℕ × Disk) → Type 0
Searched sb d from to r =
    ((r ≡ none) × AllUsed sb d from to)
    ⊎ ((a : ℕ) × (r ≡ some (a, mark sb d a)) × Lowest sb d from a)

AllUsed-cons :
    (sb : SuperBlock) (d : Disk) (v to : ℕ)
    → used sb d v ≡ 1
    → AllUsed sb d (v + 1) to
    → AllUsed sb d v to
AllUsed-cons sb d v to here all w l h s = elim (Bool-cases (w == v)) [
  | inl same ↦ let e : w ≡ v = ground (arith, same) in rw e here
  | inr other ↦ all w (ground (arith, other, l)) h s
]

AllUsed-append :
    (sb : SuperBlock) (d : Disk) (v u to : ℕ)
    → AllUsed sb d v u
    → AllUsed sb d u to
    → AllUsed sb d v to
AllUsed-append sb d v u to first second w l h s = elim (Bool-cases (ltb w u)) [
  | inl before ↦ first w l (ground (arith, before)) s
  | inr after ↦ second w (ground (arith, after)) h s
]

module _ (sb : SuperBlock) (d : Disk) where
  -- the block that is `bi` behind the first one of a bitmap block
  place : (b bi : ℕ) → b % bpb ≡ 0 → bi < bpb → ((b + bi) / bpb ≡ b / bpb) × ((b + bi) % bpb ≡ bi)
  place b bi m h = (omega (arith, m, h), omega (arith, m, h))

  alloc_bits-Searched :
      (n b bi : ℕ)
      → b % bpb ≡ 0
      → bi + n ≡ bpb
      → Searched sb d (b + bi) (b + bpb) (alloc_bits n sb d b bi)
  unfolding alloc_bits Searched
  alloc_bits-Searched zero b bi m e = inl (refl, λ v l h s. absurd (omega (arith, e, l, h)))
  alloc_bits-Searched (suc n) b bi m e = elim (Bool-cases (ltb (b + bi) sb.size)) [
    | inr past ↦ inl (rw (alloc_bits, past) refl, λ v l h s. absurd (ground (arith, past, l, s)))
    | inl inside ↦
        let (q, r) = place b bi m (omega (arith, e)) in
        elim (Bool-cases (bit_and (d (bblock sb b) (bi / 8)) (2 ^ (bi % 8)) == 0)) [
          | inl free ↦ inr (
            b + bi,
            rw (alloc_bits, inside, free, q, r) refl,
            record {
              free = test_free sb d (b + bi) (rw (q, r) free);
              in_range = ground (arith, inside);
              lowest = λ v l h s. absurd (omega (arith, l, h));
            },
          )
          | inr taken ↦
              let here : used sb d (b + bi) ≡ 1 = test_used sb d (b + bi) (rw (q, r) taken) in
              let next : b + bi + 1 ≡ b + (bi + 1) = omega arith in
              elim (alloc_bits-Searched n b (bi + 1) m (omega (arith, e))) [
                | inl (none_free, all) ↦ inl (
                  rw (alloc_bits, inside, taken, none_free) refl,
                  AllUsed-cons sb d (b + bi) (b + bpb) here (rw next all),
                )
                | inr (a, found, low) ↦ inr (
                  a,
                  rw (alloc_bits, inside, taken, found) refl,
                  record {
                    free = low.free;
                    in_range = low.in_range;
                    lowest = AllUsed-cons sb d (b + bi) a here (rw next low.lowest);
                  },
                )
              ]
        ]
  ]

  -- What `balloc` comes to: the lowest free block, marked and filled with zeros, or a panic when every
  -- block is in use.
  unfoldable pub Balloced : ℕ → Outcome (ℕ × Disk) → Type 0
  Balloced from r =
      ((r ≡ panic) × AllUsed sb d from sb.size)
      ⊎ ((a : ℕ) × (r ≡ ok (a, bzero (mark sb d a) a)) × Lowest sb d from a)

  alloc_blocks-Balloced :
      (n b : ℕ) → b % bpb ≡ 0 → sb.size < b + n * bpb → Balloced b (alloc_blocks n sb d b)
  unfolding alloc_blocks Balloced Searched
  alloc_blocks-Balloced zero b m e = inl (refl, λ v l h s. absurd (omega (arith, e, l, h)))
  alloc_blocks-Balloced (suc n) b m e = elim (Bool-cases (ltb b sb.size)) [
    | inr past ↦ inl (rw (alloc_blocks, past) refl, λ v l h s. absurd (ground (arith, past, l, h)))
    | inl inside ↦
        let start : b + 0 ≡ b = omega arith in
        elim (alloc_bits-Searched bpb b 0 m (omega arith)) [
          | inr (a, found, low) ↦ inr (
            a,
            rw (alloc_blocks, inside, found) refl,
            subst (λ (x : ℕ). Lowest sb d x a) start low,
          )
          | inl (none_free, all) ↦
              elim (alloc_blocks-Balloced n (b + bpb) (omega (arith, m)) (omega (arith, e))) [
                | inl (stop, more) ↦ inl (
                  rw (alloc_blocks, inside, none_free, stop) refl,
                  AllUsed-append sb d b (b + bpb) sb.size
                      (subst (λ (x : ℕ). AllUsed sb d x (b + bpb)) start all) more,
                )
                | inr (a, found, low) ↦ inr (
                  a,
                  rw (alloc_blocks, inside, none_free, found) refl,
                  record {
                    free = low.free;
                    in_range = low.in_range;
                    lowest =
                        AllUsed-append sb d b (b + bpb) a
                          (subst (λ (x : ℕ). AllUsed sb d x (b + bpb)) start all) low.lowest;
                  },
                )
              ]
        ]
  ]

  -- `balloc` marks the lowest free block of the disk and fills it with zeros, and it panics exactly when
  -- no block is free: the rounds of both loops are enough for the bitmap.
  pub balloc-Balloced : Balloced 0 (balloc sb d)
  unfolding balloc
  balloc-Balloced = alloc_blocks-Balloced (sb.size / bpb + 1) 0 refl (omega arith)
