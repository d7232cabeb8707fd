-- ===== src/Fs/Blocks/Layout.antt =====
-- The layout that mkfs.c gives the disk, and the allocator on a disk with that layout.
use osassignment.Prelude.{
  ℕ, zero, suc, ◌+◌, ◌-◌, ◌/◌, ◌%◌, ◌^◌, ◌≤◌, ◌<◌, ◌≡◌, ◌≢◌, refl, ◌∙◌, ◌⊎◌, inl, inr, false, ltb,
  ◌==◌, if◌then◌else◌, ok, panic, Bool-cases, arith,
}
use osassignment.Fs.{SuperBlock, Disk, bblock, bpb, bsize, bzero, balloc, bfree}
use mathlib.Core.Path.{subst, sym}
use osassignment.Prelude.Bits.{bit_and-not_pow}
use osassignment.Fs.Blocks.{AllUsed, Lowest, Balloced, balloc-Balloced}
use osassignment.Fs.Blocks.Bitmap.{
  used, mark, unmark, used-mark, used-unmark, test_free, test_used, put_byte_ne,
}
use Prim.Native.Nat.{bit_and}

abbrev pub first_data : SuperBlock → ℕ
first_data sb = sb.size - sb.nblocks

-- The boot block, the log, the inodes and the bitmap stand before the data blocks, in this order.
pub record IsLaidOut (sb : SuperBlock) : Type 0 where
  pub in_word : sb.size < 2 ^ 32
  pub boot : 0 < first_data sb
  pub inodes : sb.ninodes / 8 + sb.inodestart < sb.bmapstart
  pub bitmap : sb.size / bpb + sb.bmapstart < first_data sb

-- The blocks before the data are in use.
abbrev pub IsReserved : SuperBlock → Disk → Type 0
IsReserved sb d = (v : ℕ) → v < first_data sb → used sb d v ≡ 1

abbrev pub count_free : ℕ → SuperBlock → Disk → ℕ
count_free zero sb d = 0
count_free (suc n) sb d = 1 - used sb d n + count_free n sb d

abbrev pub free_blocks : SuperBlock → Disk → ℕ
free_blocks sb d = count_free sb.size sb d

-- The change of the disk when block `a` is taken.
pub record Taken (sb : SuperBlock) (d : Disk) (a : ℕ) (d' : Disk) : Type 0 where
  pub free : used sb d a ≡ 0
  pub in_data : first_data sb ≤ a
  pub in_range : a < sb.size
  pub used_eq : (v : ℕ) → v < sb.size → used sb d' v ≡ (if v == a then 1 else used sb d v)
  pub zeroed : (j : ℕ) → j < bsize → d' a j ≡ 0
  pub others : (c j : ℕ) → first_data sb ≤ c → c ≢ a → d' c j ≡ d c j

pub bblock-lt : (sb : SuperBlock) (v : ℕ) → IsLaidOut sb → v < sb.size → bblock sb v < first_data sb
bblock-lt sb v l h = omega (arith, l.bitmap, h)

used-bzero :
    (sb : SuperBlock) (d : Disk) (a v : ℕ) → bblock sb v < a → used sb (bzero d a) v ≡ used sb d v
unfolding used
used-bzero sb d a v h = let other : bblock sb v == a ≡ false = ground (arith, h) in rw other refl

pub Lowest-Taken :
    (sb : SuperBlock) (d : Disk) (a : ℕ)
    → IsLaidOut sb
    → IsReserved sb d
    → Lowest sb d 0 a
    → Taken sb d a (bzero (mark sb d a) a)
Lowest-Taken sb d a l r low =
    let in_data : first_data sb ≤ a = elim (Bool-cases (ltb a (first_data sb))) [
      | inl before ↦ absurd (omega (arith, r a (ground (arith, before)), low.free))
      | inr after ↦ ground (arith, after)
    ] in
    record {
      free = low.free;
      in_data = in_data;
      in_range = low.in_range;
      used_eq = λ v h.
          used-bzero sb (mark sb d a) a v (omega (arith, bblock-lt sb v l h, in_data))
          ∙ used-mark sb d a v low.free;
      zeroed = λ j h. ground (arith, h);
      others = λ c j h ne.
          let map : c ≢ bblock sb a = λ e. omega (arith, bblock-lt sb a l low.in_range, h, e) in
          ground (arith, ne, put_byte_ne d (bblock sb a) (a % bpb / 8) _ c j map);
    }

count_free-Taken_above :
    (n : ℕ) (sb : SuperBlock) (d d' : Disk) (a : ℕ)
    → Taken sb d a d'
    → n ≤ a
    → count_free n sb d' ≡ count_free n sb d
count_free-Taken_above zero sb d d' a t h = refl
count_free-Taken_above (suc n) sb d d' a t h =
    let same : used sb d' n ≡ used sb d n =
      t.used_eq n (omega (arith, h, t.in_range))
      ∙ (let other : n == a ≡ false = ground (arith, h) in rw other refl) in
    omega (arith, same, count_free-Taken_above n sb d d' a t (omega (arith, h)))

count_free-Taken :
    (n : ℕ) (sb : SuperBlock) (d d' : Disk) (a : ℕ)
    → Taken sb d a d'
    → a < n
    → n ≤ sb.size
    → count_free n sb d' + 1 ≡ count_free n sb d
count_free-Taken zero sb d d' a t h l = absurd (omega (arith, h))
count_free-Taken (suc n) sb d d' a t h l = elim (Bool-cases (n == a)) [
  | inl here ↦
      let same : n ≡ a = ground (arith, here) in
      let new : used sb d' n ≡ 1 = t.used_eq n (omega (arith, l)) ∙ rw here refl in
      let old : used sb d n ≡ 0 = rw same t.free in
      omega (arith, new, old, count_free-Taken_above n sb d d' a t (omega (arith, same)))
  | inr other ↦
      let same : used sb d' n ≡ used sb d n = t.used_eq n (omega (arith, l)) ∙ rw other refl in
      let below : a < n = ground (arith, other, h) in
      omega (arith, same, count_free-Taken n sb d d' a t below (omega (arith, l)))
]

pub free_blocks-Taken :
    (sb : SuperBlock) (d d' : Disk) (a : ℕ)
    → Taken sb d a d'
    → free_blocks sb d' + 1 ≡ free_blocks sb d
free_blocks-Taken sb d d' a t = count_free-Taken sb.size sb d d' a t t.in_range (omega arith)

pub Taken-IsReserved :
    (sb : SuperBlock) (d d' : Disk) (a : ℕ) → Taken sb d a d' → IsReserved sb d → IsReserved sb d'
Taken-IsReserved sb d d' a t r v h =
    t.used_eq v (omega (arith, h))
    ∙ (let other : v == a ≡ false = ground (arith, h, t.in_data) in rw other (r v h))

AllUsed-none :
    (n : ℕ) (sb : SuperBlock) (d : Disk)
    → AllUsed sb d 0 sb.size
    → n ≤ sb.size
    → count_free n sb d ≡ 0
AllUsed-none zero sb d all h = refl
AllUsed-none (suc n) sb d all h = omega (
  arith,
  all n (omega arith) (omega (arith, h)) (omega (arith, h)),
  AllUsed-none n sb d all (omega (arith, h)),
)

-- With a free block on the disk, `balloc` takes a data block that was free.
pub balloc-Taken :
    (sb : SuperBlock) (d : Disk)
    → IsLaidOut sb
    → IsReserved sb d
    → 0 < free_blocks sb d
    → (a : ℕ) × (d' : Disk) × (balloc sb d ≡ ok (a, d')) × Taken sb d a d'
unfolding Balloced
balloc-Taken sb d l r h = elim (balloc-Balloced sb d) [
  | inl (stop, all) ↦ absurd (omega (arith, AllUsed-none sb.size sb d all (omega arith), h))
  | inr (a, found, low) ↦ (a, bzero (mark sb d a) a, found, Lowest-Taken sb d a l r low)
]

-- What `bfree` does: it panics on a free block, and of any other it clears the bit.
pub record Freed (sb : SuperBlock) (d : Disk) (b : ℕ) (d' : Disk) : Type 0 where
  pub used_eq : (v : ℕ) → used sb d' v ≡ (if v == b then 0 else used sb d v)
  pub others : (c j : ℕ) → c ≢ bblock sb b → d' c j ≡ d c j
  pub smaller : (c j : ℕ) → d' c j ≤ d c j

unmark_smaller :
    (sb : SuperBlock) (d : Disk) (b : ℕ)
    → d (bblock sb b) (b % bpb / 8) < 2 ^ 8
    → (c j : ℕ) → unmark sb d b c j ≤ d c j
unmark_smaller sb d b small c j =
    let less : bit_and (d (bblock sb b) (b % bpb / 8)) (2 ^ 8 - 1 - 2 ^ (b % bpb % 8))
        ≤ d (bblock sb b) (b % bpb / 8) =
      omega (
        arith,
        bit_and-not_pow (b % bpb % 8) 8 (d (bblock sb b) (b % bpb / 8)) (omega arith) small,
      ) in
    elim (Bool-cases (c == bblock sb b)) [
      | inr other ↦ rw other (omega arith)
      | inl block ↦ elim (Bool-cases (j == b % bpb / 8)) [
        | inr other ↦ rw (block, other) (omega arith)
        | inl byte ↦
            let ec : c ≡ bblock sb b = ground (arith, block) in
            let ej : j ≡ b % bpb / 8 = ground (arith, byte) in
            let same : d c j ≡ d (bblock sb b) (b % bpb / 8) = rw (ec, ej) refl in
            rw (block, byte)
              (subst
                (λ (x : ℕ).
                  bit_and (d (bblock sb b) (b % bpb / 8)) (2 ^ 8 - 1 - 2 ^ (b % bpb % 8)) ≤ x)
                (sym same) less)
      ]
    ]

-- `bfree` returns exactly for a block in use, which is then free, with no other block's bit changed and
-- no byte outside the bitmap; for a free block it panics ("freeing free block"). The byte of the bitmap
-- is taken to be a byte.
pub bfree-Freed :
    (sb : SuperBlock) (d : Disk) (b : ℕ)
    → d (bblock sb b) (b % bpb / 8) < 2 ^ 8
    → ((used sb d b ≡ 0) × (bfree sb d b ≡ panic))
      ⊎ ((used sb d b ≡ 1) × (d' : Disk) × (bfree sb d b ≡ ok d') × Freed sb d b d')
unfolding bfree
bfree-Freed sb d b small =
    elim (Bool-cases (bit_and (d (bblock sb b) (b % bpb / 8)) (2 ^ (b % bpb % 8)) == 0)) [
      | inl free ↦ inl (test_free sb d b free, rw free refl)
      | inr taken ↦
          let one : used sb d b ≡ 1 = test_used sb d b taken in
          inr (
            one,
            unmark sb d b,
            rw taken refl,
            record {
              used_eq = λ v. used-unmark sb d b v one small;
              others = λ c j. put_byte_ne d (bblock sb b) (b % bpb / 8) _ c j;
              smaller = unmark_smaller sb d b small;
            },
          )
    ]
