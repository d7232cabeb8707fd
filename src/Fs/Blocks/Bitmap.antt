-- ===== src/Fs/Blocks/Bitmap.antt =====
-- The bit that stands for a block.
use osassignment.Prelude.{
  ℕ, ◌-◌, ◌/◌, ◌%◌, ◌^◌, ◌<◌, ◌≡◌, ◌≢◌, ap, ◌∙◌, inl, inr, true, false, ◌==◌, if◌then◌else◌,
  Bool-cases, arith,
}
use osassignment.Prelude.Bits.{bit, bit-lt}
use osassignment.Prelude.Bits.Flip.{
  bit_and_clear, bit_and_set, bit-bit_or_self, bit-bit_or_ne, bit-bit_and_self, bit-bit_and_ne,
}
use osassignment.Fs.{SuperBlock, Disk, put_byte, bblock, bpb}
use Prim.Native.Nat.{bit_and, bit_or}

-- 1 if the bitmap says that block `v` is in use.
unfoldable pub used : SuperBlock → Disk → ℕ → ℕ
used sb d v = bit (v % bpb % 8) (d (bblock sb v) (v % bpb / 8))

-- The disk with another byte where the bit of a block stands.
abbrev pub with_byte : SuperBlock → Disk → ℕ → ℕ → Disk
with_byte sb d v x = put_byte d (bblock sb v) (v % bpb / 8) x

-- The bitmap with one more block in use, and with one less.
abbrev pub mark : SuperBlock → Disk → ℕ → Disk
mark sb d v = with_byte sb d v (bit_or (d (bblock sb v) (v % bpb / 8)) (2 ^ (v % bpb % 8)))

abbrev pub unmark : SuperBlock → Disk → ℕ → Disk
unmark sb d v =
    with_byte sb d v (bit_and (d (bblock sb v) (v % bpb / 8)) (2 ^ 8 - 1 - 2 ^ (v % bpb % 8)))

pub used-lt : (sb : SuperBlock) (d : Disk) (v : ℕ) → used sb d v < 2
unfolding used
used-lt sb d v = bit-lt (v % bpb % 8) (d (bblock sb v) (v % bpb / 8))

pub put_byte_self : (d : Disk) (b i v : ℕ) → put_byte d b i v b i ≡ v
put_byte_self d b i v = ground arith

pub put_byte_ne : (d : Disk) (b i v c j : ℕ) → c ≢ b → put_byte d b i v c j ≡ d c j
put_byte_ne d b i v c j ne = ground (arith, ne)

-- Two blocks have different bits.
data Apart (sb : SuperBlock) (v w : ℕ) : Type 0 where
  byte_apart :
      ((x : ℕ) (d : Disk)
        → with_byte sb d v x (bblock sb w) (w % bpb / 8) ≡ d (bblock sb w) (w % bpb / 8))
      → Apart sb v w
  bit_apart :
      bblock sb w ≡ bblock sb v
      → w % bpb / 8 ≡ v % bpb / 8
      → (v % bpb % 8) ≢ (w % bpb % 8)
      → Apart sb v w

apart : (sb : SuperBlock) (v w : ℕ) → v ≢ w → Apart sb v w
apart sb v w ne = elim (Bool-cases (bblock sb w == bblock sb v)) [
  | inr other ↦ byte_apart (λ x d. ground (arith, other))
  | inl same ↦ elim (Bool-cases (w % bpb / 8 == v % bpb / 8)) [
    | inr other ↦ byte_apart (λ x d. ground (arith, other))
    | inl byte ↦
        let blocks : bblock sb w ≡ bblock sb v = ground (arith, same) in
        let bytes : w % bpb / 8 ≡ v % bpb / 8 = ground (arith, byte) in
        bit_apart blocks bytes (λ e. ne (omega (arith, blocks, bytes, e)))
  ]
]

with_byte-used_self :
    (sb : SuperBlock) (d : Disk) (v x : ℕ) → used sb (with_byte sb d v x) v ≡ bit (v % bpb % 8) x
unfolding used
with_byte-used_self sb d v x =
    ap (bit (v % bpb % 8)) (put_byte_self d (bblock sb v) (v % bpb / 8) x)

with_byte-used_ne :
    (sb : SuperBlock) (d : Disk) (v x w : ℕ)
    → v ≢ w
    → ((j : ℕ) → (v % bpb % 8) ≢ j → bit j x ≡ bit j (d (bblock sb v) (v % bpb / 8)))
    → used sb (with_byte sb d v x) w ≡ used sb d w
unfolding used
with_byte-used_ne sb d v x w ne h = elim (apart sb v w ne) [
  | byte_apart f ↦ ap (bit (w % bpb % 8)) (f x d)
  | bit_apart b i k ↦
      rw (b, i)
        (ap (bit (w % bpb % 8)) (put_byte_self d (bblock sb v) (v % bpb / 8) x) ∙ h (w % bpb % 8) k)
]

-- `mark` and `unmark` change the bit of their block only.
pub used-mark :
    (sb : SuperBlock) (d : Disk) (v w : ℕ)
    → used sb d v ≡ 0
    → used sb (mark sb d v) w ≡ (if w == v then 1 else used sb d w)
unfolding used
used-mark sb d v w z = elim (Bool-cases (w == v)) [
  | inl same ↦
      let e : w ≡ v = ground (arith, same) in
      rw (same, e) (with_byte-used_self sb d v _ ∙ bit-bit_or_self (v % bpb % 8) _ z)
  | inr other ↦ rw other (
      with_byte-used_ne sb d v _ w (ground (arith, other))
        (λ j ne. bit-bit_or_ne (v % bpb % 8) j _ ne z))
]

pub used-unmark :
    (sb : SuperBlock) (d : Disk) (v w : ℕ)
    → used sb d v ≡ 1
    → d (bblock sb v) (v % bpb / 8) < 2 ^ 8
    → used sb (unmark sb d v) w ≡ (if w == v then 0 else used sb d w)
unfolding used
used-unmark sb d v w o small = elim (Bool-cases (w == v)) [
  | inl same ↦
      let e : w ≡ v = ground (arith, same) in
      rw (same, e)
        (with_byte-used_self sb d v _ ∙ bit-bit_and_self (v % bpb % 8) 8 _ (omega arith) small o)
  | inr other ↦ rw other (
      with_byte-used_ne sb d v _ w (ground (arith, other))
        (bit-bit_and_ne (v % bpb % 8) 8 _ (omega arith) small o))
]

-- The test of the loops.
pub test_free :
    (sb : SuperBlock) (d : Disk) (v : ℕ)
    → bit_and (d (bblock sb v) (v % bpb / 8)) (2 ^ (v % bpb % 8)) == 0 ≡ true
    → used sb d v ≡ 0
unfolding used
test_free sb d v h =
    let lt = bit-lt (v % bpb % 8) (d (bblock sb v) (v % bpb / 8)) in
    elim (Bool-cases (used sb d v == 0)) [
      | inl z ↦ ground (arith, z)
      | inr o ↦
          let one =
            bit_and_set (v % bpb % 8) (d (bblock sb v) (v % bpb / 8)) (ground (arith, o, lt)) in
          absurd (ground (arith, one, h))
    ]

pub test_used :
    (sb : SuperBlock) (d : Disk) (v : ℕ)
    → bit_and (d (bblock sb v) (v % bpb / 8)) (2 ^ (v % bpb % 8)) == 0 ≡ false
    → used sb d v ≡ 1
unfolding used
test_used sb d v h =
    let lt = bit-lt (v % bpb % 8) (d (bblock sb v) (v % bpb / 8)) in
    elim (Bool-cases (used sb d v == 0)) [
      | inl z ↦
          let clear =
            bit_and_clear (v % bpb % 8) (d (bblock sb v) (v % bpb / 8)) (ground (arith, z)) in
          absurd (ground (arith, clear, h))
      | inr o ↦ ground (arith, o, lt)
    ]
