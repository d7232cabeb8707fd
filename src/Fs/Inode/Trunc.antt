-- ===== src/Fs/Inode/Trunc.antt =====
-- `itrunc` frees the blocks of the file and no other.
use osassignment.Prelude.{
  ℕ, ◌/◌, ◌%◌, ◌^◌, ◌≤◌, ◌<◌, ◌≡◌, ◌≢◌, refl, sym, ap, ◌∙◌, inl, inr, Bool, true, false, ◌==◌,
  if◌then◌else◌, ok, Bool-cases, arith,
}
use mathlib.Core.Path.{subst}
use osassignment.Fs.{SuperBlock, Disk, bpb, bblock, bfree}
use osassignment.Fs.Blocks.Bitmap.{used}
use osassignment.Fs.Blocks.Layout.{first_data, IsLaidOut, bfree-Freed, bblock-lt}
use osassignment.Fs.Inode.{FileState}
use osassignment.Fs.Inode.Slots.{places, slot, IsFile}

-- Every byte of the bitmap is a byte.
abbrev pub HasBytes : SuperBlock → Disk → Type 0
HasBytes sb d = (v : ℕ) → v < sb.size → d (bblock sb v) (v % bpb / 8) < 2 ^ 8

abbrev pub with_place : (ℕ → Bool) → ℕ → ℕ → Bool
with_place done k j = if j == k then true else done j

-- The disk when the blocks of some places of the file are freed.
pub record Freeing (sb : SuperBlock) (s : FileState) (done : ℕ → Bool) (d : Disk) : Type 0 where
  pub freed : (k : ℕ) → k < places → done k ≡ true → slot s k ≢ 0 → used sb d (slot s k) ≡ 0
  pub kept :
      (v : ℕ)
      → ((k : ℕ) → k < places → done k ≡ true → slot s k ≢ v)
      → used sb d v ≡ used sb s.disk v
  pub blocks : (c j : ℕ) → first_data sb ≤ c → d c j ≡ s.disk c j
  pub smaller : (c j : ℕ) → d c j ≤ s.disk c j

module _ (sb : SuperBlock) (s : FileState) where
  pub Freeing-same :
      (done done' : ℕ → Bool) (d : Disk)
      → ((k : ℕ) → k < places → done' k ≡ done k)
      → Freeing sb s done d
      → Freeing sb s done' d
  Freeing-same done done' d h p = record {
    freed = λ k lt e. p.freed k lt (sym (h k lt) ∙ e);
    kept = λ v out. p.kept v (λ k lt e. out k lt (h k lt ∙ e));
    blocks = p.blocks;
    smaller = p.smaller;
  }

  -- A place without a block.
  pub Freeing-skip :
      (done : ℕ → Bool) (d : Disk) (k : ℕ)
      → k < places
      → slot s k ≡ 0
      → Freeing sb s done d
      → Freeing sb s (with_place done k) d
  Freeing-skip done d k here z p = record {
    freed = λ j lt e ne. elim (Bool-cases (j == k)) [
      | inl same ↦ let q : j ≡ k = ground (arith, same) in absurd (ne (rw q z))
      | inr other ↦
          p.freed j lt (subst (λ (b : Bool). (if b then true else done j) ≡ true) other e) ne
    ];
    kept = λ v out. p.kept v (λ j lt e.
        out j lt (elim (Bool-cases (j == k)) [ inl same ↦ rw same refl | inr other ↦ rw other e ]));
    blocks = p.blocks;
    smaller = p.smaller;
  }

  module _ (l : IsLaidOut sb) (f : IsFile sb s) (bytes : HasBytes sb s.disk) where
    -- A place with a block: `bfree` frees it.
    pub Freeing-step :
        (done : ℕ → Bool) (d : Disk) (k : ℕ)
        → k < places
        → slot s k ≢ 0
        → done k ≡ false
        → Freeing sb s done d
        → (d' : Disk) × (bfree sb d (slot s k) ≡ ok d') × Freeing sb s (with_place done k) d'
    Freeing-step done d k here ne not_done p =
        let t = f.taken k here ne in
        let in_use : used sb d (slot s k) ≡ 1 =
          p.kept (slot s k) (λ j lt e same.
            let ne' : slot s j ≢ 0 = λ z. ne (sym same ∙ z) in
            let jk : j ≡ k = f.distinct j k lt here ne' same in
            absurd (bool_clash (done k) (subst (λ (x : ℕ). done x ≡ true) jk e) not_done))
          ∙ t.in_use in
        let small : d (bblock sb (slot s k)) (slot s k % bpb / 8) < 2 ^ 8 = omega (
          arith,
          p.smaller (bblock sb (slot s k)) (slot s k % bpb / 8),
          bytes (slot s k) t.in_range,
        ) in
        elim (bfree-Freed sb d (slot s k) small) [
          | inl (free, e) ↦ absurd (omega (arith, free, in_use))
          | inr (one, d', e, fr) ↦ (
            d',
            e,
            record {
              freed = λ j lt h ne'. elim (Bool-cases (slot s j == slot s k)) [
                | inl same ↦ fr.used_eq (slot s j) ∙ rw same refl
                | inr other ↦
                    let jk : j == k ≡ false = elim (Bool-cases (j == k)) [
                      | inr o ↦ o
                      | inl q ↦
                          let e' : j ≡ k = ground (arith, q) in
                          let same : slot s j ≡ slot s k = ap (slot s) e' in
                          absurd (ground (arith, same, other))
                    ] in
                    fr.used_eq (slot s j)
                    ∙ rw other (
                        p.freed j lt
                          (subst (λ (b : Bool). (if b then true else done j) ≡ true) jk h) ne')
              ];
              kept = λ v out.
                  let self : k == k ≡ true = ground arith in
                  let not_v : slot s k ≢ v = out k here (rw self refl) in
                  let other : v == slot s k ≡ false =
                    ground (arith, λ (q : v ≡ slot s k). not_v (sym q)) in
                  fr.used_eq v
                  ∙ rw other (
                      p.kept v (λ j lt h.
                        out j lt (elim (Bool-cases (j == k)) [
                          | inl same ↦ rw same refl
                          | inr o ↦ rw o h
                        ])));
              blocks = λ c j h.
                  let low = bblock-lt sb (slot s k) l t.in_range in
                  fr.others c j (λ q. omega (arith, low, h, q)) ∙ p.blocks c j h;
              smaller = λ c j. omega (arith, fr.smaller c j, p.smaller c j);
            },
          )
        ]
      where
        bool_clash : (b : Bool) → b ≡ true → b ≡ false → ⊥
        bool_clash true x y = absurd (cc)
        bool_clash false x y = absurd (cc)
