-- ===== src/Fs/Inode/Slots.antt =====
-- The blocks that a file has, and what one more of them changes.
use osassignment.Prelude.{
  ℕ, ◌+◌, ◌-◌, ◌/◌, ◌%◌, ◌≤◌, ◌<◌, ◌≡◌, ◌≢◌, refl, sym, ap, ◌∙◌, inl, inr, true, false, ltb, leb,
  ◌==◌, if◌then◌else◌, Bool-cases, arith,
}
use mathlib.Core.Path.{subst}
use osassignment.Fs.{SuperBlock, Disk, bsize}
use osassignment.Fs.Blocks.Bitmap.{used}
use osassignment.Fs.Blocks.Layout.{first_data, IsReserved, free_blocks}
use osassignment.Fs.Inode.{Inode, FileState, word, ndirect}

-- Places 0 to 11 are the direct blocks, 12 is the indirect block and 13 to 140 are its entries.
abbrev pub places : ℕ
places = 141

abbrev pub slot : FileState → ℕ → ℕ
slot s k =
    if leb k ndirect
    then s.ip.addrs k
    else if s.ip.addrs ndirect == 0
    then 0
    else word s.disk (s.ip.addrs ndirect) (k - 13)

-- The place of the `bn`-th block of the file.
abbrev pub index : ℕ → ℕ
index bn = if ltb bn ndirect then bn else bn + 1

-- The byte `o` of the file, 0 where the file has no block.
abbrev pub content : FileState → ℕ → ℕ
content s o =
    if slot s (index (o / bsize)) == 0 then 0 else s.disk (slot s (index (o / bsize))) (o % bsize)

-- A data block that the bitmap has in use.
pub record IsTaken (sb : SuperBlock) (d : Disk) (c : ℕ) : Type 0 where
  pub in_data : first_data sb ≤ c
  pub in_range : c < sb.size
  pub in_use : used sb d c ≡ 1

-- The blocks of the file are data blocks in use, each at one place.
pub record IsFile (sb : SuperBlock) (s : FileState) : Type 0 where
  pub reserved : IsReserved sb s.disk
  pub taken : (k : ℕ) → k < places → slot s k ≢ 0 → IsTaken sb s.disk (slot s k)
  pub distinct : (j k : ℕ) → j < places → k < places → slot s j ≢ 0 → slot s j ≡ slot s k → j ≡ k

abbrev pub IsForeign : FileState → ℕ → Type 0
IsForeign s c = (k : ℕ) → k < places → slot s k ≢ c

-- Place `k` gets the block `b`.
pub record IsGrown (sb : SuperBlock) (s : FileState) (k b : ℕ) (s' : FileState) : Type 0 where
  pub empty : slot s k ≡ 0
  pub fresh : used sb s.disk b ≡ 0
  pub in_data : first_data sb ≤ b
  pub in_range : b < sb.size
  pub used_eq : (v : ℕ) → v < sb.size → used sb s'.disk v ≡ (if v == b then 1 else used sb s.disk v)
  pub slot_eq : (j : ℕ) → j < places → slot s' j ≡ (if j == k then b else slot s j)
  pub zeroed : (j : ℕ) → j < bsize → s'.disk b j ≡ 0
  pub kept :
      (c j : ℕ) → first_data sb ≤ c → c ≢ b → c ≢ s.ip.addrs ndirect → s'.disk c j ≡ s.disk c j
  pub ip_eq : s'.ip ≡ record s.ip { addrs = s'.ip.addrs }
  pub free_eq : free_blocks sb s'.disk + 1 ≡ free_blocks sb s.disk

-- Growth by `n` blocks: the file reads as before, and no block of another file is touched or taken.
pub record Extends (sb : SuperBlock) (n : ℕ) (s s' : FileState) : Type 0 where
  pub file : IsFile sb s'
  pub content_eq : (o : ℕ) → index (o / bsize) < places → content s' o ≡ content s o
  pub slot_kept : (k : ℕ) → k < places → slot s k ≢ 0 → slot s' k ≡ slot s k
  pub foreign :
      (c j : ℕ)
      → IsTaken sb s.disk c
      → IsForeign s c
      → (s'.disk c j ≡ s.disk c j) × IsTaken sb s'.disk c × IsForeign s' c
  pub ip_eq : s'.ip ≡ record s.ip { addrs = s'.ip.addrs }
  pub free_eq : free_blocks sb s'.disk + n ≡ free_blocks sb s.disk

pub Extends-refl : (sb : SuperBlock) (s : FileState) → IsFile sb s → Extends sb 0 s s
Extends-refl sb s f = record {
  file = f;
  content_eq = λ o h. refl;
  slot_kept = λ k h ne. refl;
  foreign = λ c j t f. (refl, t, f);
  ip_eq = refl;
  free_eq = omega arith;
}

pub Extends-trans :
    (sb : SuperBlock) (m n : ℕ) (s t u : FileState)
    → Extends sb m s t
    → Extends sb n t u
    → Extends sb (m + n) s u
Extends-trans sb m n s t u e f = record {
  file = f.file;
  content_eq = λ o h. f.content_eq o h ∙ e.content_eq o h;
  slot_kept =
      λ k h ne. let first = e.slot_kept k h ne in f.slot_kept k h (λ z. ne (sym first ∙ z)) ∙ first;
  foreign = λ c j taken foreign.
      let (a, b, x) = e.foreign c j taken foreign in
      let (a', b', x') = f.foreign c j b x in (a' ∙ a, b', x');
  ip_eq = f.ip_eq ∙ ap (λ (i : Inode). record i { addrs = u.ip.addrs }) e.ip_eq;
  free_eq = omega (arith, e.free_eq, f.free_eq);
}

module _ (sb : SuperBlock) (s s' : FileState) (k b : ℕ) (boot : 0 < first_data sb)
    (here : k < places) (f : IsFile sb s) (g : IsGrown sb s k b s') where
  slot_other : (j : ℕ) → j < places → j ≢ k → slot s' j ≡ slot s j
  slot_other j h ne =
      let other : j == k ≡ false = ground (arith, ne) in g.slot_eq j h ∙ rw other refl

  slot_here : slot s' k ≡ b
  slot_here = let self : k == k ≡ true = ground arith in g.slot_eq k here ∙ rw self refl

  used_other : (v : ℕ) → IsTaken sb s.disk v → (v ≢ b) × (used sb s'.disk v ≡ 1)
  used_other v t =
      let ne : v ≢ b = λ e.
        (let u : used sb s.disk b ≡ 1 = rw (← e) t.in_use in absurd (omega (arith, u, g.fresh))) in
      let other : v == b ≡ false = ground (arith, ne) in
      (ne, g.used_eq v t.in_range ∙ rw other t.in_use)

  still-IsTaken : (v : ℕ) → IsTaken sb s.disk v → IsTaken sb s'.disk v
  still-IsTaken v t = record {
    in_data = t.in_data;
    in_range = t.in_range;
    in_use = (used_other v t).1;
  }

  new-IsTaken : IsTaken sb s'.disk b
  new-IsTaken =
      let self : b == b ≡ true = ground arith in
      record {
        in_data = g.in_data;
        in_range = g.in_range;
        in_use = g.used_eq b g.in_range ∙ rw self refl;
      }

  grown-IsTaken : (j : ℕ) → j < places → slot s' j ≢ 0 → IsTaken sb s'.disk (slot s' j)
  grown-IsTaken j h ne = elim (Bool-cases (j == k)) [
    | inl same ↦
        let e : slot s' j ≡ b = g.slot_eq j h ∙ rw same refl in
        subst (λ (v : ℕ). IsTaken sb s'.disk v) (sym e) new-IsTaken
    | inr other ↦
        let e : slot s' j ≡ slot s j = g.slot_eq j h ∙ rw other refl in
        subst (λ (v : ℕ). IsTaken sb s'.disk v) (sym e)
          (still-IsTaken (slot s j) (f.taken j h (λ z. ne (e ∙ z))))
  ]

  -- no old place has the new block
  old_ne : (j : ℕ) → j < places → slot s j ≢ b
  old_ne j h e =
      let some_block : slot s j ≢ 0 = λ z. omega (arith, boot, g.in_data, e, z) in
      (used_other (slot s j) (f.taken j h some_block)).0 e

  grown_distinct :
      (i j : ℕ) → i < places → j < places → slot s' i ≢ 0 → slot s' i ≡ slot s' j → i ≡ j
  grown_distinct i j hi hj ne e = elim (Bool-cases (i == k)) [
    | inl si ↦ elim (Bool-cases (j == k)) [
      | inl sj ↦ ground (arith, si, sj)
      | inr oj ↦
          let a : slot s' i ≡ b = g.slot_eq i hi ∙ rw si refl in
          let c : slot s' j ≡ slot s j = g.slot_eq j hj ∙ rw oj refl in
          absurd (old_ne j hj (sym c ∙ (sym e ∙ a)))
    ]
    | inr oi ↦
        let a : slot s' i ≡ slot s i = g.slot_eq i hi ∙ rw oi refl in
        elim (Bool-cases (j == k)) [
          | inl sj ↦
              let c : slot s' j ≡ b = g.slot_eq j hj ∙ rw sj refl in
              absurd (old_ne i hi (sym a ∙ (e ∙ c)))
          | inr oj ↦
              let c : slot s' j ≡ slot s j = g.slot_eq j hj ∙ rw oj refl in
              f.distinct i j hi hj (λ z. ne (a ∙ z)) (sym a ∙ (e ∙ c))
        ]
  ]

  grown_content : (o : ℕ) → index (o / bsize) < places → content s' o ≡ content s o
  grown_content o h = elim (Bool-cases (index (o / bsize) == k)) [
    | inl same ↦
        let e : index (o / bsize) ≡ k = ground (arith, same) in
        let new : slot s' (index (o / bsize)) ≡ b = rw e slot_here in
        let old : slot s (index (o / bsize)) ≡ 0 = rw e g.empty in
        let some_block : b == 0 ≡ false = ground (arith, boot, g.in_data) in
        rw (new, some_block, old) (g.zeroed (o % bsize) (omega arith))
    | inr other ↦
        let e : slot s' (index (o / bsize)) ≡ slot s (index (o / bsize)) =
          g.slot_eq (index (o / bsize)) h ∙ rw other refl in
        elim (Bool-cases (slot s (index (o / bsize)) == 0)) [
          | inl none_there ↦ rw (e, none_there) refl
          | inr there ↦
              let ne : slot s (index (o / bsize)) ≢ 0 = ground (arith, there) in
              let t = f.taken (index (o / bsize)) h ne in
              let not_table : index (o / bsize) ≢ ndirect = ground arith in
              let apart : slot s (index (o / bsize)) ≢ s.ip.addrs ndirect =
                λ q. not_table (f.distinct (index (o / bsize)) ndirect h (omega arith) ne q) in
              rw (e, there)
                (g.kept (slot s (index (o / bsize))) (o % bsize) t.in_data
                  (used_other (slot s (index (o / bsize))) t).0 apart)
        ]
  ]

  grown-IsForeign : (c : ℕ) → IsTaken sb s.disk c → IsForeign s c → IsForeign s' c
  grown-IsForeign c t h j lt e = elim (Bool-cases (j == k)) [
    | inl same ↦ (used_other c t).0 (sym e ∙ (g.slot_eq j lt ∙ rw same refl))
    | inr other ↦ h j lt (sym (g.slot_eq j lt ∙ rw other refl) ∙ e)
  ]

  pub IsGrown-Extends : Extends sb 1 s s'
  IsGrown-Extends = record {
    file = record {
      reserved = λ v h.
          let out : v == b ≡ false = ground (arith, h, g.in_data) in
          g.used_eq v (omega (arith, h)) ∙ rw out (f.reserved v h);
      taken = grown-IsTaken;
      distinct = grown_distinct;
    };
    content_eq = grown_content;
    slot_kept = λ j h ne. slot_other j h (λ e. ne (rw e g.empty));
    foreign = λ c j t h. (
      g.kept c j t.in_data (used_other c t).0 (λ e. h ndirect (omega arith) (sym e)),
      still-IsTaken c t,
      grown-IsForeign c t h,
    );
    ip_eq = g.ip_eq;
    free_eq = g.free_eq;
  }
