-- ===== src/Log/Recovery.antt =====
-- Recovery from any disk that a failure may leave, also when recovery itself fails part of the way.
use osassignment.Prelude.{
  ℕ, ◌+◌, ◌≤◌, ◌<◌, ◌≡◌, refl, ◌∙◌, false, List, [], ◌∷◌, ◌==◌, length, All, inl, inr, Bool-cases,
  arith,
}
use osassignment.Log.{
  Block, Disk, Sys, install_from, install_trans, read_head, write_head, recover_from_log, boot,
}
use osassignment.Log.Writes.{
  log_blocks, Outside, mem, Slots, Slots-ext, Installed, install_from-Installed,
}

-- The disk stands for the blocks `view`: they are at home, or in the log that the header names.
pub record Recoverable (start : ℕ) (d : Disk) (view : ℕ → Block) : Type 0 where
  pub named : All (Outside start) d.header
  pub fits : length d.header ≤ log_blocks
  pub slots : Slots start 0 d.blocks view d.header
  pub home : (b : ℕ) → Outside start b → mem b d.header ≡ false → d.blocks b ≡ view b

not_mem :
    (start b : ℕ) (bs : List ℕ)
    → All (Outside start) bs
    → start < b
    → b ≤ start + log_blocks
    → mem b bs ≡ false
not_mem start b [] o l h = refl
not_mem start b (x ∷ xs) o l h = ground (arith, o.0, not_mem start b xs o.1)

-- Installing from the log `bs`, with the header written or not afterwards.
module _ (s s1 : Sys) (bs : List ℕ) (view : ℕ → Block) (named : All (Outside s.start) bs)
    (fits : length bs ≤ log_blocks) (slots : Slots s.start 0 s.disk.blocks view bs)
    (home : (b : ℕ) → Outside s.start b → mem b bs ≡ false → s.disk.blocks b ≡ view b)
    (r : Installed s bs view s1) where
  pub unfinished : s.disk.header ≡ bs → Recoverable s.start s1.disk view
  unfinished e =
      let header : s1.disk.header ≡ bs = r.header_eq ∙ e in
      record {
        named = rw header named;
        fits = rw header fits;
        slots = rw header (
            Slots-ext s.start 0 s.disk.blocks s1.disk.blocks view bs
              (λ b l h. r.others b (not_mem s.start b bs named (omega arith) (omega arith))) slots);
        home = λ b o m. r.others b (rw header at m) ∙ home b o (rw header at m);
      }

  pub finished :
      0 < s1.left → Recoverable s.start (record { header = []; blocks = s1.disk.blocks }) view
  finished h = record {
    named = tt;
    fits = omega arith;
    slots = tt;
    home = λ b o m. elim (Bool-cases (mem b bs)) [
      | inl installed ↦ r.done (omega (arith, r.left_eq)) b installed
      | inr other ↦ r.others b other ∙ home b o other
    ];
  }

-- A recovery that may fail after any number of writes leaves a disk that stands for the same blocks;
-- with one write for each block of the header and one more it also clears the header.
pub recover_from_log-Recoverable :
    (start : ℕ) (d : Disk) (view : ℕ → Block) (left : ℕ)
    → Recoverable start d view
    → Recoverable start (recover_from_log (boot start d left)).disk view
      × (length d.header < left → (recover_from_log (boot start d left)).disk.header ≡ [])
unfolding recover_from_log install_trans read_head write_head
recover_from_log-Recoverable start d view left v =
    let s : Sys = record (boot start d left) { lh = d.header } in
    let s1 : Sys = install_from 0 d.header s in
    let r : Installed s d.header view s1 =
      install_from-Installed 0 d.header s view v.named (omega (arith, v.fits)) v.slots in
    elim (Bool-cases (s1.left == 0)) [
      | inl dead ↦ (
        rw dead (unfinished s s1 d.header view v.named v.fits v.slots v.home r refl),
        λ h. absurd (ground (arith, r.left_eq)),
      )
      | inr alive ↦ (
        rw alive (finished s s1 d.header view v.named v.fits v.slots v.home r (ground arith)),
        λ h. rw alive refl,
      )
    ]
