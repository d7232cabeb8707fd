-- ===== src/Log/Atomic.antt =====
-- A transaction is on the disk whole or not at all, wherever the power fails.
use mathlib.Core.Path.{subst}
use osassignment.Prelude.{
  ℕ, ◌+◌, ◌-◌, ◌*◌, ◌≤◌, ◌<◌, ◌≡◌, refl, ◌∙◌, true, false, List, [], ◌∷◌, ltb, ◌==◌, if◌then◌else◌,
  length, All, ◌⊎◌, inl, inr, Bool-cases, arith,
}
use osassignment.Log.{
  Block, Disk, Sys, install_from, install_trans, write_head, write_log, write_log_from, commit,
  recover_from_log, boot,
}
use osassignment.Log.Writes.{
  log_blocks, Outside, mem, Slots, Installed, install_from-Installed, install_from_dead, Logged,
  write_log_from-Logged,
}
use osassignment.Log.Recovery.{Recoverable, unfinished, finished, recover_from_log-Recoverable}

-- The blocks as they are before the transaction of `s`, and after it.
abbrev pub new_view : Sys → ℕ → Block
new_view s b = if mem b s.lh then s.cache b else s.disk.blocks b

all_cached :
    (s : Sys) (v : ℕ → Block) (bs : List ℕ)
    → All (Outside s.start) bs
    → ((b : ℕ) → mem b bs ≡ true → s.cache b ≡ v b)
    → All (λ b. Outside s.start b × (s.cache b ≡ v b)) bs
all_cached s v [] o e = tt
all_cached s v (x ∷ xs) o e =
    ((o.0, e x (ground arith)), all_cached s v xs o.1 (λ b m. e b (ground arith)))

module _ (s : Sys) (clear : s.disk.header ≡ []) (named : All (Outside s.start) s.lh)
    (fits : length s.lh ≤ log_blocks) where
  abbrev s1 : Sys
  s1 = write_log_from 0 s.lh s

  Logged-all : Logged s 0 s.lh (new_view s) s1
  Logged-all =
      write_log_from-Logged 0 s.lh s (new_view s)
        (all_cached s (new_view s) s.lh named (λ b m. rw m refl)) (omega arith)

  Outside-kept : (b : ℕ) → Outside s.start b → s1.disk.blocks b ≡ s.disk.blocks b
  Outside-kept b o = (Logged-all.others b (ground arith)).0

  -- the machine with the header written
  abbrev s2 : Sys
  s2 = record s1 { disk = record s1.disk { header = s.lh }; left = s1.left - 1; lh = s.lh }

  abbrev s3 : Sys
  s3 = install_from 0 s.lh s2

  installed : Installed s2 s.lh (new_view s) s3
  installed =
      install_from-Installed 0 s.lh s2 (new_view s) (rw Logged-all.start_eq named) (omega arith)
        (rw Logged-all.start_eq Logged-all.cached)

  old_disk : Recoverable s.start s1.disk s.disk.blocks
  old_disk =
      let header : s1.disk.header ≡ [] = Logged-all.header_eq ∙ clear in
      record {
        named = rw header tt;
        fits = rw header (omega arith);
        slots = rw header tt;
        home = λ b o m. Outside-kept b o;
      }

  new_home : (b : ℕ) → Outside s.start b → mem b s.lh ≡ false → s2.disk.blocks b ≡ new_view s b
  new_home b o m = Outside-kept b o ∙ rw m refl

  powered : s1.left == 0 ≡ false → length s.lh ≤ s.left
  powered alive = ground (arith, Logged-all.left_eq)

  slots2 : s1.left == 0 ≡ false → Slots s2.start 0 s2.disk.blocks (new_view s) s.lh
  slots2 alive = rw Logged-all.start_eq (Logged-all.logged (powered alive))

  home2 : (b : ℕ) → Outside s2.start b → mem b s.lh ≡ false → s2.disk.blocks b ≡ new_view s b
  home2 b o m = new_home b (rw Logged-all.start_eq at o) m

  named2 : All (Outside s2.start) s.lh
  named2 = rw Logged-all.start_eq named

  moved : (d : Disk) → Recoverable s2.start d (new_view s) → Recoverable s.start d (new_view s)
  moved d v = subst (λ (x : ℕ). Recoverable x d (new_view s)) Logged-all.start_eq v

  -- the machine with the header not written, since the power has failed
  abbrev s2_dead : Sys
  s2_dead = record s1 { left = s1.left - 1; lh = s.lh }

  -- What the disk stands for when the commit ends or the power has failed.
  pub commit-Recoverable :
      Recoverable s.start (commit s).disk s.disk.blocks
      ⊎ Recoverable s.start (commit s).disk (new_view s)
  unfolding commit write_log write_head install_trans
  commit-Recoverable = elim (Bool-cases (ltb 0 (length s.lh))) [
    | inr none_logged ↦ inl (
        rw none_logged (record {
          named = rw clear tt;
          fits = rw clear (omega arith);
          slots = rw clear tt;
          home = λ b o m. refl;
        }))
    | inl some_logged ↦ elim (Bool-cases (s1.left == 0)) [
      | inl dead ↦
          let off = install_from_dead 0 s.lh s2_dead (ground arith) in
          inl (rw (some_logged, dead, Logged-all.lh_eq) (rw (off.1) (rw (off.0) old_disk)))
      | inr alive ↦ elim (Bool-cases (s3.left == 0)) [
        | inl stopped ↦ inr (
            rw (some_logged, alive, Logged-all.lh_eq)
              (rw stopped (
                moved s3.disk (
                  unfinished s2 s3 s.lh (new_view s) named2 fits (slots2 alive) home2 installed
                    refl))))
        | inr through ↦ inr (
            rw (some_logged, alive, Logged-all.lh_eq)
              (rw through (
                moved (record { header = []; blocks = s3.disk.blocks })
                  (finished s2 s3 s.lh (new_view s) named2 fits (slots2 alive) home2 installed
                    (ground arith)))))
      ]
    ]
  ]

  -- A commit that is not cut off, with two writes for each block and two for the header, leaves every
  -- block of the transaction at home and an empty header.
  pub commit-whole :
      2 * length s.lh + 2 ≤ s.left
      → 0 < length s.lh
      → ((commit s).disk.header ≡ [])
        × ((b : ℕ) → Outside s.start b → (commit s).disk.blocks b ≡ new_view s b)
  unfolding commit write_log write_head install_trans
  commit-whole enough some_logged =
      let alive : s1.left == 0 ≡ false = ground (arith, Logged-all.left_eq) in
      let through : s3.left == 0 ≡ false = ground (arith, Logged-all.left_eq, installed.left_eq) in
      let go : ltb 0 (length s.lh) ≡ true = ground arith in
      let r : Recoverable s2.start (record { header = []; blocks = s3.disk.blocks }) (new_view s) =
        finished s2 s3 s.lh (new_view s) named2 fits (slots2 alive) home2 installed
          (ground arith) in
      (
        rw (go, alive, Logged-all.lh_eq) (rw through refl),
        λ b o.
            rw (go, alive, Logged-all.lh_eq)
              (rw through (r.home b (rw Logged-all.start_eq o) refl)),
      )

  recovered :
      (view : ℕ → Block) (d : Disk) (m k : ℕ)
      → Recoverable s.start d view
      → log_blocks < k
      → let d2 : Disk = (recover_from_log (boot s.start d m)).disk in
        let d3 : Disk = (recover_from_log (boot s.start d2 k)).disk in
        (d3.header ≡ []) × ((b : ℕ) → Outside s.start b → d3.blocks b ≡ view b)
  recovered view d m k v h =
      let second = (recover_from_log-Recoverable s.start d view m v).0 in
      let third =
        recover_from_log-Recoverable s.start (recover_from_log (boot s.start d m)).disk view k
          second in
      let cleared = third.1 (omega (arith, second.fits)) in
      (cleared, λ b o. third.0.home b o (rw cleared refl))

  -- If the power fails at any write of a commit, and again at any write of the recovery, then the next
  -- recovery that runs to its end leaves either all blocks as before the transaction or all blocks as
  -- after it.
  pub commit_atomic :
      (m k : ℕ)
      → log_blocks < k
      → let d1 : Disk = (commit s).disk in
        let d2 : Disk = (recover_from_log (boot s.start d1 m)).disk in
        let d3 : Disk = (recover_from_log (boot s.start d2 k)).disk in
        (d3.header ≡ [])
        × (((b : ℕ) → Outside s.start b → d3.blocks b ≡ s.disk.blocks b)
            ⊎ ((b : ℕ) → Outside s.start b → d3.blocks b ≡ new_view s b))
  commit_atomic m k h = elim commit-Recoverable [
    | inl v ↦ let r = recovered s.disk.blocks (commit s).disk m k v h in (r.0, inl r.1)
    | inr v ↦ let r = recovered (new_view s) (commit s).disk m k v h in (r.0, inr r.1)
  ]
