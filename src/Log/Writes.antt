-- ===== src/Log/Writes.antt =====
-- What the two loops of the log write, when the power may fail at any write.
use osassignment.Prelude.{
  ℕ, ◌+◌, ◌-◌, ◌≤◌, ◌<◌, ◌≡◌, refl, sym, ap, ◌∙◌, Bool, true, false, ◌||◌, List, [], ◌∷◌, ◌==◌,
  length, All, All-mono, ◌⊎◌, inl, inr, Bool-cases, arith,
}
use osassignment.Log.{Block, Sys, bwrite, install_from, write_log_from}

-- The blocks of the log after its header: mkfs.c gives the log `LOGSIZE` = 30 blocks in all.
abbrev pub log_blocks : ℕ
log_blocks = 29

-- A block that is neither the header nor one of the log.
abbrev pub Outside : ℕ → ℕ → Type 0
Outside start b = (b < start) ⊎ (start + log_blocks < b)

abbrev pub mem : ℕ → List ℕ → Bool
mem b [] = false
mem b (x ∷ xs) = b == x || mem b xs

-- The log blocks from `tail` on hold, in `c`, the values that `v` gives to the blocks `bs`.
abbrev pub Slots : ℕ → ℕ → (ℕ → Block) → (ℕ → Block) → List ℕ → Type 0
Slots start tail c v [] = Unit {0}
Slots start tail c v (b ∷ bs) = (c (start + tail + 1) ≡ v b) × Slots start (tail + 1) c v bs

pub Slots-ext :
    (start tail : ℕ) (c d v : ℕ → Block) (bs : List ℕ)
    → ((b : ℕ) → start + tail < b → b ≤ start + tail + length bs → d b ≡ c b)
    → Slots start tail c v bs
    → Slots start tail d v bs
Slots-ext start tail c d v [] e s = tt
Slots-ext start tail c d v (b ∷ bs) e s = (
  e (start + tail + 1) (omega arith) (omega arith) ∙ s.0,
  Slots-ext start (tail + 1) c d v bs (λ b' l h. e b' (omega arith) (omega arith)) s.1,
)

-- What installing the blocks `bs` from the log leaves of the state `s`.
pub record Installed (s : Sys) (bs : List ℕ) (v : ℕ → Block) (s' : Sys) : Type 0 where
  pub start_eq : s'.start ≡ s.start
  pub left_eq : s'.left ≡ s.left - length bs
  pub header_eq : s'.disk.header ≡ s.disk.header
  pub others : (b : ℕ) → mem b bs ≡ false → s'.disk.blocks b ≡ s.disk.blocks b
  pub done : length bs ≤ s.left → (b : ℕ) → mem b bs ≡ true → s'.disk.blocks b ≡ v b

bwrite_other :
    (s : Sys) (b c : ℕ) (v : Block)
    → c == b ≡ false
    → ((bwrite s b v).disk.blocks c ≡ s.disk.blocks c) × ((bwrite s b v).cache c ≡ s.cache c)
unfolding bwrite
bwrite_other s b c v ne = (ground (arith, ne), ground (arith, ne))

bwrite_self :
    (s : Sys) (b : ℕ) (v : Block)
    → ((bwrite s b v).cache b ≡ v) × (0 < s.left → (bwrite s b v).disk.blocks b ≡ v)
unfolding bwrite
bwrite_self s b v = (ground arith, λ h. ground arith)

bwrite_header : (s : Sys) (b : ℕ) (v : Block) → (bwrite s b v).disk.header ≡ s.disk.header
unfolding bwrite
bwrite_header s b v = ground arith

bwrite_left :
    (s : Sys) (b : ℕ) (v : Block)
    → ((bwrite s b v).left ≡ s.left - 1) × ((bwrite s b v).start ≡ s.start)
unfolding bwrite
bwrite_left s b v = (refl, refl)

pub install_from-Installed :
    (tail : ℕ) (bs : List ℕ) (s : Sys) (v : ℕ → Block)
    → All (Outside s.start) bs
    → tail + length bs ≤ log_blocks
    → Slots s.start tail s.cache v bs
    → Installed s bs v (install_from tail bs s)
unfolding install_from
install_from-Installed tail [] s v o lt sl = record {
  start_eq = refl;
  left_eq = omega arith;
  header_eq = refl;
  others = λ b h. refl;
  done = λ h b m. absurd (cc);
}
install_from-Installed tail (x ∷ xs) s v o lt sl =
    let w : Block = s.cache (s.start + tail + 1) in
    let s1 : Sys = bwrite s x w in
    let same_start : s1.start ≡ s.start = (bwrite_left s x w).1 in
    let next : Slots s1.start (tail + 1) s1.cache v xs = rw same_start (
      Slots-ext s.start (tail + 1) s.cache s1.cache v xs
        (λ b l h. (bwrite_other s x b w (ground (arith, o.0))).1) sl.1) in
    let r : Installed s1 xs v (install_from (tail + 1) xs s1) =
      install_from-Installed (tail + 1) xs s1 v (rw same_start o.1) (omega arith) next in
    record {
      start_eq = r.start_eq ∙ same_start;
      left_eq = omega (arith, r.left_eq, bwrite_left s x w);
      header_eq = r.header_eq ∙ bwrite_header s x w;
      others = λ b h. r.others b (ground arith) ∙ (bwrite_other s x b w (ground arith)).0;
      done = λ h b m. elim (Bool-cases (mem b xs)) [
        | inl later ↦ r.done (omega (arith, bwrite_left s x w)) b later
        | inr last ↦
            let here : b ≡ x = ground (arith, last, m) in
            r.others b last
            ∙ (ap s1.disk.blocks here
                ∙ ((bwrite_self s x w).1 (omega arith) ∙ (sl.0 ∙ ap v (sym here))))
      ];
    }

-- What copying the blocks `bs` to the log leaves of the state `s`, where `v` are their cached values.
pub record Logged (s : Sys) (tail : ℕ) (bs : List ℕ) (v : ℕ → Block) (s' : Sys) : Type 0 where
  pub start_eq : s'.start ≡ s.start
  pub left_eq : s'.left ≡ s.left - length bs
  pub lh_eq : s'.lh ≡ s.lh
  pub header_eq : s'.disk.header ≡ s.disk.header
  pub others :
      (b : ℕ)
      → (b ≤ s.start + tail) ⊎ (s.start + tail + length bs < b)
      → (s'.disk.blocks b ≡ s.disk.blocks b) × (s'.cache b ≡ s.cache b)
  pub cached : Slots s.start tail s'.cache v bs
  pub logged : length bs ≤ s.left → Slots s.start tail s'.disk.blocks v bs

pub write_log_from-Logged :
    (tail : ℕ) (bs : List ℕ) (s : Sys) (v : ℕ → Block)
    → All (λ b. Outside s.start b × (s.cache b ≡ v b)) bs
    → tail + length bs ≤ log_blocks
    → Logged s tail bs v (write_log_from tail bs s)
unfolding write_log_from
write_log_from-Logged tail [] s v o lt = record {
  start_eq = refl;
  left_eq = omega arith;
  lh_eq = refl;
  header_eq = refl;
  others = λ b h. (refl, refl);
  cached = tt;
  logged = λ h. tt;
}
write_log_from-Logged tail (x ∷ xs) s v o lt =
    let at : ℕ = s.start + tail + 1 in
    let s1 : Sys = bwrite s at (s.cache x) in
    let next : All (λ b. Outside s.start b × (s1.cache b ≡ v b)) xs =
      All-mono (λ b. Outside s.start b × (s.cache b ≡ v b))
        (λ b. Outside s.start b × (s1.cache b ≡ v b)) xs
        (λ b h. (h.0, (bwrite_other s at b (s.cache x) (ground (arith, h.0))).1 ∙ h.1)) o.1 in
    let r : Logged s1 (tail + 1) xs v (write_log_from (tail + 1) xs s1) =
      write_log_from-Logged (tail + 1) xs s1 v next (omega arith) in
    record {
      start_eq = r.start_eq;
      left_eq = omega (arith, r.left_eq);
      lh_eq = r.lh_eq;
      header_eq = r.header_eq ∙ bwrite_header s at (s.cache x);
      others = λ b h.
          let away = bwrite_other s at b (s.cache x) (ground arith) in
          let later = r.others b (ground arith) in (later.0 ∙ away.0, later.1 ∙ away.1);
      cached = (
        (r.others at (inl (omega arith))).1 ∙ ((bwrite_self s at (s.cache x)).0 ∙ o.0.1),
        r.cached,
      );
      logged = λ h. (
        (r.others at (inl (omega arith))).0
            ∙ ((bwrite_self s at (s.cache x)).1 (omega arith) ∙ o.0.1),
        r.logged (omega arith),
      );
    }

-- After the power has failed nothing reaches the disk.
pub install_from_dead :
    (tail : ℕ) (bs : List ℕ) (s : Sys)
    → s.left ≡ 0
    → ((install_from tail bs s).disk ≡ s.disk) × ((install_from tail bs s).left ≡ 0)
unfolding install_from bwrite
install_from_dead tail [] s h = (refl, h)
install_from_dead tail (x ∷ xs) s h =
    let s1 : Sys = bwrite s x (s.cache (s.start + tail + 1)) in
    let r = install_from_dead (tail + 1) xs s1 (omega arith) in (r.0 ∙ ground (arith, h), r.1)
