-- ===== src/Log.antt =====
-- log.c: the write-ahead log. The header block `log.start` of the disk is the list of the block numbers
-- that it holds; the blocks after it are the log. `cache b` is what `bread` gives for a block.
pub mod Writes
pub mod Recovery
pub mod Atomic
pub mod Ops
mod Tests
use osassignment.Prelude.{
  ℕ, zero, suc, ◌+◌, ◌-◌, ◌*◌, ◌<◌, ◌≡◌, Bool, true, false, ◌||◌, List, [], ◌∷◌, ltb, leb, ◌==◌,
  truth, if◌then◌else◌, length,
}

abbrev pub Block : Type 0
Block = ℕ → ℕ

pub record Disk : Type 0 where
  pub header : List ℕ
  pub blocks : ℕ → Block

-- The power fails after `left` more writes to the disk: later ones do not reach it. `lh` is the header
-- in memory, the first `n` of its `block`.
pub record Sys : Type 0 where
  pub start : ℕ
  pub cache : ℕ → Block
  pub disk : Disk
  pub left : ℕ
  pub lh : List ℕ

abbrev pub update : (ℕ → Block) → ℕ → Block → ℕ → Block
update f b v c = if c == b then v else f c

-- `bwrite` of a buffer for block `b` that holds `v`.
pub bwrite : Sys → ℕ → Block → Sys
bwrite s b v = record s {
  cache = update s.cache b v;
  disk = if s.left == 0 then s.disk else record s.disk { blocks = update s.disk.blocks b v };
  left = s.left - 1;
}

-- The loop of `install_trans`, from `tail` on, over the block numbers that are left.
pub install_from : ℕ → List ℕ → Sys → Sys
unfolding bwrite
install_from tail [] s = s
install_from tail (b ∷ bs) s =
    install_from (tail + 1) bs (bwrite s b (s.cache (s.start + tail + 1)))

pub install_trans : Sys → Sys
unfolding install_from
install_trans s = install_from 0 s.lh s

pub read_head : Sys → Sys
read_head s = record s { lh = s.disk.header }

pub write_head : Sys → Sys
write_head s = record s {
  disk = if s.left == 0 then s.disk else record s.disk { header = s.lh };
  left = s.left - 1;
}

pub recover_from_log : Sys → Sys
unfolding install_trans read_head write_head
recover_from_log s =
    let s1 : Sys = install_trans (read_head s) in write_head (record s1 { lh = [] })

-- The loop of `write_log`.
pub write_log_from : ℕ → List ℕ → Sys → Sys
unfolding bwrite
write_log_from tail [] s = s
write_log_from tail (b ∷ bs) s =
    write_log_from (tail + 1) bs (bwrite s (s.start + tail + 1) (s.cache b))

pub write_log : Sys → Sys
unfolding write_log_from
write_log s = write_log_from 0 s.lh s

pub commit : Sys → Sys
unfolding write_log write_head install_trans
commit s =
    if ltb 0 (length s.lh)
    then (let s1 : Sys = install_trans (write_head (write_log s)) in
        write_head (record s1 { lh = [] }))
    else s

-- A machine that starts with a disk, whose cache is empty.
abbrev pub boot : ℕ → Disk → ℕ → Sys
boot start d left = record { start = start; cache = d.blocks; disk = d; left = left; lh = [] }
