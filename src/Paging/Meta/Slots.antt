-- ===== src/Paging/Meta/Slots.antt =====
-- The invariant of the slots and of the places of the swap file.
pub mod Places
pub mod Out
pub mod In
pub mod Add
use osassignment.Prelude.{
  ℕ, zero, suc, ◌+◌, ◌-◌, ◌*◌, ◌/◌, ◌%◌, ◌≤◌, ◌<◌, ◌≡◌, ◌≢◌, refl, Bool, true, false, not, ◌&&◌,
  ltb, leb, ◌==◌, truth, if◌then◌else◌, flag, length, get_or, count_if, arith,
}
use osassignment.Paging.Queue.{Page, holds_addr}
use osassignment.Paging.Meta.{Meta, is_paged_out}

-- A page for the address that is in memory, and one that is in the swap file.
abbrev pub ram_at : ℕ → Page → Bool
ram_at a p = holds_addr a p && p.in_back == 0

abbrev pub back_at : ℕ → Page → Bool
back_at a p = holds_addr a p && truth p.in_back

-- A page in the swap file at place `k`.
abbrev pub backed_at : ℕ → Page → Bool
backed_at k p = is_paged_out p && p.offset == 4096 * k

abbrev pub is_malformed : Page → Bool
is_malformed p = not (leb p.exists 1 && leb p.in_back 1)

abbrev pub is_misplaced : Page → Bool
is_misplaced p = is_paged_out p && not (p.offset % 4096 == 0 && ltb p.offset 131072)

-- a free slot with an address
abbrev pub is_stale : Page → Bool
is_stale p = not (truth p.exists) && truth p.vaddr

-- There are 32 slots and 32 places. An address has at most one slot. A place is marked 1 exactly
-- when one page is at it, and 0 when none is; no page is at another offset, and no two at one. A
-- free slot has address 0.
pub record IsValid (m : Meta) : Type 0 where
  pub slots : length m.pages ≡ 32
  pub places : length m.offsets ≡ 32
  pub flags : count_if is_malformed m.pages ≡ 0
  pub blank : count_if is_stale m.pages ≡ 0
  pub unique : (a : ℕ) → count_if (holds_addr a) m.pages ≤ 1
  pub placed : count_if is_misplaced m.pages ≡ 0
  pub taken : (k : ℕ) → k < 32 → get_or m.offsets k 0 ≡ count_if (backed_at k) m.pages
  pub marks : (k : ℕ) → get_or m.offsets k 0 ≤ 1
