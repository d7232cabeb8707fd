-- ===== src/Paging/Table/Flags.antt =====
-- What the flag functions of vm.c do to an entry.
use Prim.Native.Nat.{bit_and, bit_or}
use osassignment.Prelude.{
  ℕ, ◌+◌, ◌-◌, ◌*◌, ◌/◌, ◌%◌, ◌^◌, ◌<◌, ◌≡◌, Bool, some, ◌==◌, if◌then◌else◌, ltb, ok, arith,
}
use osassignment.Prelude.Bits.{bit_and-pow, bit_or-pow, bit_and-not_pow}
use osassignment.Paging.Table.{
  Pgdir, pte, set_pte, pdx, ptx, pte_p, pte_pg, pte_a, is_flagged, set_pte_flag, clear_pte_flag,
}

-- Whether two addresses share a page.
abbrev pub same_page : ℕ → ℕ → Bool
same_page a b = a / 4096 == b / 4096

page_index : (a : ℕ) → a < 2 ^ 32 → a / 4096 ≡ pdx a * 1024 + ptx a
page_index a h = omega arith

-- A store through the pointer to an entry is read back at the addresses of that page alone.
pub pte-set_pte :
    (d : Pgdir) (a b e old : ℕ)
    → a < 2 ^ 32
    → b < 2 ^ 32
    → pte d a ≡ some old
    → pte (set_pte d a e) b ≡ (if same_page a b then some e else pte d b)
unfolding pte set_pte
pte-set_pte d a b e old ha hb h = ground (arith, page_index a, page_index b)

-- A 32-bit word. The flags P, U, A and PG are its bits 0, 2, 5 and 9.
abbrev pub IsWord : ℕ → Type 0
IsWord e = e < 2 ^ 32

pub set_p_lem : (e : ℕ) → (bit_or e pte_p ≡ e + (1 - e % 2))
set_p_lem e = omega (arith, bit_or-pow 0 e)

pub set_pg_lem : (e : ℕ) → bit_or e pte_pg ≡ e + (1 - e / 512 % 2) * 512
set_pg_lem e = omega (arith, bit_or-pow 9 e)

pub clear_p_lem : (e : ℕ) → IsWord e → bit_and e (2 ^ 32 - 1 - pte_p) ≡ e - e % 2
clear_p_lem e h = omega (arith, bit_and-not_pow 0 32 e)

pub clear_pg_lem : (e : ℕ) → IsWord e → bit_and e (2 ^ 32 - 1 - pte_pg) ≡ e - e / 512 % 2 * 512
clear_pg_lem e h = omega (arith, bit_and-not_pow 9 32 e)

pub clear_a_lem : (e : ℕ) → IsWord e → bit_and e (2 ^ 32 - 1 - pte_a) ≡ e - e / 32 % 2 * 32
clear_a_lem e h = omega (arith, bit_and-not_pow 5 32 e)

pub test_p_lem : (e : ℕ) → bit_and e pte_p ≡ e % 2
test_p_lem e = omega (arith, bit_and-pow 0 e)

pub test_pg_lem : (e : ℕ) → bit_and e pte_pg ≡ e / 512 % 2 * 512
test_pg_lem e = omega (arith, bit_and-pow 9 e)

pub test_a_lem : (e : ℕ) → bit_and e pte_a ≡ e / 32 % 2 * 32
test_a_lem e = omega (arith, bit_and-pow 5 e)

-- The flag functions at an entry that is there.
module _ (d : Pgdir) (a flag e : ℕ) (h : pte d a ≡ some e) where
  pub is_flagged_some : is_flagged d a flag ≡ ok (ltb 0 (bit_and e flag))
  unfolding is_flagged
  is_flagged_some = rw (h, is_flagged)

  pub set_pte_flag_some : set_pte_flag d a flag ≡ ok (set_pte d a (bit_or e flag))
  unfolding set_pte_flag
  set_pte_flag_some = rw (h, set_pte_flag)

  pub clear_pte_flag_some :
      clear_pte_flag d a flag ≡ ok (set_pte d a (bit_and e (2 ^ 32 - 1 - flag)))
  unfolding clear_pte_flag
  clear_pte_flag_some = rw (h, clear_pte_flag)

-- Two stores to one entry: the second counts.
pub pte-set_pte_twice :
    (d : Pgdir) (a b e f old : ℕ)
    → a < 2 ^ 32
    → b < 2 ^ 32
    → pte d a ≡ some old
    → pte (set_pte (set_pte d a e) a f) b ≡ (if same_page a b then some f else pte d b)
pte-set_pte_twice d a b e f old ha hb h =
    ground
      (arith, pte-set_pte d a a e old, pte-set_pte d a b e old, pte-set_pte (set_pte d a e) a b f e)
