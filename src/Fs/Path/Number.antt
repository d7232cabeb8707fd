-- ===== src/Fs/Path/Number.antt =====
-- The names of the swap files.
use osassignment.Prelude.{
  ℕ, zero, suc, ◌+◌, ◌/◌, ◌%◌, ◌^◌, ◌<◌, ◌≡◌, refl, sym, ap, ◌∙◌, List, [], ◌∷◌, ◌==◌, drop,
  Bool-cases, inl, inr, arith,
}
use osassignment.Text.{atoi, atoi_from, print_digits}
use osassignment.Text.Decimal.{atoi-print_digits}
use osassignment.Fs.Path.{itoa_digits, itoa, swap_path}

itoa_digits-print_digits : (n i : ℕ) (buf : List ℕ) → itoa_digits n i buf ≡ print_digits n i buf
unfolding itoa_digits print_digits
itoa_digits-print_digits zero i buf = refl
itoa_digits-print_digits (suc n) i buf = elim (Bool-cases (i / 10 == 0)) [
  | inl last ↦ rw last refl
  | inr more ↦ rw more (itoa_digits-print_digits n (i / 10) ((48 + i % 10) ∷ buf))
]

atoi-itoa : (i : ℕ) → i < 2 ^ 31 → atoi (itoa i) ≡ i
unfolding itoa atoi atoi_from
atoi-itoa i h =
    ap (atoi_from 0) (itoa_digits-print_digits 10 i [])
    ∙ atoi-print_digits 10 i [] (omega (arith, h)) (omega (arith, h)) (omega arith)

-- Two processes never have the same path for their swap files, whatever their numbers.
pub swap_path_injective : (p q : ℕ) → p < 2 ^ 31 → q < 2 ^ 31 → swap_path p ≡ swap_path q → p ≡ q
unfolding swap_path
swap_path_injective p q hp hq e =
    sym (atoi-itoa p hp) ∙ (ap (λ l. atoi (drop 6 l)) e ∙ atoi-itoa q hq)
