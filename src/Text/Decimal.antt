-- ===== src/Text/Decimal.antt =====
-- Decimal numbers: `atoi` reads what `printint` prints.
use native.Mathlib.Nat.{pow-suc}
use osassignment.Prelude.{
  ℕ, zero, suc, ◌+◌, ◌-◌, ◌*◌, ◌/◌, ◌%◌, ◌^◌, ◌<◌, ◌≡◌, refl, ◌∙◌, true, false, List, [], ◌∷◌, leb,
  ◌==◌, Bool-cases, inl, inr, arith,
}
use osassignment.Text.{atoi_from, atoi, print_digits, printint, is_digit}

atoi_digit :
    (n x : ℕ) (s : List ℕ)
    → n * 10 + x % 10 < 2 ^ 32
    → atoi_from n ((48 + x % 10) ∷ s) ≡ atoi_from (n * 10 + x % 10) s
unfolding atoi_from
atoi_digit n x s h =
    let digit : is_digit (48 + x % 10) ≡ true = ground arith in
    let next : (n * 10 + (48 + x % 10) + 2 ^ 32 - 48) % 2 ^ 32 ≡ n * 10 + x % 10 = omega arith in
    rw (digit, next) refl

-- With a round for each digit.
pub atoi-print_digits :
    (fuel x : ℕ) (buf : List ℕ)
    → x < 10 ^ fuel
    → x < 2 ^ 32
    → 0 < fuel
    → atoi_from 0 (print_digits fuel x buf) ≡ atoi_from x buf
unfolding print_digits
atoi-print_digits zero x buf h w p = absurd (omega arith)
atoi-print_digits (suc zero) x buf h w p =
    let small : 0 * 10 + x % 10 ≡ x = omega arith in
    let last : x / 10 == 0 ≡ true = ground arith in
    rw last (atoi_digit 0 x buf (omega arith) ∙ rw small refl)
atoi-print_digits (suc (suc fuel)) x buf h w p = elim (Bool-cases (x / 10 == 0)) [
  | inl last ↦
      let small : 0 * 10 + x % 10 ≡ x = ground arith in
      rw last (atoi_digit 0 x buf (omega arith) ∙ rw small refl)
  | inr more ↦
      let whole : x / 10 * 10 + x % 10 ≡ x = omega arith in
      let fewer : x / 10 < 10 ^ suc fuel = omega (arith, pow-suc 10 (suc fuel)) in
      rw more (
        atoi-print_digits (suc fuel) (x / 10) ((48 + x % 10) ∷ buf) fewer (omega arith)
          (omega arith)
        ∙ (atoi_digit (x / 10) x buf (omega arith) ∙ rw whole refl))
]

-- For a number below 2 ^ 31 `atoi` gives back what `printint` has printed; its buffer of 16 characters
-- is long enough.
pub atoi-printint : (x : ℕ) → x < 2 ^ 31 → atoi (printint x) ≡ x
unfolding atoi printint atoi_from
atoi-printint x h =
    let plus : leb (2 ^ 31) x ≡ false = ground arith in
    rw plus (atoi-print_digits 16 x [] (omega arith) (omega arith) (omega arith))
