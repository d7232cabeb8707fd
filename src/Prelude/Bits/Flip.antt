-- ===== src/Prelude/Bits/Flip.antt =====
-- What setting or clearing one digit with `|` and `&` does to all of them.
use Prim.Native.Nat.{ℕ, zero, suc, ◌+◌, ◌-◌, ◌*◌, ◌/◌, ◌^◌, ◌<◌, bit_and, bit_or}
use mathlib.Core.Path.{◌≡◌, refl, sym, ap, ◌∙◌, subst}
use mathlib.Core.Logic.{◌≢◌}
use native.Mathlib.Nat.{pow-suc}
use native.Mathlib.Omega.{arith}
use osassignment.Prelude.Bits.{bit, bit-lt, bit_and-pow, bit_or-pow, bit_and-not_pow, pow_pos}

-- Adding a power of two flips its digit,
flip_at : (k x : ℕ) → bit k (x + 2 ^ k) ≡ 1 - bit k x
flip_at zero x = omega arith
flip_at (suc k) x =
    let half : (x + 2 ^ suc k) / 2 ≡ x / 2 + 2 ^ k = omega (arith, pow-suc 2 k) in
    rw half (flip_at k (x / 2))

-- and no other digit if that one was 0.
flip_ne : (k j x : ℕ) → k ≢ j → bit k x ≡ 0 → bit j (x + 2 ^ k) ≡ bit j x
flip_ne zero zero x ne z = absurd (ne refl)
flip_ne zero (suc j) x ne z = let half : (x + 1) / 2 ≡ x / 2 = omega (arith, z) in rw half refl
flip_ne (suc k) zero x ne z = omega (arith, pow-suc 2 k)
flip_ne (suc k) (suc j) x ne z =
    let half : (x + 2 ^ suc k) / 2 ≡ x / 2 + 2 ^ k = omega (arith, pow-suc 2 k) in
    rw half (flip_ne k j (x / 2) (λ e. ne (ap suc e)) z)

-- `x & m` for a flag `m` whose digit is 0, and 1.
pub bit_and_clear : (k x : ℕ) → bit k x ≡ 0 → bit_and x (2 ^ k) ≡ 0
bit_and_clear k x z = bit_and-pow k x ∙ rw z (omega arith)

pub bit_and_set : (k x : ℕ) → bit k x ≡ 1 → 0 < bit_and x (2 ^ k)
bit_and_set k x o =
    let e : bit_and x (2 ^ k) ≡ 1 * 2 ^ k = bit_and-pow k x ∙ rw o refl in
    omega (arith, e, pow_pos k)

pub bit_zero_or_one : (k x : ℕ) → 0 < bit k x → bit k x ≡ 1
bit_zero_or_one k x h = omega (arith, bit-lt k x)

or_adds : (k x : ℕ) → bit k x ≡ 0 → bit_or x (2 ^ k) ≡ x + 2 ^ k
or_adds k x z =
    let e : bit_or x (2 ^ k) ≡ x + 1 * 2 ^ k = bit_or-pow k x ∙ rw z refl in omega (arith, e)

pub bit-bit_or_self : (k x : ℕ) → bit k x ≡ 0 → bit k (bit_or x (2 ^ k)) ≡ 1
bit-bit_or_self k x z = ap (bit k) (or_adds k x z) ∙ (flip_at k x ∙ rw z refl)

pub bit-bit_or_ne : (k j x : ℕ) → k ≢ j → bit k x ≡ 0 → bit j (bit_or x (2 ^ k)) ≡ bit j x
bit-bit_or_ne k j x ne z = ap (bit j) (or_adds k x z) ∙ flip_ne k j x ne z

-- `x & ~m` in `w` bits
module _ (k w x : ℕ) (lt : k < w) (small : x < 2 ^ w) (o : bit k x ≡ 1) where
  cleared : bit_and x (2 ^ w - 1 - 2 ^ k) + 2 ^ k ≡ x
  cleared =
      let e : bit_and x (2 ^ w - 1 - 2 ^ k) + 1 * 2 ^ k ≡ x =
        subst (λ (b : ℕ). bit_and x (2 ^ w - 1 - 2 ^ k) + b * 2 ^ k ≡ x) o
          (bit_and-not_pow k w x lt small) in
      omega (arith, e)

  pub bit-bit_and_self : bit k (bit_and x (2 ^ w - 1 - 2 ^ k)) ≡ 0
  bit-bit_and_self =
      let f : bit k x ≡ 1 - bit k (bit_and x (2 ^ w - 1 - 2 ^ k)) =
        sym (ap (bit k) cleared) ∙ flip_at k (bit_and x (2 ^ w - 1 - 2 ^ k)) in
      omega (arith, f, o)

  pub bit-bit_and_ne : (j : ℕ) → k ≢ j → bit j (bit_and x (2 ^ w - 1 - 2 ^ k)) ≡ bit j x
  bit-bit_and_ne j ne =
      sym (flip_ne k j (bit_and x (2 ^ w - 1 - 2 ^ k)) ne bit-bit_and_self) ∙ ap (bit j) cleared
