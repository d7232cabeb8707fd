-- ===== src/Prelude/Bits.antt =====
-- Laws of `&` and `|` at variables, from the digit recursion that the native operations stand for.
pub mod Flip
use Prim.Native.Nat.{
  ℕ, zero, suc, ◌+◌, ◌-◌, ◌*◌, ◌/◌, ◌%◌, ◌^◌, ◌≤◌, ◌<◌, min, max, bit_and, bit_or, digits,
  bit_and-bitwise, bit_or-bitwise,
}
use mathlib.Core.Path.{◌≡◌, refl, ap}
use native.Mathlib.Nat.{pow-suc}
use native.Mathlib.Omega.{arith}

module _ (rest : ℕ → ℕ) (op : ℕ → ℕ → ℕ) where
  -- Fuel that is not below the first number does not change the result.
  same_digits :
      (fuel more x y : ℕ) → x ≤ fuel → x ≤ more → digits rest op fuel x y ≡ digits rest op more x y
  same_digits zero zero x y l r = refl
  same_digits (suc fuel) zero zero y l r = refl
  same_digits zero (suc more) zero y l r = refl
  same_digits (suc fuel) (suc more) zero y l r = refl
  same_digits (suc fuel) zero (suc x) y l r = absurd (omega arith)
  same_digits zero (suc more) (suc x) y l r = absurd (omega arith)
  same_digits (suc fuel) (suc more) (suc x) y l r =
      ap (λ t. t * 2 + op (suc x % 2) (y % 2))
        (same_digits fuel more (suc x / 2) (y / 2) (omega arith) (omega arith))

bit_and_empty : (y : ℕ) → bit_and 0 y ≡ 0
bit_and_empty y = bit_and-bitwise 0 y

bit_or_empty : (y : ℕ) → bit_or 0 y ≡ y
bit_or_empty y = bit_or-bitwise 0 y

-- The lowest digit and the others.
bit_and_step : (x y : ℕ) → bit_and x y ≡ bit_and (x / 2) (y / 2) * 2 + min (x % 2) (y % 2)
bit_and_step zero y = omega (arith, bit_and_empty (y / 2), bit_and_empty y)
bit_and_step (suc x) y =
    let fuel =
      same_digits (λ _. zero) min x (suc x / 2) (suc x / 2) (y / 2) (omega arith) (omega arith) in
    omega (arith, fuel, bit_and-bitwise (suc x / 2) (y / 2), bit_and-bitwise (suc x) y)

bit_or_step : (x y : ℕ) → bit_or x y ≡ bit_or (x / 2) (y / 2) * 2 + max (x % 2) (y % 2)
bit_or_step zero y = omega (arith, bit_or_empty (y / 2), bit_or_empty y)
bit_or_step (suc x) y =
    let fuel =
      same_digits (λ t. t) max x (suc x / 2) (suc x / 2) (y / 2) (omega arith) (omega arith) in
    omega (arith, fuel, bit_or-bitwise (suc x / 2) (y / 2), bit_or-bitwise (suc x) y)

-- by halving, up to a bound
bit_and_zero_below : (bound x : ℕ) → x ≤ bound → bit_and x 0 ≡ 0
bit_and_zero_below bound zero l = refl
bit_and_zero_below zero (suc x) l = absurd (omega arith)
bit_and_zero_below (suc bound) (suc x) l =
    omega (arith, bit_and_zero_below bound (suc x / 2) (omega arith), bit_and_step (suc x) 0)

bit_or_zero_below : (bound x : ℕ) → x ≤ bound → bit_or x 0 ≡ x
bit_or_zero_below bound zero l = refl
bit_or_zero_below zero (suc x) l = absurd (omega arith)
bit_or_zero_below (suc bound) (suc x) l =
    omega (arith, bit_or_zero_below bound (suc x / 2) (omega arith), bit_or_step (suc x) 0)

bit_and-zero : (x : ℕ) → bit_and x 0 ≡ 0
bit_and-zero x = bit_and_zero_below x x (omega arith)

bit_or-zero : (x : ℕ) → bit_or x 0 ≡ x
bit_or-zero x = bit_or_zero_below x x (omega arith)

-- The digit of `x` at place `k`.
abbrev pub bit : ℕ → ℕ → ℕ
bit zero x = x % 2
bit (suc k) x = bit k (x / 2)

pub bit-lt : (k x : ℕ) → bit k x < 2
bit-lt zero x = omega arith
bit-lt (suc k) x = bit-lt k (x / 2)

pub pow_pos : (k : ℕ) → 0 < 2 ^ k
pow_pos zero = omega arith
pow_pos (suc k) = omega (arith, pow-suc 2 k, pow_pos k)

-- `x & F` for a flag `F` of one bit.
pub bit_and-pow : (k x : ℕ) → bit_and x (2 ^ k) ≡ bit k x * 2 ^ k
bit_and-pow zero x = omega (arith, bit_and_step x 1, bit_and-zero (x / 2))
bit_and-pow (suc k) x =
    let half : 2 ^ suc k / 2 ≡ 2 ^ k = omega (arith, pow-suc 2 k) in
    let s : bit_and x (2 ^ suc k) ≡ bit_and (x / 2) (2 ^ k) * 2 + min (x % 2) (2 ^ suc k % 2) =
      rw (← half) (bit_and_step x (2 ^ suc k)) in
    let e : bit (suc k) x * 2 ^ suc k ≡ bit k (x / 2) * (2 ^ k * 2) =
      ap (λ t. bit k (x / 2) * t) (pow-suc 2 k) in
    omega (arith, s, e, bit_and-pow k (x / 2), pow-suc 2 k)

-- `x | F`.
pub bit_or-pow : (k x : ℕ) → bit_or x (2 ^ k) ≡ x + (1 - bit k x) * 2 ^ k
bit_or-pow zero x = omega (arith, bit_or_step x 1, bit_or-zero (x / 2))
bit_or-pow (suc k) x =
    let half : 2 ^ suc k / 2 ≡ 2 ^ k = omega (arith, pow-suc 2 k) in
    let s : bit_or x (2 ^ suc k) ≡ bit_or (x / 2) (2 ^ k) * 2 + max (x % 2) (2 ^ suc k % 2) =
      rw (← half) (bit_or_step x (2 ^ suc k)) in
    let e : (1 - bit (suc k) x) * 2 ^ suc k ≡ (1 - bit k (x / 2)) * (2 ^ k * 2) =
      ap (λ t. (1 - bit k (x / 2)) * t) (pow-suc 2 k) in
    omega (arith, s, e, bit_or-pow k (x / 2), pow-suc 2 k)

bit_and-ones : (w x : ℕ) → x < 2 ^ w → bit_and x (2 ^ w - 1) ≡ x
bit_and-ones zero x h = omega (arith, bit_and-zero x)
bit_and-ones (suc w) x h =
    let half : (2 ^ suc w - 1) / 2 ≡ 2 ^ w - 1 = omega (arith, pow-suc 2 w, pow_pos w) in
    let s : bit_and x (2 ^ suc w - 1)
        ≡ bit_and (x / 2) (2 ^ w - 1) * 2 + min (x % 2) ((2 ^ suc w - 1) % 2) =
      rw (← half) (bit_and_step x (2 ^ suc w - 1)) in
    omega (arith, s, bit_and-ones w (x / 2) (omega (arith, pow-suc 2 w)), pow-suc 2 w, pow_pos w)

pub le-pow : (k w : ℕ) → k < w → 2 ^ k * 2 ≤ 2 ^ w
le-pow k zero h = absurd (omega arith)
le-pow zero (suc w) h = omega (arith, pow-suc 2 w, pow_pos w)
le-pow (suc k) (suc w) h = omega (arith, pow-suc 2 w, pow-suc 2 k, le-pow k w (omega arith))

-- `x & ~F` in a word of `w` bits.
pub bit_and-not_pow :
    (k w x : ℕ) → k < w → x < 2 ^ w → bit_and x (2 ^ w - 1 - 2 ^ k) + bit k x * 2 ^ k ≡ x
bit_and-not_pow k zero x p q = absurd (omega arith)
bit_and-not_pow zero (suc w) x p q =
    let half : (2 ^ suc w - 1 - 1) / 2 ≡ 2 ^ w - 1 = omega (arith, pow-suc 2 w, pow_pos w) in
    let s : bit_and x (2 ^ suc w - 1 - 1)
        ≡ bit_and (x / 2) (2 ^ w - 1) * 2 + min (x % 2) ((2 ^ suc w - 1 - 1) % 2) =
      rw (← half) (bit_and_step x (2 ^ suc w - 1 - 1)) in
    omega (arith, s, bit_and-ones w (x / 2) (omega (arith, pow-suc 2 w)), pow-suc 2 w, pow_pos w)
bit_and-not_pow (suc k) (suc w) x p q =
    let half : (2 ^ suc w - 1 - 2 ^ suc k) / 2 ≡ 2 ^ w - 1 - 2 ^ k =
      omega (arith, pow-suc 2 w, pow-suc 2 k, le-pow k w (omega arith), pow_pos k) in
    let s : bit_and x (2 ^ suc w - 1 - 2 ^ suc k)
        ≡ bit_and (x / 2) (2 ^ w - 1 - 2 ^ k) * 2 + min (x % 2) ((2 ^ suc w - 1 - 2 ^ suc k) % 2) =
      rw (← half) (bit_and_step x (2 ^ suc w - 1 - 2 ^ suc k)) in
    let e : bit (suc k) x * 2 ^ suc k ≡ bit k (x / 2) * (2 ^ k * 2) =
      ap (λ t. bit k (x / 2) * t) (pow-suc 2 k) in
    omega (
      arith,
      s,
      e,
      bit_and-not_pow k w (x / 2) (omega arith) (omega (arith, pow-suc 2 w)),
      pow-suc 2 w,
      pow-suc 2 k,
      le-pow k w (omega arith),
      pow_pos k,
    )

-- `a | b` for an aligned `a` and a `b` below the alignment.
pub bit_or-aligned : (k c b : ℕ) → b < 2 ^ k → bit_or (c * 2 ^ k) b ≡ c * 2 ^ k + b
bit_or-aligned zero c zero h = rw (bit_or-zero (c * 1)) (omega arith)
bit_or-aligned zero c (suc b) h = absurd (omega arith)
bit_or-aligned (suc k) c b h =
    let e : c * 2 ^ suc k ≡ c * (2 ^ k * 2) = ap (λ t. c * t) (pow-suc 2 k) in
    let half : c * 2 ^ suc k / 2 ≡ c * 2 ^ k = omega (arith, e) in
    let s : bit_or (c * 2 ^ suc k) b
        ≡ bit_or (c * 2 ^ k) (b / 2) * 2 + max (c * 2 ^ suc k % 2) (b % 2) =
      rw (← half) (bit_or_step (c * 2 ^ suc k) b) in
    omega (arith, s, e, bit_or-aligned k c (b / 2) (omega (arith, pow-suc 2 k)), pow-suc 2 k)
