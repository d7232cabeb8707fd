-- ===== src/Fs/Data/Bytes.antt =====
-- Runs of bytes.
use mathlib.Core.Path.{subst}
use osassignment.Prelude.{ℕ, zero, suc, ◌+◌, ◌<◌, ◌≡◌, refl, ap, ◌∷◌, ◌++◌, length, arith}
use osassignment.Fs.Data.{Buffer, bytes}

pub bytes-append : (f : Buffer) (m n i : ℕ) → bytes f i m ++ bytes f (i + m) n ≡ bytes f i (m + n)
bytes-append f zero n i =
    let e : i + 0 ≡ i = omega arith in let z : 0 + n ≡ n = omega arith in rw (e, z) refl
bytes-append f (suc m) n i =
    let e : i + suc m ≡ i + 1 + m = omega arith in
    let s : suc m + n ≡ suc (m + n) = omega arith in
    rw (e, s) (ap (λ r. f i ∷ r) (bytes-append f m n (i + 1)))

-- Runs of the same bytes at two places.
pub bytes_same :
    (f g : Buffer) (n i j : ℕ)
    → ((k : ℕ) → k < n → f (i + k) ≡ g (j + k))
    → bytes f i n ≡ bytes g j n
bytes_same f g zero i j h = refl
bytes_same f g (suc n) i j h =
    let e : i + 0 ≡ i = omega arith in
    let e' : j + 0 ≡ j = omega arith in
    let first : f i ≡ g j =
      subst (λ (x : ℕ). f x ≡ g j) e (subst (λ (x : ℕ). f (i + 0) ≡ g x) e' (h 0 (omega arith))) in
    let rest : bytes f (i + 1) n ≡ bytes g (j + 1) n = bytes_same f g n (i + 1) (j + 1) (λ k lt.
      let a : i + 1 + k ≡ i + suc k = omega arith in
      let b : j + 1 + k ≡ j + suc k = omega arith in rw (a, b) (h (suc k) (omega (arith, lt)))) in
    rw (first, rest) refl

pub length-bytes : (f : Buffer) (n i : ℕ) → length (bytes f i n) ≡ n
length-bytes f zero i = refl
length-bytes f (suc n) i = ap suc (length-bytes f n (i + 1))
