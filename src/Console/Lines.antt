-- ===== src/Console/Lines.antt =====
-- What the ring stands for: characters that are ready to be read, and a line that is being typed.
use osassignment.Prelude.{
  ℕ, zero, suc, ◌+◌, ◌-◌, ◌%◌, ◌^◌, ◌≤◌, ◌<◌, ◌≡◌, ◌≢◌, refl, sym, ap, false, List, [], ◌∷◌, ◌++◌,
  ◌==◌, if◌then◌else◌, length, All, arith,
}
use mathlib.Core.Path.{subst}
use osassignment.Console.{Input, input_buf, newline}

-- `n` characters from position `p` on, and `n` characters backwards from before `p`.
abbrev pub forwards : (ℕ → ℕ) → ℕ → ℕ → List ℕ
forwards f p zero = []
forwards f p (suc n) = f (p % input_buf) ∷ forwards f (p + 1) n

abbrev pub backwards : (ℕ → ℕ) → ℕ → ℕ → List ℕ
backwards f p zero = []
backwards f p (suc n) = f ((p - 1) % input_buf) ∷ backwards f (p - 1) n

abbrev pub reverse_onto : List ℕ → List ℕ → List ℕ
reverse_onto [] l = l
reverse_onto (x ∷ xs) l = reverse_onto xs (x ∷ l)

-- The positions are numbers without a bound, of which the indices are the last 32 bits. The line is kept
-- with its last character first.
pub record At (start ready_count line_count : ℕ) (i : Input) (ready line : List ℕ) : Type 0 where
  pub r_eq : i.r ≡ start % 2 ^ 32
  pub w_eq : i.w ≡ (start + ready_count) % 2 ^ 32
  pub e_eq : i.e ≡ (start + ready_count + line_count) % 2 ^ 32
  pub fits : ready_count + line_count ≤ input_buf
  pub ready_eq : ready ≡ forwards i.buf start ready_count
  pub line_eq : line ≡ backwards i.buf (start + ready_count + line_count) line_count
  pub no_newline : All (λ c. c ≢ newline) line

abbrev pub Holds : Input → List ℕ → List ℕ → Type 0
Holds i ready line =
    (start : ℕ) × (ready_count : ℕ) × (line_count : ℕ) × At start ready_count line_count i ready
      line

pub length-forwards : (f : ℕ → ℕ) (n p : ℕ) → length (forwards f p n) ≡ n
length-forwards f zero p = refl
length-forwards f (suc n) p = ap suc (length-forwards f n (p + 1))

pub length-backwards : (f : ℕ → ℕ) (n p : ℕ) → length (backwards f p n) ≡ n
length-backwards f zero p = refl
length-backwards f (suc n) p = ap suc (length-backwards f n (p - 1))

-- A write at a position outside the range changes nothing in it.
pub forwards-put :
    (f : ℕ → ℕ) (v q n p : ℕ)
    → p + n ≤ q
    → q < p + input_buf
    → forwards (λ k. if k == q % input_buf then v else f k) p n ≡ forwards f p n
forwards-put f v q zero p h l = refl
forwards-put f v q (suc n) p h l =
    let apart : p % input_buf == q % input_buf ≡ false = ground (arith, h, l) in
    rw (apart, forwards-put f v q n (p + 1) (omega (arith, h)) (omega (arith, l))) refl

pub backwards-put :
    (f : ℕ → ℕ) (v q n p : ℕ)
    → p ≤ q
    → n ≤ p
    → q < p - n + input_buf
    → backwards (λ k. if k == q % input_buf then v else f k) p n ≡ backwards f p n
backwards-put f v q zero p h s l = refl
backwards-put f v q (suc n) p h s l =
    let apart : (p - 1) % input_buf == q % input_buf ≡ false = ground (arith, h, s, l) in
    rw
      (
        apart,
        backwards-put f v q n (p - 1) (omega (arith, h)) (omega (arith, s)) (omega (arith, l)),
      )
      refl

-- The typed line put behind the ready characters.
pub forwards-reverse_onto :
    (f : ℕ → ℕ) (n p q k : ℕ)
    → p + n ≡ q
    → reverse_onto (backwards f q n) (forwards f q k) ≡ forwards f p (n + k)
forwards-reverse_onto f zero p q k e =
    let same : q ≡ p = omega (arith, e) in let z : 0 + k ≡ k = omega arith in rw (same, z) refl
forwards-reverse_onto f (suc n) p q k e =
    let back : q - 1 + 1 ≡ q = omega (arith, e) in
    let next : suc n + k ≡ n + suc k = omega arith in
    let step : f ((q - 1) % input_buf) ∷ forwards f q k ≡ forwards f (q - 1) (suc k) =
      ap (λ x. f ((q - 1) % input_buf) ∷ forwards f x k) (sym back) in
    subst (λ (l : List ℕ). reverse_onto (backwards f (q - 1) n) l ≡ forwards f p (suc n + k))
      (sym step) (rw next (forwards-reverse_onto f n p (q - 1) (suc k) (omega (arith, e))))

pub forwards-append :
    (f : ℕ → ℕ) (m n p : ℕ) → forwards f p m ++ forwards f (p + m) n ≡ forwards f p (m + n)
forwards-append f zero n p =
    let e : p + 0 ≡ p = omega arith in let z : 0 + n ≡ n = omega arith in rw (e, z) refl
forwards-append f (suc m) n p =
    let e : p + suc m ≡ p + 1 + m = omega arith in
    let s : suc m + n ≡ suc (m + n) = omega arith in
    rw (e, s) (ap (λ l. f (p % input_buf) ∷ l) (forwards-append f m n (p + 1)))
