-- ===== src/Text/Copy.antt =====
-- What the copying functions write, also when the ranges overlap.
use osassignment.Prelude.{
  ℕ, zero, suc, ◌+◌, ◌-◌, ◌≤◌, ◌<◌, ◌≡◌, ◌≢◌, refl, ap, false, ◌&&◌, List, [], ◌∷◌, ltb, leb, ◌==◌,
  if◌then◌else◌, length, take, All, ◌⊎◌, inl, inr, Bool-cases, arith,
}
use osassignment.Text.{Memory, put, copy_down, copy_up, memmove, copy_string, safestrcpy}

-- The memory after a copy of `n` bytes, each as it was before.
abbrev pub copied : Memory → ℕ → ℕ → ℕ → Memory
copied m dst src n a = if leb dst a && ltb a (dst + n) then m (src + (a - dst)) else m a

copy_up-copied :
    (n : ℕ) (m : Memory) (dst src a : ℕ)
    → (dst ≤ src) ⊎ (src + n ≤ dst)
    → copy_up n m dst src a ≡ copied m dst src n a
unfolding copy_up
copy_up-copied zero m dst src a h = ground arith
copy_up-copied (suc n) m dst src a h =
    ground (arith, h, copy_up-copied n (put m dst (m src)) (dst + 1) (src + 1) a)

copy_down-copied :
    (n : ℕ) (m : Memory) (dst src a : ℕ)
    → src ≤ dst
    → copy_down n m dst src a ≡ copied m dst src n a
unfolding copy_down
copy_down-copied zero m dst src a h = ground arith
copy_down-copied (suc n) m dst src a h =
    ground (arith, h, copy_down-copied n (put m (dst + n) (m (src + n))) dst src a)

-- `memmove` copies the `n` bytes at `src`, as they were before the call, to `dst` and changes no other
-- byte, however the two ranges overlap.
pub memmove-copied : (m : Memory) (dst src n a : ℕ) → memmove m dst src n a ≡ copied m dst src n a
unfolding memmove
memmove-copied m dst src n a = elim (Bool-cases (ltb src dst && ltb dst (src + n))) [
  | inl over ↦ rw over (copy_down-copied n m dst src a (ground arith))
  | inr apart ↦ elim (Bool-cases (ltb src dst)) [
    | inl after ↦ rw apart (copy_up-copied n m dst src a (inr (ground (arith, apart, after))))
    | inr before ↦ rw apart (copy_up-copied n m dst src a (inl (ground (arith, before))))
  ]
]

-- The string that starts a list of bytes.
abbrev pub c_string : List ℕ → List ℕ
c_string [] = []
c_string (c ∷ cs) = if c == 0 then [] else c ∷ c_string cs

copy_string-lem :
    (n : ℕ) (t : List ℕ)
    → All (λ c. c ≢ 0) t
    → (c_string (copy_string n t) ≡ take n t) × (length (copy_string n t) ≤ n + 1)
unfolding copy_string
copy_string-lem zero t h = (refl, omega arith)
copy_string-lem (suc n) [] h = (refl, omega arith)
copy_string-lem (suc n) (c ∷ t) h =
    let r = copy_string-lem n t h.1 in
    let go : c == 0 ≡ false = ground (arith, h.0) in
    (rw go (ap (λ l. c ∷ l) r.0), omega (arith, r.1))

-- `safestrcpy` into `n` bytes, at least one, stays inside them and leaves the first `n - 1` characters
-- of the string, or all, with a 0 behind.
pub safestrcpy_lem :
    (t : List ℕ) (n : ℕ)
    → 0 < n
    → All (λ c. c ≢ 0) t
    → (c_string (safestrcpy t n) ≡ take (n - 1) t) × (length (safestrcpy t n) ≤ n)
unfolding safestrcpy
safestrcpy_lem t zero h z = absurd (omega arith)
safestrcpy_lem t (suc n) h z =
    let r = copy_string-lem n t z in
    let e : suc n - 1 ≡ n = omega arith in (rw e r.0, omega (arith, r.1))
