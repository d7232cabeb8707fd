-- ===== src/Text.antt =====
-- The string functions: string.c of the kernel, and `atoi` of ulib.c and `printint` of printf.c for user
-- programs. Memory is a function of the address, and no range wraps round its end.
pub mod Compare
pub mod Copy
pub mod Decimal
mod Tests
use osassignment.Prelude.{
  ℕ, zero, suc, ◌+◌, ◌-◌, ◌*◌, ◌/◌, ◌%◌, ◌^◌, Bool, true, false, ◌&&◌, List, [], ◌∷◌, ltb, leb,
  ◌==◌, if◌then◌else◌, replicate,
}

abbrev pub Memory : Type 0
Memory = ℕ → ℕ

abbrev pub put : Memory → ℕ → ℕ → Memory
put m a v b = if b == a then v else m b

-- `while(n-- > 0) *--d = *--s`, with the pointers behind the ranges.
pub copy_down : ℕ → Memory → ℕ → ℕ → Memory
copy_down zero m dst src = m
copy_down (suc n) m dst src = copy_down n (put m (dst + n) (m (src + n))) dst src

-- `while(n-- > 0) *d++ = *s++`
pub copy_up : ℕ → Memory → ℕ → ℕ → Memory
copy_up zero m dst src = m
copy_up (suc n) m dst src = copy_up n (put m dst (m src)) (dst + 1) (src + 1)

pub memmove : Memory → ℕ → ℕ → ℕ → Memory
unfolding copy_down copy_up
memmove m dst src n =
    let down : Memory = copy_down n m dst src in
    let up : Memory = copy_up n m dst src in if ltb src dst && ltb dst (src + n) then down else up

-- The bytes that `safestrcpy` writes from `s` on, for a string `t` without its 0. The loop, with
-- `n - 1` rounds at most, may write the 0 of `t`, and another 0 follows.
pub copy_string : ℕ → List ℕ → List ℕ
copy_string zero t = 0 ∷ []
copy_string (suc n) [] = 0 ∷ 0 ∷ []
copy_string (suc n) (c ∷ t) = c ∷ copy_string n t

pub safestrcpy : List ℕ → ℕ → List ℕ
unfolding copy_string
safestrcpy t zero = []
safestrcpy t (suc n) = copy_string n t

-- The bytes that `strncpy` writes: `n` of them, with zeros behind the string.
unfoldable pub strncpy : List ℕ → ℕ → List ℕ
strncpy t zero = []
strncpy [] (suc n) = 0 ∷ replicate n 0
strncpy (c ∷ t) (suc n) = c ∷ strncpy t n

abbrev pub is_digit : ℕ → Bool
is_digit c = leb 48 c && leb c 57

-- The loop of `atoi`, in 32-bit arithmetic.
unfoldable pub atoi_from : ℕ → List ℕ → ℕ
atoi_from n [] = n
atoi_from n (c ∷ s) =
    let rest : ℕ = atoi_from ((n * 10 + c + 2 ^ 32 - 48) % 2 ^ 32) s in
    if is_digit c then rest else n

unfoldable pub atoi : List ℕ → ℕ
unfolding atoi_from
atoi s = atoi_from 0 s

-- The loop of `printint` for the base 10. The digits are put into `buf` from the lowest on and printed
-- from the end, so the list has the last one first. 16 rounds are the size of `buf`.
unfoldable pub print_digits : ℕ → ℕ → List ℕ → List ℕ
print_digits zero x buf = buf
print_digits (suc n) x buf =
    let rest : List ℕ = print_digits n (x / 10) ((48 + x % 10) ∷ buf) in
    if x / 10 == 0 then (48 + x % 10) ∷ buf else rest

-- `printint(fd, xx, 10, 1)`: a negative number is a word of at least 2 ^ 31.
pub printint : ℕ → List ℕ
unfolding print_digits
printint xx =
    if leb (2 ^ 31) xx then 45 ∷ print_digits 16 (2 ^ 32 - xx) [] else print_digits 16 xx []
