-- ===== src/Syscall/Arguments.antt =====
-- What the fetching functions accept.
use osassignment.Prelude.{
  ℕ, zero, suc, ◌+◌, ◌-◌, ◌*◌, ◌%◌, ◌^◌, ◌≤◌, ◌<◌, ◌≡◌, ◌≢◌, refl, sym, ◌⊎◌, inl, inr, true, false,
  ◌&&◌, ◌||◌, Option, none, some, ltb, leb, ◌==◌, if◌then◌else◌, Outcome, ok, Bool-cases, arith,
}
use mathlib.Core.Path.{subst}
use osassignment.Syscall.{
  User, load, load_int, fetchint, scan_string, fetchstr, argint, argptr, argstr,
}

-- A process below the kernel.
abbrev pub IsUser : User → Type 0
IsUser u = u.sz ≤ 2 ^ 31

abbrev pub int_at : User → ℕ → ℕ
int_at u a = u.mem a + 256 * u.mem (a + 1) + 65536 * u.mem (a + 2) + 16777216 * u.mem (a + 3)

load_int-ok : (u : User) (a : ℕ) → a + 4 ≤ u.sz → load_int u a ≡ ok (int_at u a)
unfolding load_int load
load_int-ok u a h =
    let p0 : ltb a u.sz ≡ true = ground (arith, h) in
    let p1 : ltb (a + 1) u.sz ≡ true = ground (arith, h) in
    let p2 : ltb (a + 2) u.sz ≡ true = ground (arith, h) in
    let p3 : ltb (a + 3) u.sz ≡ true = ground (arith, h) in rw (p0, p1, p2, p3) refl

-- `fetchint` reads exactly the numbers whose four bytes are inside the process.
pub fetchint-lem :
    (u : User) (a : ℕ)
    → IsUser u
    → fetchint u a ≡ ok (if leb (a + 4) u.sz then some (int_at u a) else none)
unfolding fetchint
fetchint-lem u a h = elim (Bool-cases (leb (a + 4) u.sz)) [
  | inl inside ↦
      let passes : leb u.sz a || ltb u.sz ((a + 4) % 2 ^ 32) ≡ false = ground (arith, inside, h) in
      rw (passes, inside, load_int-ok u a (ground (arith, inside))) refl
  | inr outside ↦
      let refused : leb u.sz a || ltb u.sz ((a + 4) % 2 ^ 32) ≡ true = ground (arith, outside, h) in
      rw (refused, outside) refl
]

-- The string of length `len` at an address, with its 0, inside the process.
pub record IsString (u : User) (addr len : ℕ) : Type 0 where
  pub inside : addr + len < u.sz
  pub ends : u.mem (addr + len) ≡ 0
  pub before : (k : ℕ) → k < len → u.mem (addr + k) ≢ 0

-- What `fetchstr` comes to: the length of the string, or none because every byte up to the end of the
-- process is not 0.
pub Fetched : User → ℕ → Outcome (Option ℕ) → Type 0
Fetched u addr r =
    ((len : ℕ) × (r ≡ ok (some len)) × IsString u addr len)
    ⊎ ((r ≡ ok none) × ((k : ℕ) → addr + k < u.sz → u.mem (addr + k) ≢ 0))

scan_string-Fetched :
    (n : ℕ) (u : User) (addr len : ℕ)
    → addr + len + n ≡ u.sz
    → ((k : ℕ) → k < len → u.mem (addr + k) ≢ 0)
    → Fetched u addr (scan_string n u addr len)
unfolding scan_string load Fetched
scan_string-Fetched zero u addr len e h = inr (refl, λ k lt. h k (omega (arith, e, lt)))
scan_string-Fetched (suc n) u addr len e h =
    let inside : ltb (addr + len) u.sz ≡ true = ground (arith, e) in
    elim (Bool-cases (u.mem (addr + len) == 0)) [
      | inl stop ↦ inl (
        len,
        ground (arith, inside, stop),
        record { inside = omega (arith, e); ends = ground (arith, stop); before = h },
      )
      | inr go ↦
          let step : scan_string (suc n) u addr len ≡ scan_string n u addr (len + 1) =
            ground (arith, inside, go) in
          let rest : Fetched u addr (scan_string n u addr (len + 1)) =
            scan_string-Fetched n u addr (len + 1) (omega (arith, e)) (λ k lt.
              elim (Bool-cases (k == len)) [
                | inl last ↦
                    let same : k ≡ len = ground (arith, last) in rw same (ground (arith, go))
                | inr old ↦ h k (ground (arith, old, lt))
              ]) in
          subst (λ (r : Outcome (Option ℕ)). Fetched u addr r) (sym step) rest
    ]

pub fetchstr-Fetched : (u : User) (addr : ℕ) → Fetched u addr (fetchstr u addr)
unfolding fetchstr Fetched
fetchstr-Fetched u addr = elim (Bool-cases (leb u.sz addr)) [
  | inl outside ↦ inr (rw outside refl, λ k lt. absurd (ground (arith, outside, lt)))
  | inr inside ↦ rw inside (
      scan_string-Fetched (u.sz - addr) u addr 0 (ground (arith, inside))
        (λ k lt. absurd (omega (arith, lt))))
]

-- The word that holds an argument.
abbrev pub arg_addr : User → ℕ → ℕ
arg_addr u n = (u.esp + 4 + 4 * n) % 2 ^ 32

-- `argptr` never touches memory outside the process, and it accepts exactly a size that is not negative
-- with a pointer, itself read from inside the process, whose whole block is inside: the sum that it
-- tests cannot wrap round for a process below the kernel.
pub argptr-lem :
    (u : User) (n size : ℕ)
    → IsUser u
    → size < 2 ^ 32
    → argptr u n size
      ≡ ok (
          if leb (arg_addr u n + 4) u.sz
            && (ltb size (2 ^ 31)
                && (ltb (int_at u (arg_addr u n)) u.sz
                    && leb (int_at u (arg_addr u n) + size) u.sz))
          then some (int_at u (arg_addr u n))
          else none)
unfolding argptr argint
argptr-lem u n size h s =
    let read = fetchint-lem u (arg_addr u n) h in
    elim (Bool-cases (leb (arg_addr u n + 4) u.sz)) [
      | inr outside ↦ rw (read, outside) refl
      | inl inside ↦
          rw (read, inside)
            (elim (Bool-cases (
              ltb size (2 ^ 31)
              && (ltb (int_at u (arg_addr u n)) u.sz
                  && leb (int_at u (arg_addr u n) + size) u.sz))) [
                    | inl fits ↦
                        let passes : leb (2 ^ 31) size
                              || (leb u.sz (int_at u (arg_addr u n))
                                  || ltb u.sz ((int_at u (arg_addr u n) + size) % 2 ^ 32))
                            ≡ false =
                          ground (arith, fits, h) in
                        rw (passes, fits) refl
                    | inr bad ↦
                        let refused : leb (2 ^ 31) size
                              || (leb u.sz (int_at u (arg_addr u n))
                                  || ltb u.sz ((int_at u (arg_addr u n) + size) % 2 ^ 32))
                            ≡ true =
                          ground (arith, bad, h, s) in
                        rw (refused, bad) refl
                  ])
    ]

-- `argstr` never touches memory outside the process; what it accepts is a string that ends inside it.
pub argstr-IsString :
    (u : User) (n : ℕ)
    → IsUser u
    → (argstr u n ≡ ok none)
      ⊎ ((addr : ℕ) × (len : ℕ) × (argstr u n ≡ ok (some (addr, len))) × IsString u addr len)
unfolding argstr argint Fetched
argstr-IsString u n h =
    let read = fetchint-lem u (arg_addr u n) h in
    elim (Bool-cases (leb (arg_addr u n + 4) u.sz)) [
      | inr outside ↦ inl (rw (read, outside) refl)
      | inl inside ↦ elim (fetchstr-Fetched u (int_at u (arg_addr u n))) [
        | inl (len, e, str) ↦ inr (int_at u (arg_addr u n), len, rw (read, inside, e) refl, str)
        | inr (e, open_end) ↦ inl (rw (read, inside, e) refl)
      ]
    ]
