-- ===== src/Syscall.antt =====
-- The arguments of system calls, syscall.c, and `sys_sleep` of sysproc.c. An access of the kernel to user
-- memory at or above the size of the process is a fault.
pub mod Arguments
pub mod Clock
mod Tests
use osassignment.Prelude.{
  ℕ, zero, suc, ◌+◌, ◌-◌, ◌*◌, ◌%◌, ◌^◌, Bool, true, false, ◌&&◌, ◌||◌, Option, none, some, ltb,
  leb, ◌==◌, if◌then◌else◌, Outcome, ok, fault, ◌>>=◌,
}

-- The memory of the current process, its size `sz`, and its stack pointer in `tf->esp`.
pub record User : Type 0 where
  pub mem : ℕ → ℕ
  pub sz : ℕ
  pub esp : ℕ

unfoldable pub load : User → ℕ → Outcome ℕ
load u a = if ltb a u.sz then ok (u.mem a) else fault

-- `*(int*)(addr)`
unfoldable pub load_int : User → ℕ → Outcome ℕ
unfolding load
load_int u a = do
  b0 ← load u a
  b1 ← load u (a + 1)
  b2 ← load u (a + 2)
  b3 ← load u (a + 3)
  ok (b0 + 256 * b1 + 65536 * b2 + 16777216 * b3)

-- `none` is -1.
unfoldable pub fetchint : User → ℕ → Outcome (Option ℕ)
unfolding load_int
fetchint u addr =
    if leb u.sz addr || ltb u.sz ((addr + 4) % 2 ^ 32)
    then ok none
    else (do v ← load_int u addr; ok (some v))

-- The loop of `fetchstr`, `n` bytes before the end: the length from `len` on.
unfoldable pub scan_string : ℕ → User → ℕ → ℕ → Outcome (Option ℕ)
unfolding load
scan_string zero u addr len = ok none
scan_string (suc n) u addr len = do
  c ← load u (addr + len)
  elim (c == 0) [ true ↦ ok (some len) | false ↦ scan_string n u addr (len + 1) ]

unfoldable pub fetchstr : User → ℕ → Outcome (Option ℕ)
unfolding scan_string
fetchstr u addr = if leb u.sz addr then ok none else scan_string (u.sz - addr) u addr 0

unfoldable pub argint : User → ℕ → Outcome (Option ℕ)
unfolding fetchint
argint u n = fetchint u ((u.esp + 4 + 4 * n) % 2 ^ 32)

-- A size of 2 ^ 31 or more is a negative number.
unfoldable pub argptr : User → ℕ → ℕ → Outcome (Option ℕ)
unfolding argint
argptr u n size = do
  r ← argint u n
  elim r [
    | none ↦ ok none
    | some i ↦
        if leb (2 ^ 31) size || (leb u.sz i || ltb u.sz ((i + size) % 2 ^ 32))
        then ok none
        else ok (some i)
  ]

-- The address and the length.
unfoldable pub argstr : User → ℕ → Outcome (Option (ℕ × ℕ))
unfolding argint fetchstr
argstr u n = do
  r ← argint u n
  elim r [
    | none ↦ ok none
    | some addr ↦ do
      l ← fetchstr u addr
      elim l [ none ↦ ok none | some len ↦ ok (some (addr, len)) ]
  ]

-- The number of entries of `syscalls`, with the null pointer at 0.
abbrev pub nelem : ℕ
nelem = 23

-- What `syscall` puts into eax, for a table of what the calls return.
pub syscall : (ℕ → Option ℕ) → ℕ → ℕ
syscall syscalls num =
    if ltb 0 num && (ltb num (2 ^ 31) && ltb num nelem)
    then elim (syscalls num) [ none ↦ 2 ^ 32 - 1 | some r ↦ r ]
    else 2 ^ 32 - 1

-- The loop of `sys_sleep`. `seen j` is the clock when the process looks for the `j`-th time, and whether it
-- is killed then; the result is how it ends, `none` for -1, and how often it has slept.
unfoldable pub sleep_loop : ℕ → (ℕ → ℕ × Bool) → ℕ → ℕ → ℕ → Outcome (Option ℕ × ℕ)
sleep_loop zero seen ticks0 n j = fault
sleep_loop (suc fuel) seen ticks0 n j = elim (ltb (((seen j).0 + (2 ^ 32 - ticks0)) % 2 ^ 32) n) [
  | false ↦ ok (some 0, j)
  | true ↦ elim (seen j).1 [ true ↦ ok (none, j) | false ↦ sleep_loop fuel seen ticks0 n (j + 1) ]
]
