-- ===== src/Syscall/Tests.antt =====
-- A call with one argument that points to a string.
use osassignment.Prelude.{
  ℕ, ◌+◌, ◌-◌, ◌%◌, ◌^◌, ◌≡◌, ◌⊎◌, refl, false, ◌&&◌, Bool, none, some, ltb, leb, ◌==◌,
  if◌then◌else◌, ok, arith,
}
use osassignment.Syscall.{User, argptr, argstr, sleep_loop}
use osassignment.Syscall.Arguments.{IsString, int_at, arg_addr, argptr-lem, argstr-IsString}
use osassignment.Syscall.Clock.{sleep_loop-ticks}

-- the argument at 104 is 8, and the string there has one character
abbrev caller : User
caller = record {
  mem = λ a. if a == 104 then 8 else (if a == 8 then 65 else 0);
  sz = 4096;
  esp = 100;
}

argptr-lem_example :
    argptr caller 0 16
    ≡ ok (
        if leb (arg_addr caller 0 + 4) caller.sz
          && (ltb 16 (2 ^ 31)
              && (ltb (int_at caller (arg_addr caller 0)) caller.sz
                  && leb (int_at caller (arg_addr caller 0) + 16) caller.sz))
        then some (int_at caller (arg_addr caller 0))
        else none)
argptr-lem_example = argptr-lem caller 0 16 (omega arith) (omega arith)

argstr-IsString_example :
    (argstr caller 0 ≡ ok none)
    ⊎ ((addr : ℕ) × (len : ℕ) × (argstr caller 0 ≡ ok (some (addr, len)))
        × IsString caller addr len)
argstr-IsString_example = argstr-IsString caller 0 (omega arith)

-- three ticks from just before the clock wraps round
abbrev late_clock : ℕ → ℕ × Bool
late_clock k = ((2 ^ 32 - 1 + k) % 2 ^ 32, false)

sleep_loop-ticks_example : sleep_loop 4 late_clock (2 ^ 32 - 1) 3 0 ≡ ok (some 0, 3)
sleep_loop-ticks_example =
    sleep_loop-ticks 4 late_clock (2 ^ 32 - 1) 3 0 (omega arith) (omega arith) (λ k. refl)
      (λ k h. refl) (omega arith) (omega arith)
