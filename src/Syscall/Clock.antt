-- ===== src/Syscall/Clock.antt =====
-- `sys_sleep` wakes up in time.
use osassignment.Prelude.{
  ℕ, zero, suc, ◌+◌, ◌-◌, ◌%◌, ◌^◌, ◌≤◌, ◌<◌, ◌≡◌, refl, inl, inr, Bool, true, false, some, ltb, ok,
  Bool-cases, arith,
}
use osassignment.Syscall.{sleep_loop}

-- If each look at the clock comes one tick after the last, and the process is not killed, `sys_sleep(n)`
-- returns 0 after exactly `n` ticks, also when the clock wraps round in between.
pub sleep_loop-ticks :
    (fuel : ℕ) (seen : ℕ → ℕ × Bool) (ticks0 n j : ℕ)
    → ticks0 < 2 ^ 32
    → n < 2 ^ 32
    → ((k : ℕ) → (seen k).0 ≡ (ticks0 + k) % 2 ^ 32)
    → ((k : ℕ) → k < n → (seen k).1 ≡ false)
    → j ≤ n
    → n - j < fuel
    → sleep_loop fuel seen ticks0 n j ≡ ok (some 0, n)
unfolding sleep_loop
sleep_loop-ticks zero seen ticks0 n j t w clock alive le enough = absurd (omega (arith, enough))
sleep_loop-ticks (suc fuel) seen ticks0 n j t w clock alive le enough =
    let now = clock j in
    elim (Bool-cases (ltb j n)) [
      | inr due ↦
          let passed : ltb (((seen j).0 + (2 ^ 32 - ticks0)) % 2 ^ 32) n ≡ false =
            ground (arith, now, t, w, due, le) in
          let at : j ≡ n = ground (arith, due, le) in rw (sleep_loop, passed, at) refl
      | inl early ↦
          let waiting : ltb (((seen j).0 + (2 ^ 32 - ticks0)) % 2 ^ 32) n ≡ true =
            ground (arith, now, t, w, early) in
          let lives : (seen j).1 ≡ false = alive j (ground (arith, early)) in
          rw (sleep_loop, waiting, lives)
            (sleep_loop-ticks fuel seen ticks0 n (j + 1) t w clock alive (ground (arith, early))
              (ground (arith, early, enough)))
    ]
