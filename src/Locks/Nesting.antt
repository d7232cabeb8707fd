-- ===== src/Locks/Nesting.antt =====
-- Matched calls of `pushcli` and `popcli` leave the interrupts as they were.
use osassignment.Prelude.{
  ℕ, suc, ◌<◌, ◌≡◌, refl, ap, ◌∙◌, false, ◌&&◌, List, [], ◌∷◌, ◌++◌, ◌==◌, if◌then◌else◌, Outcome,
  ok, panic, fault, ◌>>=◌, arith,
}
use osassignment.Locks.{Cpu, pushcli, popcli, Call, push, pop, run}

-- Each `pushcli` has its `popcli`.
pub data Balanced : List Call → Type 0 where
  done : Balanced []
  nest : {xs ys : List Call} → Balanced xs → Balanced ys → Balanced (push ∷ (xs ++ pop ∷ ys))

-- The state behind matched calls.
pub record Same (c c' : Cpu) : Type 0 where
  pub flag_eq : c'.flag ≡ c.flag
  pub ncli_eq : c'.ncli ≡ c.ncli
  pub intena_eq : 0 < c.ncli → c'.intena ≡ c.intena

bind_ok :
    {c' : Cpu} {r : Outcome Cpu} (m : Outcome Cpu) (f g : Cpu → Outcome Cpu)
    → ((c : Cpu) → f c ≡ ok c' → g c ≡ r)
    → (m >>= f) ≡ ok c'
    → (m >>= g) ≡ r
bind_ok (ok c) f g h e = h c e
bind_ok panic f g h e = absurd (cc)
bind_ok fault f g h e = absurd (cc)

run-append : (xs ys : List Call) (c c' : Cpu) → run xs c ≡ ok c' → run (xs ++ ys) c ≡ run ys c'
unfolding run
run-append [] ys c c' e = ground (arith, e)
run-append (push ∷ xs) ys c c' e = run-append xs ys (pushcli c) c' e
run-append (pop ∷ xs) ys c c' e =
    bind_ok (popcli c) (run xs) (run (xs ++ ys)) (λ c1. run-append xs ys c1 c') e

popcli-ok :
    (c : Cpu) (n : ℕ)
    → c.flag ≡ false
    → c.ncli ≡ suc n
    → popcli c ≡ ok (record c { ncli = n; flag = n == 0 && c.intena })
unfolding popcli
popcli-ok c n f e = rw (f, e) refl

-- Matched calls never panic where interrupts are off inside a pair, and they leave the flag and the
-- depth as they were; inside a pair they also leave what the outermost `pushcli` has noted.
pub run-Same :
    {xs : List Call} (c : Cpu)
    → Balanced xs
    → (0 < c.ncli → c.flag ≡ false)
    → (c' : Cpu) × (run xs c ≡ ok c') × Same c c'
unfolding run
run-Same c done off = (c, refl, record { flag_eq = refl; ncli_eq = refl; intena_eq = λ h. refl })
run-Same c (nest {xs} {ys} bx by) off =
    let c1 : Cpu = pushcli c in
    let (c2, e2, s2) = run-Same c1 bx (λ h. refl) in
    let depth : c2.ncli ≡ suc c.ncli = s2.ncli_eq ∙ omega arith in
    let c3 : Cpu = record c2 { ncli = c.ncli; flag = c.ncli == 0 && c2.intena } in
    let pops : popcli c2 ≡ ok c3 = popcli-ok c2 c.ncli s2.flag_eq depth in
    let kept : c2.intena ≡ (if c.ncli == 0 then c.flag else c.intena) =
      s2.intena_eq (omega arith) in
    let flag3 : c3.flag ≡ c.flag = ground (arith, kept, off) in
    let (c4, e4, s4) = run-Same c3 by (λ h. flag3 ∙ off h) in
    (
      c4,
      run-append xs (pop ∷ ys) c1 c2 e2 ∙ (ap (λ m. m >>= run ys) pops ∙ e4),
      record {
        flag_eq = s4.flag_eq ∙ flag3;
        ncli_eq = s4.ncli_eq;
        intena_eq = λ h. s4.intena_eq h ∙ ground (arith, kept);
      },
    )
