-- ===== src/Locks/Tests.antt =====
-- Two nested pairs, with interrupts on at first.
use osassignment.Prelude.{◌≡◌, true, false, [], ◌∷◌, ok, arith}
use osassignment.Locks.{Cpu, push, pop, run}
use osassignment.Locks.Nesting.{done, nest, Same, run-Same}

abbrev cpu0 : Cpu
cpu0 = record { flag = true; ncli = 0; intena = false }

run-Same_example : (c' : Cpu) × (run (push ∷ push ∷ pop ∷ pop ∷ []) cpu0 ≡ ok c') × Same cpu0 c'
run-Same_example = run-Same cpu0 (nest (nest done done) done) (λ h. absurd (omega arith))
