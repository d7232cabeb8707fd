-- ===== src/Pipe/Tests.antt =====
-- A small pipe, and the theorems on it.
use osassignment.Prelude.{ℕ, ◌≡◌, refl, false, List, [], ◌∷◌, ◌++◌, ◌==◌, if◌then◌else◌, arith}
use osassignment.Pipe.{Pipe, new_pipe}
use osassignment.Pipe.Fifo.{Holds}
use osassignment.Pipe.Stream.{World, fresh, writes, reads, after_write, after_read, Reachable-fifo}

abbrev pipe0 : Pipe
pipe0 = new_pipe (λ i. 0)

pipe0-Holds : Holds pipe0 []
pipe0-Holds = record { window = tt; size = omega arith; read_word = omega arith; write_eq = refl }

-- two bytes, behind counters that are about to wrap
abbrev pipe2 : Pipe
pipe2 = record {
  bytes = λ i. if i == 511 then 65 else 66;
  nread = 4294967295;
  nwrite = 1;
  readopen = 1;
  writeopen = 1;
}

abbrev two_bytes : List ℕ
two_bytes = 65 ∷ 66 ∷ []

pipe2-Holds : Holds pipe2 (65 ∷ 66 ∷ [])
pipe2-Holds = record {
  window = (refl, (refl, tt));
  size = omega arith;
  read_word = omega arith;
  write_eq = refl;
}

abbrev world2 : World
world2 =
    after_read
      (after_write (record { pipe = pipe0; sent = []; received = [] }) false (1 ∷ 2 ∷ 3 ∷ [])) false
      2

Reachable-fifo_example :
    (xs : List ℕ) × (world2.sent ≡ world2.received ++ xs) × Holds world2.pipe xs
Reachable-fifo_example =
    Reachable-fifo (reads false 2 (writes false (1 ∷ 2 ∷ 3 ∷ []) (fresh (λ i. 0))))
