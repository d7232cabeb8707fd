-- ===== src/Proc/Tests.antt =====
-- A table with two processes, and the theorems on it.
use osassignment.Prelude.{refl, some, ◌==◌, Bool-cases, inl, inr, arith}
use osassignment.Proc.{running, Table, store, schedule}
use osassignment.Proc.Calm.{IsValid}
use osassignment.Proc.Steps.{no_proc, boot_table, boots, schedules, Reached-IsValid}

-- `initproc` at 0 and its child at 1, which runs
abbrev two_procs : Table
two_procs =
    store (boot_table 0 0x8070_0000 0x8071_0000) 1
      (record no_proc { state = running; pid = 2; parent = some 0 })

two_procs-IsValid : IsValid 0 two_procs
two_procs-IsValid = record {
  heard = λ q i lt h z. absurd (elim (Bool-cases (i == 1)) [
    | inl second ↦ ground (arith, second, z)
    | inr other ↦ elim (Bool-cases (i == 0)) [
      | inl first ↦ ground (arith, other, first, z)
      | inr rest ↦ ground (arith, other, rest, z)
    ]
  ]);
  no_self = λ i. ground arith;
  orphan = refl;
  alive = refl;
  range = λ i h. ground arith;
}

Reached-IsValid_example : IsValid 0 (schedule (boot_table 0 0x8070_0000 0x8071_0000) 0)
Reached-IsValid_example = Reached-IsValid (schedules 0 (boots 0x8070_0000 0x8071_0000))
