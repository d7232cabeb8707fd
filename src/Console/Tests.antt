-- ===== src/Console/Tests.antt =====
-- Two characters are typed and then read.
use osassignment.Prelude.{◌≡◌, refl, false, [], ◌∷◌, ◌==◌, if◌then◌else◌, arith}
use osassignment.Console.{Input, consoleintr, consoleread}
use osassignment.Console.Lines.{Holds}
use osassignment.Console.Edit.{edit_key}
use osassignment.Console.Keys.{consoleintr-Holds}
use osassignment.Console.Read.{Took, take_line, consoleread-Holds}

abbrev nothing_typed : Input
nothing_typed = record { buf = λ k. 0; r = 0; w = 0; e = 0 }

nothing_typed-Holds : Holds nothing_typed [] []
nothing_typed-Holds = (
  0,
  0,
  0,
  record {
    r_eq = refl;
    w_eq = refl;
    e_eq = refl;
    fits = omega arith;
    ready_eq = refl;
    line_eq = refl;
    no_newline = tt;
  },
)

consoleintr-Holds_example :
    Holds (consoleintr nothing_typed b'a') (edit_key b'a' ([], [])).0 (edit_key b'a' ([], [])).1
consoleintr-Holds_example = consoleintr-Holds nothing_typed [] [] b'a' nothing_typed-Holds

one_line : (edit_key b'\n' ([], b'a' ∷ [])).0 ≡ b'a' ∷ b'\n' ∷ []
unfolding edit_key
one_line = refl

-- the ring after `a` and a newline
abbrev one_typed : Input
one_typed = record {
  buf = λ k. if k == 1 then 10 else (if k == 0 then 97 else 0);
  r = 0;
  w = 2;
  e = 2;
}

one_typed-Holds : Holds one_typed (97 ∷ 10 ∷ []) []
one_typed-Holds = (
  0,
  2,
  0,
  record {
    r_eq = refl;
    w_eq = refl;
    e_eq = refl;
    fits = omega arith;
    ready_eq = refl;
    line_eq = refl;
    no_newline = tt;
  },
)

consoleread-Holds_example :
    Took (consoleread 5 false false one_typed) (take_line 5 false false (97 ∷ 10 ∷ [])) []
consoleread-Holds_example =
    consoleread-Holds 5 false false one_typed (97 ∷ 10 ∷ []) [] one_typed-Holds
