-- ===== src/Console.antt =====
-- The input of the console, console.c: `consoleintr` edits a line in a ring of 128 characters and
-- `consoleread` takes finished lines. `cons.lock` makes the handling of a character one step, and a read
-- until it sleeps. What is echoed is not modelled.
pub mod Lines
pub mod Edit
pub mod Keys
pub mod Read
mod Tests
use osassignment.Prelude.{
  ℕ, zero, suc, ◌+◌, ◌-◌, ◌%◌, ◌^◌, Bool, true, false, not, ◌&&◌, ◌||◌, List, [], ◌∷◌, ltb, ◌==◌,
  if◌then◌else◌,
}

abbrev pub input_buf : ℕ
input_buf = 128

pub record Input : Type 0 where
  pub buf : ℕ → ℕ
  pub r : ℕ
  pub w : ℕ
  pub e : ℕ

-- `input.e - 1` in 32 bits
abbrev pub before_word : ℕ → ℕ
before_word x = (x + (2 ^ 32 - 1)) % 2 ^ 32

-- C('U'), C('H'), C('D'), C('P') and the newline
abbrev pub ctrl_u : ℕ
ctrl_u = 21

abbrev pub ctrl_h : ℕ
ctrl_h = 8

abbrev pub ctrl_d : ℕ
ctrl_d = 4

abbrev pub ctrl_p : ℕ
ctrl_p = 16

abbrev pub newline : ℕ
newline = 10

-- The loop of C('U'), with a round for each character of the buffer.
unfoldable pub kill_line : ℕ → Input → Input
kill_line zero i = i
kill_line (suc n) i = elim (i.e == i.w) [
  | true ↦ i
  | false ↦ elim (i.buf (before_word i.e % input_buf) == newline) [
    | true ↦ i
    | false ↦ kill_line n (record i { e = before_word i.e })
  ]
]

abbrev pub erase_char : Input → Input
erase_char i = if i.e == i.w then i else record i { e = before_word i.e }

abbrev pub typed : ℕ → ℕ
typed c = if c == 13 then newline else c

abbrev pub append_char : Input → ℕ → Input
append_char i c = record i {
  buf = λ k. if k == i.e % input_buf then c else i.buf k;
  e = (i.e + 1) % 2 ^ 32;
}

-- Whether the line is passed on: at its end, at the end of the file, or when the buffer is full.
abbrev pub ends_line : Input → ℕ → Bool
ends_line i c = c == newline || (c == ctrl_d || i.e == (i.r + input_buf) % 2 ^ 32)

abbrev pub put_char : Input → ℕ → Input
put_char i c = let j = append_char i c in if ends_line j c then record j { w = j.e } else j

-- One character of `consoleintr`; C('P') prints the processes.
unfoldable pub consoleintr : Input → ℕ → Input
unfolding kill_line
consoleintr i c =
    if c == ctrl_p
    then i
    else if c == ctrl_u
    then kill_line input_buf i
    else if c == ctrl_h || c == 127
    then erase_char i
    else if not (c == 0) && ltb ((i.e + (2 ^ 32 - i.r)) % 2 ^ 32) input_buf
    then put_char i (typed c)
    else i

-- How a read ends: it returns, or it sleeps on an empty buffer, or is killed there.
pub data ReadEnd : Type 0 where
  returns asleep killed_there : ReadEnd

-- The loop of `consoleread` for `n` more characters; `some_read` says that `n < target`.
unfoldable pub consoleread : ℕ → Bool → Bool → Input → List ℕ × ReadEnd × Input
consoleread zero killed some_read i = ([], returns, i)
consoleread (suc n) killed some_read i = elim (i.r == i.w) [
  | true ↦ ([], (if killed then killed_there else asleep), i)
  | false ↦
      let c : ℕ = i.buf (i.r % input_buf) in
      let j : Input = record i { r = (i.r + 1) % 2 ^ 32 } in
      let rest : List ℕ × ReadEnd × Input = consoleread n killed true j in
      if c == ctrl_d
      then ([], returns, (if some_read then record j { r = before_word j.r } else j))
      else if c == newline
      then (c ∷ [], returns, j)
      else (c ∷ rest.0, rest.1, rest.2)
]
