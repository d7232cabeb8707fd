-- ===== src/Console/Edit.antt =====
-- `consoleintr` edits the line.
use osassignment.Prelude.{
  ℕ, zero, suc, ◌+◌, ◌-◌, ◌%◌, ◌≤◌, ◌≡◌, ◌≢◌, refl, sym, ap, ◌∙◌, true, false, not, ◌&&◌, ◌||◌,
  List, [], ◌∷◌, ◌++◌, ltb, ◌==◌, if◌then◌else◌, length, All, arith,
}
use mathlib.Core.Path.{subst}
use osassignment.Console.{
  Input, input_buf, before_word, ctrl_u, ctrl_h, ctrl_d, ctrl_p, newline, kill_line, erase_char,
  typed,
}
use osassignment.Console.Lines.{
  At, Holds, backwards, reverse_onto, length-forwards, length-backwards,
}

-- A line editor: the characters that are ready, and the line with its last character first.
abbrev pub Editor : Type 0
Editor = List ℕ × List ℕ

abbrev pub tail : List ℕ → List ℕ
tail [] = []
tail (c ∷ l) = l

abbrev pub edit_put : ℕ → Editor → Editor
edit_put c (ready, line) =
    if c == newline || (c == ctrl_d || length ready + length line + 1 == input_buf)
    then (ready ++ reverse_onto (c ∷ line) [], [])
    else (ready, c ∷ line)

unfoldable pub edit_key : ℕ → Editor → Editor
edit_key c (ready, line) =
    if c == ctrl_p
    then (ready, line)
    else if c == ctrl_u
    then (ready, [])
    else if c == ctrl_h || c == 127
    then (ready, tail line)
    else if not (c == 0) && ltb (length ready + length line) input_buf
    then edit_put (typed c) (ready, line)
    else (ready, line)

module _ (s a b : ℕ) (i : Input) (ready line : List ℕ) (h : At s a b i ready line) where
  pub e_eq_w : (i.e == i.w) ≡ (b == 0)
  e_eq_w = let e = h.e_eq in let w = h.w_eq in let f = h.fits in ground (arith, e, w, f)

  pub ready_length : length ready ≡ a
  ready_length = ap length h.ready_eq ∙ length-forwards i.buf a s

  pub line_length : length line ≡ b
  line_length = ap length h.line_eq ∙ length-backwards i.buf b (s + a + b)

-- Without the last character of the line.
pop-At :
    (s a b : ℕ) (i : Input) (ready line : List ℕ)
    → At s a (suc b) i ready line
    → (line ≡ i.buf (before_word i.e % input_buf) ∷ tail line)
      × At s a b (record i { e = before_word i.e }) ready (tail line)
pop-At s a b i ready line h =
    let e : s + a + suc b - 1 ≡ s + a + b = omega arith in
    let last : before_word i.e % input_buf ≡ (s + a + suc b - 1) % input_buf =
      (let q = h.e_eq in omega (arith, q)) in
    let split : line
        ≡ i.buf ((s + a + suc b - 1) % input_buf) ∷ backwards i.buf (s + a + suc b - 1) b =
      h.line_eq in
    let rest : tail line ≡ backwards i.buf (s + a + suc b - 1) b = ap tail split in
    (
      split
          ∙ (ap (λ x. i.buf x ∷ backwards i.buf (s + a + suc b - 1) b) (sym last)
              ∙ ap (λ l. i.buf (before_word i.e % input_buf) ∷ l) (sym rest)),
      record {
        r_eq = h.r_eq;
        w_eq = h.w_eq;
        e_eq = (let q = h.e_eq in omega (arith, q));
        fits = (let f = h.fits in omega (arith, f));
        ready_eq = h.ready_eq;
        line_eq = rest ∙ ap (λ x. backwards i.buf x b) e;
        no_newline =
            (let all : All (λ c. c ≢ newline)
                  (i.buf ((s + a + suc b - 1) % input_buf)
                    ∷ backwards i.buf (s + a + suc b - 1) b) =
                subst (λ (l : List ℕ). All (λ c. c ≢ newline) l) split h.no_newline in
              subst (λ (l : List ℕ). All (λ c. c ≢ newline) l) (sym rest) all.1);
      },
    )

empty-At : (s a : ℕ) (i : Input) (ready line : List ℕ) → At s a 0 i ready line → At s a 0 i ready []
empty-At s a i ready line h = record {
  r_eq = h.r_eq;
  w_eq = h.w_eq;
  e_eq = h.e_eq;
  fits = h.fits;
  ready_eq = h.ready_eq;
  line_eq = refl;
  no_newline = tt;
}

pub kill_line-Holds :
    (n s a b : ℕ) (i : Input) (ready line : List ℕ)
    → b ≤ n
    → At s a b i ready line
    → Holds (kill_line n i) ready []
unfolding kill_line
kill_line-Holds zero s a zero i ready line le h = (s, a, 0, empty-At s a i ready line h)
kill_line-Holds zero s a (suc b) i ready line le h = absurd (omega (arith, le))
kill_line-Holds (suc n) s a zero i ready line le h =
    let stop : i.e == i.w ≡ true = e_eq_w s a 0 i ready line h in
    rw (kill_line, stop) (s, a, 0, empty-At s a i ready line h)
kill_line-Holds (suc n) s a (suc b) i ready line le h =
    let go : i.e == i.w ≡ false = e_eq_w s a (suc b) i ready line h ∙ ground arith in
    let (split, h') = pop-At s a b i ready line h in
    let all : All (λ c. c ≢ newline) (i.buf (before_word i.e % input_buf) ∷ tail line) =
      subst (λ (l : List ℕ). All (λ c. c ≢ newline) l) split h.no_newline in
    let other : i.buf (before_word i.e % input_buf) == newline ≡ false = ground (arith, all.0) in
    rw (kill_line, go, other)
      (kill_line-Holds n s a b (record i { e = before_word i.e }) ready (tail line)
        (omega (arith, le)) h')

pub erase_char-Holds :
    (s a b : ℕ) (i : Input) (ready line : List ℕ)
    → At s a b i ready line
    → Holds (erase_char i) ready (tail line)
erase_char-Holds s a zero i ready line h =
    let stop : i.e == i.w ≡ true = e_eq_w s a 0 i ready line h in
    let none_left : tail line ≡ [] = ap tail h.line_eq in
    rw (stop, none_left) (s, a, 0, empty-At s a i ready line h)
erase_char-Holds s a (suc b) i ready line h =
    let go : i.e == i.w ≡ false = e_eq_w s a (suc b) i ready line h ∙ ground arith in
    rw go (s, a, b, (pop-At s a b i ready line h).1)
