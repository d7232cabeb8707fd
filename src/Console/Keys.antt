-- ===== src/Console/Keys.antt =====
-- Every character that `consoleintr` gets, against the line editor.
use osassignment.Prelude.{
  ℕ, suc, ◌+◌, ◌-◌, ◌%◌, ◌^◌, ◌≤◌, ◌<◌, ◌≡◌, refl, sym, ap, ◌∙◌, inl, inr, true, false, not, ◌&&◌,
  ◌||◌, List, [], ◌∷◌, ◌++◌, ltb, ◌==◌, if◌then◌else◌, length, Bool-cases, arith,
}
use osassignment.Console.{
  Input, input_buf, ctrl_u, ctrl_h, ctrl_d, ctrl_p, newline, typed, append_char, ends_line,
  put_char, consoleintr,
}
use osassignment.Console.Lines.{
  At, Holds, forwards, backwards, reverse_onto, forwards-put, backwards-put, forwards-reverse_onto,
  forwards-append,
}
use osassignment.Console.Edit.{
  edit_put, edit_key, ready_length, line_length, kill_line-Holds, erase_char-Holds,
}

module _ (s a b : ℕ) (i : Input) (ready line : List ℕ) (h : At s a b i ready line)
    (room : a + b < input_buf) (c : ℕ) where
  abbrev put : ℕ → ℕ
  put k = if k == (s + a + b) % input_buf then c else i.buf k

  place : i.e % input_buf ≡ (s + a + b) % input_buf
  place = let q = h.e_eq in omega (arith, q)

  buf_eq : (append_char i c).buf ≡ put
  buf_eq = let with_char : ℕ → ℕ → ℕ = λ x k. if k == x then c else i.buf k in ap with_char place

  abbrev pub end : ℕ
  end = s + a + suc b

  ready_kept : ready ≡ forwards (append_char i c).buf s a
  ready_kept =
      h.ready_eq
      ∙ (sym (forwards-put i.buf c (s + a + b) a s (omega arith) (omega (arith, room)))
          ∙ ap (λ f. forwards f s a) (sym buf_eq))

  line_longer : c ∷ line ≡ backwards (append_char i c).buf end (suc b)
  line_longer =
      let e : s + a + suc b - 1 ≡ s + a + b = omega arith in
      let here : put ((s + a + b) % input_buf) ≡ c =
        (let same : (s + a + b) % input_buf == (s + a + b) % input_buf ≡ true = ground arith in
          rw same refl) in
      let kept : backwards put (s + a + b) b ≡ line =
        backwards-put i.buf c (s + a + b) b (s + a + b) (omega arith) (omega arith)
          (omega (arith, room))
        ∙ sym h.line_eq in
      let whole : c ∷ line ≡ put ((s + a + b) % input_buf) ∷ backwards put (s + a + b) b =
        sym (ap (λ x. x ∷ backwards put (s + a + b) b) here ∙ ap (λ l. c ∷ l) kept) in
      whole
      ∙ (ap (λ x. put (x % input_buf) ∷ backwards put x b) (sym e)
          ∙ ap (λ f. backwards f end (suc b)) (sym buf_eq))

  ends_eq :
      ends_line (append_char i c) c
      ≡ (c == newline || (c == ctrl_d || length ready + length line + 1 == input_buf))
  ends_eq =
      let r = h.r_eq in
      let e = h.e_eq in
      let n = ready_length s a b i ready line h in
      let m = line_length s a b i ready line h in
      let full : ((i.e + 1) % 2 ^ 32 == (i.r + input_buf) % 2 ^ 32)
          ≡ (length ready + length line + 1 == input_buf) =
        ground (arith, r, e, n, m, room) in
      ap (λ x. c == newline || (c == ctrl_d || x)) full

  put_char-Holds : (Holds (put_char i c)) (edit_put c (ready, line)).0 (edit_put c (ready, line)).1
  put_char-Holds =
      let e = h.e_eq in
      let fits : a + suc b ≤ input_buf = omega (arith, room) in
      elim (Bool-cases
        (c == newline || (c == ctrl_d || length ready + length line + 1 == input_buf))) [
          | inr more ↦
              let open_line : ends_line (append_char i c) c ≡ false = ends_eq ∙ more in
              rw (open_line, more)
                (
                  s,
                  a,
                  suc b,
                  record {
                    r_eq = h.r_eq;
                    w_eq = h.w_eq;
                    e_eq = omega (arith, e);
                    fits = fits;
                    ready_eq = ready_kept;
                    line_eq = line_longer;
                    no_newline = (ground (arith, more), h.no_newline);
                  },
                )
          | inl done ↦
              let closed : ends_line (append_char i c) c ≡ true = ends_eq ∙ done in
              rw (closed, done)
                (
                  s,
                  a + suc b,
                  0,
                  record {
                    r_eq = h.r_eq;
                    w_eq = omega (arith, e);
                    e_eq = omega (arith, e);
                    fits = omega (arith, fits);
                    ready_eq = all_ready;
                    line_eq = refl;
                    no_newline = tt;
                  },
                )
        ]
    where
      all_ready : ready ++ reverse_onto (c ∷ line) [] ≡ forwards (append_char i c).buf s (a + suc b)
      all_ready =
          let z : suc b + 0 ≡ suc b = omega arith in
          let f = (append_char i c).buf in
          let typed_part : reverse_onto (c ∷ line) [] ≡ forwards f (s + a) (suc b) =
            ap (λ l. reverse_onto l []) line_longer
            ∙ (forwards-reverse_onto f (suc b) (s + a) end 0 refl ∙ ap (forwards f (s + a)) z) in
          ap (λ l. l ++ reverse_onto (c ∷ line) []) ready_kept
          ∙ (ap (λ l. forwards f s a ++ l) typed_part ∙ forwards-append f a (suc b) s)

-- Every character that the console gets changes the ring as it changes a line editor with a list of ready
-- characters and a line: the indices may wrap round in 32 bits and the characters in the buffer of 128,
-- C('U') throws away exactly the line, and a character that would not fit is dropped.
pub consoleintr-Holds :
    (i : Input) (ready line : List ℕ) (c : ℕ)
    → Holds i ready line
    → Holds (consoleintr i c) (edit_key c (ready, line)).0 (edit_key c (ready, line)).1
unfolding consoleintr edit_key
consoleintr-Holds i ready line c (s, a, b, h) = elim (Bool-cases (c == ctrl_p)) [
  | inl listing ↦ rw listing (s, a, b, h)
  | inr not_p ↦ elim (Bool-cases (c == ctrl_u)) [
    | inl kill ↦
        rw (not_p, kill)
          (kill_line-Holds input_buf s a b i ready line (let f = h.fits in omega (arith, f)) h)
    | inr not_u ↦ elim (Bool-cases (c == ctrl_h || c == 127)) [
      | inl erase ↦ rw (not_p, not_u, erase) (erase_char-Holds s a b i ready line h)
      | inr other ↦
          let r = h.r_eq in
          let e = h.e_eq in
          let f = h.fits in
          let n = ready_length s a b i ready line h in
          let m = line_length s a b i ready line h in
          let space : ltb ((i.e + (2 ^ 32 - i.r)) % 2 ^ 32) input_buf
              ≡ ltb (length ready + length line) input_buf =
            ground (arith, r, e, f, n, m) in
          elim (Bool-cases (not (c == 0) && ltb (length ready + length line) input_buf)) [
            | inl fits ↦
                let fits' : not (c == 0) && ltb ((i.e + (2 ^ 32 - i.r)) % 2 ^ 32) input_buf ≡ true =
                  ap (λ x. not (c == 0) && x) space ∙ fits in
                let room : a + b < input_buf = ground (arith, fits, n, m) in
                rw (not_p, not_u, other, fits, fits')
                  (put_char-Holds s a b i ready line h room (typed c))
            | inr full ↦
                let full' : not (c == 0) && ltb ((i.e + (2 ^ 32 - i.r)) % 2 ^ 32) input_buf
                    ≡ false =
                  ap (λ x. not (c == 0) && x) space ∙ full in
                rw (not_p, not_u, other, full, full') (s, a, b, h)
          ]
    ]
  ]
]
