-- ===== src/Console/Read.antt =====
-- `consoleread` takes characters from the ready ones.
use osassignment.Prelude.{
  ℕ, zero, suc, ◌+◌, ◌%◌, ◌^◌, ◌≡◌, refl, sym, ap, ◌∙◌, inl, inr, Bool, true, false, List, [], ◌∷◌,
  ◌==◌, if◌then◌else◌, Bool-cases, arith,
}
use osassignment.Console.{
  Input, input_buf, ctrl_d, newline, ReadEnd, returns, asleep, killed_there, consoleread,
}
use osassignment.Console.Lines.{At, Holds, backwards}

-- A read of `n` characters from the list of the ready ones: what it takes, how it ends, what is left.
unfoldable pub take_line : ℕ → Bool → Bool → List ℕ → List ℕ × ReadEnd × List ℕ
take_line zero killed some_read ready = ([], returns, ready)
take_line (suc n) killed some_read [] = ([], (if killed then killed_there else asleep), [])
take_line (suc n) killed some_read (c ∷ ready) =
    let rest : List ℕ × ReadEnd × List ℕ = take_line n killed true ready in
    if c == ctrl_d
    then ([], returns, (if some_read then c ∷ ready else ready))
    else if c == newline
    then (c ∷ [], returns, ready)
    else (c ∷ rest.0, rest.1, rest.2)

-- A read that ends like `t`, with the ring as `t` leaves the ready characters.
pub record Took (o : List ℕ × ReadEnd × Input) (t : List ℕ × ReadEnd × List ℕ) (line : List ℕ)
    : Type 0 where
  pub taken : o.0 ≡ t.0
  pub ending : o.1 ≡ t.1
  pub left : Holds o.2 t.2 line

-- The ring after its first ready character.
next-At :
    (s a b : ℕ) (i : Input) (c : ℕ) (ready line : List ℕ)
    → At s (suc a) b i (c ∷ ready) line
    → (i.buf (i.r % input_buf) ≡ c)
      × At (s + 1) a b (record i { r = (i.r + 1) % 2 ^ 32 }) ready line
next-At s a b i c ready line h =
    let e : s + suc a ≡ s + 1 + a = omega arith in
    let r = h.r_eq in
    let w = h.w_eq in
    let q = h.e_eq in
    let f = h.fits in
    let place : i.r % input_buf ≡ s % input_buf = omega (arith, r) in
    (
      ap i.buf place ∙ sym (ap (λ l. elim l [ [] ↦ c | x ∷ xs ↦ x ]) h.ready_eq),
      record {
        r_eq = omega (arith, r);
        w_eq = omega (arith, w);
        e_eq = omega (arith, q);
        fits = omega (arith, f);
        ready_eq = ap (λ l. elim l [ [] ↦ [] | x ∷ xs ↦ xs ]) h.ready_eq;
        line_eq = h.line_eq ∙ ap (λ x. backwards i.buf (x + b) b) e;
        no_newline = h.no_newline;
      },
    )

consoleread-Took :
    (n s a b : ℕ) (killed some_read : Bool) (i : Input) (ready line : List ℕ)
    → At s a b i ready line
    → Took (consoleread n killed some_read i) (take_line n killed some_read ready) line
unfolding consoleread take_line
consoleread-Took zero s a b killed some_read i ready line h = record {
  taken = refl;
  ending = refl;
  left = (s, a, b, h);
}
consoleread-Took (suc n) s zero b killed some_read i [] line h =
    let stop : i.r == i.w ≡ true = (let r = h.r_eq in let w = h.w_eq in ground (arith, r, w)) in
    rw (consoleread, stop) (record { taken = refl; ending = refl; left = (s, 0, b, h) })
consoleread-Took (suc n) s zero b killed some_read i (c ∷ ready) line h =
    absurd (ground (arith, h.ready_eq))
consoleread-Took (suc n) s (suc a) b killed some_read i [] line h =
    absurd (ground (arith, h.ready_eq))
consoleread-Took (suc n) s (suc a) b killed some_read i (c ∷ ready) line h =
    let r = h.r_eq in
    let w = h.w_eq in
    let f = h.fits in
    let go : i.r == i.w ≡ false = ground (arith, r, w, f) in
    let (char, h') = next-At s a b i c ready line h in
    elim (Bool-cases (c == ctrl_d)) [
      | inl eof ↦ elim (Bool-cases some_read) [
        | inl late ↦
            rw (consoleread, go, char, eof, late)
              (record {
                taken = refl;
                ending = refl;
                left = (
                  s,
                  suc a,
                  b,
                  record {
                    r_eq = omega (arith, r);
                    w_eq = h.w_eq;
                    e_eq = h.e_eq;
                    fits = h.fits;
                    ready_eq = h.ready_eq;
                    line_eq = h.line_eq;
                    no_newline = h.no_newline;
                  },
                );
              })
        | inr first ↦
            rw (consoleread, go, char, eof, first)
              (record { taken = refl; ending = refl; left = (s + 1, a, b, h') })
      ]
      | inr text ↦ elim (Bool-cases (c == newline)) [
        | inl last ↦
            rw (consoleread, go, char, text, last)
              (record { taken = refl; ending = refl; left = (s + 1, a, b, h') })
        | inr inner ↦
            let rest =
              consoleread-Took n (s + 1) a b killed true (record i { r = (i.r + 1) % 2 ^ 32 }) ready
                line h' in
            rw (consoleread, go, char, text, inner)
              (record {
                taken = ap (λ l. c ∷ l) rest.taken;
                ending = rest.ending;
                left = rest.left;
              })
      ]
    ]

-- A read takes from the ready characters up to its count, the end of a line, or C('D'), which it leaves
-- for the next read unless it is the first character; with none ready it sleeps, or ends if the process
-- is killed. The line that is being typed stays as it is.
pub consoleread-Holds :
    (n : ℕ) (killed some_read : Bool) (i : Input) (ready line : List ℕ)
    → Holds i ready line
    → Took (consoleread n killed some_read i) (take_line n killed some_read ready) line
consoleread-Holds n killed some_read i ready line (s, a, b, h) =
    consoleread-Took n s a b killed some_read i ready line h
