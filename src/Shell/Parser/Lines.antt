-- ===== src/Shell/Parser/Lines.antt =====
-- The parser ends on every line.
use osassignment.Prelude.{
  ℕ, zero, suc, ◌+◌, ◌≤◌, ◌<◌, ◌≡◌, refl, ◌⊎◌, inl, inr, List, [], ◌∷◌, length, Outcome, ok, panic,
  Bool-cases, arith,
}
use osassignment.Shell.{gettoken, peek}
use osassignment.Shell.Parser.{
  Cmd, exec, pipe, list, back, parseblock, parseexec, parsepipe, back_loop, parseline, all_read,
  parsecmd,
}
use osassignment.Shell.Parser.Progress.{peek-length, peek-progress}
use osassignment.Shell.Parser.Commands.{
  IsBounded, HasArgs, Parsed, Parsed-le, Parsed-bind, parseredirs-Parsed, exec_loop-Parsed,
}

-- `line` parses what is shorter than `n`.
abbrev Reads : ℕ → (List ℕ → Outcome (Cmd × List ℕ)) → Type 0
Reads n line = (t : List ℕ) → length t < n → Parsed IsBounded (length t) (line t)

parseblock-Parsed :
    (n : ℕ) (line : List ℕ → Outcome (Cmd × List ℕ)) (s : List ℕ)
    → Reads n line
    → length s ≤ n
    → Parsed IsBounded (length s) (parseblock line s)
unfolding parseblock Parsed
parseblock-Parsed n line s reads h =
    let after : List ℕ = (gettoken (peek s (b'(' ∷ [])).1).2 in
    elim (Bool-cases (peek s (b'(' ∷ [])).0) [
      | inr stop ↦ inl (rw (parseblock, stop) refl)
      | inl opens ↦
          let a = peek-progress s (b'(' ∷ []) opens in
          rw (parseblock, opens)
            (Parsed-bind IsBounded IsBounded (length after) (length s) _ _
              (reads after (omega (arith, a, h)))
              (λ cmd rest le p. elim (Bool-cases (peek rest (b')' ∷ [])).0) [
                | inr stop ↦ inl (rw stop refl)
                | inl closes ↦
                    let b = peek-progress rest (b')' ∷ []) closes in
                    rw closes (
                      Parsed-le IsBounded (length (gettoken (peek rest (b')' ∷ [])).1).2) (length s)
                        _ (omega (arith, a, b, le))
                        (parseredirs-Parsed IsBounded (λ c file mode fd q. q) cmd
                          (gettoken (peek rest (b')' ∷ [])).1).2 p))
              ]))
    ]

parseexec-Parsed :
    (n : ℕ) (line : List ℕ → Outcome (Cmd × List ℕ)) (s : List ℕ)
    → Reads n line
    → length s ≤ n
    → Parsed IsBounded (length s) (parseexec line s)
unfolding parseexec
parseexec-Parsed n line s reads h =
    let after : List ℕ = (peek s (b'(' ∷ [])).1 in
    let a = peek-length s (b'(' ∷ []) in
    elim (Bool-cases (peek s (b'(' ∷ [])).0) [
      | inl opens ↦
          rw (parseexec, opens)
            (Parsed-le IsBounded (length after) (length s) _ a
              (parseblock-Parsed n line after reads (omega (arith, a, h))))
      | inr simple ↦
          rw (parseexec, simple)
            (Parsed-bind (HasArgs 0) IsBounded (length after) (length s) _ _
              (parseredirs-Parsed (HasArgs 0) (λ c file mode fd q. q) (exec []) after refl)
              (λ cmd rest le p.
                Parsed-le IsBounded (length rest) (length s) _ (omega (arith, le, a))
                  (exec_loop-Parsed (length rest + 1) 0 cmd rest (omega arith) (omega arith) p)))
    ]

parsepipe-Parsed :
    (n k : ℕ) (line : List ℕ → Outcome (Cmd × List ℕ)) (s : List ℕ)
    → Reads n line
    → length s ≤ n
    → length s < k
    → Parsed IsBounded (length s) (parsepipe k line s)
unfolding parsepipe Parsed
parsepipe-Parsed n zero line s reads h lt = absurd (omega (arith, lt))
parsepipe-Parsed n (suc k) line s reads h lt =
    Parsed-bind IsBounded IsBounded (length s) (length s) _ _ (parseexec-Parsed n line s reads h)
      (λ cmd rest le p.
        let after : List ℕ = (gettoken (peek rest (b'|' ∷ [])).1).2 in
        elim (Bool-cases (peek rest (b'|' ∷ [])).0) [
          | inr stop ↦ inr (
            cmd,
            (peek rest (b'|' ∷ [])).1,
            rw stop refl,
            omega (arith, peek-length rest (b'|' ∷ []), le),
            p,
          )
          | inl more ↦
              let a = peek-progress rest (b'|' ∷ []) more in
              rw more (
                Parsed-bind IsBounded IsBounded (length after) (length s) _ _
                  (parsepipe-Parsed n k line after reads (omega (arith, a, le, h))
                    (omega (arith, a, le, lt)))
                  (λ right rest2 le2 q.
                    inr (pipe cmd right, rest2, refl, omega (arith, le2, a, le), (p, q))))
        ])

back_loop-Parsed :
    (k : ℕ) (cmd : Cmd) (s : List ℕ)
    → length s < k
    → IsBounded cmd
    → Parsed IsBounded (length s) (back_loop k cmd s)
unfolding back_loop Parsed
back_loop-Parsed zero cmd s h p = absurd (omega (arith, h))
back_loop-Parsed (suc k) cmd s h p =
    let after : List ℕ = (gettoken (peek s (b'&' ∷ [])).1).2 in
    elim (Bool-cases (peek s (b'&' ∷ [])).0) [
      | inr stop ↦
          inr (cmd, (peek s (b'&' ∷ [])).1, rw (back_loop, stop) refl, peek-length s (b'&' ∷ []), p)
      | inl more ↦
          let a = peek-progress s (b'&' ∷ []) more in
          rw (back_loop, more)
            (Parsed-le IsBounded (length after) (length s) _ (omega (arith, a))
              (back_loop-Parsed k (back cmd) after (omega (arith, a, h)) p))
    ]

parseline-Parsed : (n : ℕ) (s : List ℕ) → length s < n → Parsed IsBounded (length s) (parseline n s)
unfolding parseline Parsed
parseline-Parsed zero s h = absurd (omega (arith, h))
parseline-Parsed (suc n) s h =
    Parsed-bind IsBounded IsBounded (length s) (length s) _ _
      (parsepipe-Parsed n (length s + 1) (parseline n) s (parseline-Parsed n) (omega (arith, h))
        (omega arith))
      (λ cmd s1 le p.
        Parsed-bind IsBounded IsBounded (length s1) (length s) _ _
          (back_loop-Parsed (length s1 + 1) cmd s1 (omega arith) p)
          (λ cmd2 s2 le2 q.
            let after : List ℕ = (gettoken (peek s2 (b';' ∷ [])).1).2 in
            elim (Bool-cases (peek s2 (b';' ∷ [])).0) [
              | inr stop ↦ inr (
                cmd2,
                (peek s2 (b';' ∷ [])).1,
                rw stop refl,
                omega (arith, peek-length s2 (b';' ∷ []), le, le2),
                q,
              )
              | inl more ↦
                  let a = peek-progress s2 (b';' ∷ []) more in
                  rw more (
                    Parsed-bind IsBounded IsBounded (length after) (length s) _ _
                      (parseline-Parsed n after (omega (arith, a, le, le2, h)))
                      (λ right s3 le3 r.
                        inr (list cmd2 right, s3, refl, omega (arith, a, le, le2, le3), (q, r))))
            ]))

all_read-cases : (cmd : Cmd) (l : List ℕ) → (all_read cmd l ≡ ok cmd) ⊎ (all_read cmd l ≡ panic)
unfolding all_read
all_read-cases cmd [] = inl refl
all_read-cases cmd (c ∷ l) = inr refl

-- `parsecmd` ends on every line, however its parentheses are nested: it panics (a syntax error), or it
-- returns a command in which no program has more arguments than fit into `argv` with the null pointer
-- after them.
pub parsecmd-IsBounded :
    (s : List ℕ) → (parsecmd s ≡ panic) ⊎ ((cmd : Cmd) × (parsecmd s ≡ ok cmd) × IsBounded cmd)
unfolding parsecmd Parsed
parsecmd-IsBounded s = elim (parseline-Parsed (length s + 1) s (omega arith)) [
  | inl e ↦ inl (rw e refl)
  | inr (cmd, rest, e, le, p) ↦ elim (all_read-cases cmd (peek rest []).1) [
    | inl accepted ↦ inr (cmd, rw e accepted, p)
    | inr left ↦ inl (rw e left)
  ]
]
