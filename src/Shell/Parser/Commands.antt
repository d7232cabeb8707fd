-- ===== src/Shell/Parser/Commands.antt =====
-- The parser ends, and what it returns.
use osassignment.Prelude.{
  ℕ, zero, suc, ◌+◌, ◌≤◌, ◌<◌, ◌≡◌, refl, ◌⊎◌, inl, inr, true, false, ◌||◌, List, [], ◌∷◌, leb,
  ◌==◌, length, length-append, Outcome, ok, panic, ◌>>=◌, Bool-cases, arith,
}
use osassignment.Shell.{gettoken, peek}
use osassignment.Shell.Parser.{
  Cmd, exec, redir, pipe, list, back, add_arg, redirect, redir_loop, parseredirs, exec_loop,
  maxargs,
}
use osassignment.Shell.Parser.Progress.{gettoken-length, peek-length, peek-progress}

-- No command has more arguments than `argv` has room for, with a null pointer after them.
abbrev pub IsBounded : Cmd → Type 0
IsBounded (exec argv) = length argv < maxargs
IsBounded (redir cmd file mode fd) = IsBounded cmd
IsBounded (pipe left right) = IsBounded left × IsBounded right
IsBounded (list left right) = IsBounded left × IsBounded right
IsBounded (back cmd) = IsBounded cmd

-- An `execcmd` with `argc` arguments, inside redirections.
abbrev pub HasArgs : ℕ → Cmd → Type 0
HasArgs argc (exec argv) = length argv ≡ argc
HasArgs argc (redir cmd file mode fd) = HasArgs argc cmd
HasArgs argc (pipe left right) = ⊥
HasArgs argc (list left right) = ⊥
HasArgs argc (back cmd) = ⊥

HasArgs-IsBounded : (argc : ℕ) (cmd : Cmd) → HasArgs argc cmd → argc < maxargs → IsBounded cmd
HasArgs-IsBounded argc (exec argv) h lt = omega (arith, h, lt)
HasArgs-IsBounded argc (redir cmd file mode fd) h lt = HasArgs-IsBounded argc cmd h lt
HasArgs-IsBounded argc (pipe left right) h lt = absurd h
HasArgs-IsBounded argc (list left right) h lt = absurd h
HasArgs-IsBounded argc (back cmd) h lt = absurd h

add_arg-HasArgs :
    (argc : ℕ) (w : List ℕ) (cmd : Cmd) → HasArgs argc cmd → HasArgs (argc + 1) (add_arg w cmd)
unfolding add_arg
add_arg-HasArgs argc w (exec argv) h = omega (arith, h, length-append argv (w ∷ []))
add_arg-HasArgs argc w (redir cmd file mode fd) h = add_arg-HasArgs argc w cmd h
add_arg-HasArgs argc w (pipe left right) h = absurd h
add_arg-HasArgs argc w (list left right) h = absurd h
add_arg-HasArgs argc w (back cmd) h = absurd h

-- What a function of the parser comes to: it panics, or takes a part of the line and returns a command.
unfoldable pub Parsed : (Cmd → Type 0) → ℕ → Outcome (Cmd × List ℕ) → Type 0
Parsed P n r =
    (r ≡ panic) ⊎ ((cmd : Cmd) × (rest : List ℕ) × (r ≡ ok (cmd, rest)) × (length rest ≤ n) × P cmd)

pub Parsed-le :
    (P : Cmd → Type 0) (m n : ℕ) (r : Outcome (Cmd × List ℕ)) → m ≤ n → Parsed P m r → Parsed P n r
unfolding Parsed
Parsed-le P m n r h (inl e) = inl e
Parsed-le P m n r h (inr (cmd, rest, e, le, p)) = inr (cmd, rest, e, omega (arith, le, h), p)

-- One function after another.
pub Parsed-bind :
    (P Q : Cmd → Type 0) (m n : ℕ) (r : Outcome (Cmd × List ℕ))
    (next : Cmd × List ℕ → Outcome (Cmd × List ℕ))
    → Parsed P m r
    → ((cmd : Cmd) (rest : List ℕ) → length rest ≤ m → P cmd → Parsed Q n (next (cmd, rest)))
    → Parsed Q n (r >>= next)
unfolding Parsed
Parsed-bind P Q m n r next (inl e) h = inl (rw e refl)
Parsed-bind P Q m n r next (inr (cmd, rest, e, le, p)) h = rw e (h cmd rest le p)

redirect-wraps :
    (P : Cmd → Type 0)
    → ((cmd : Cmd) (file : List ℕ) (mode fd : ℕ) → P cmd → P (redir cmd file mode fd))
    → (tok : ℕ) (cmd : Cmd) (file : List ℕ) → P cmd
    → P (redirect tok cmd file)
unfolding redirect
redirect-wraps P wraps tok cmd file p = elim (Bool-cases (tok == b'<')) [
  | inl input ↦ rw input (wraps cmd file 0 0 p)
  | inr other ↦ elim (Bool-cases ((tok == b'>') || (tok == b'+'))) [
    | inl output ↦ rw (other, output) (wraps cmd file 0x201 1 p)
    | inr neither ↦ rw (other, neither) p
  ]
]

redir_loop-Parsed :
    (P : Cmd → Type 0)
    → ((cmd : Cmd) (file : List ℕ) (mode fd : ℕ) → P cmd → P (redir cmd file mode fd))
    → (n : ℕ) (cmd : Cmd) (s : List ℕ) → length s < n
    → P cmd
    → Parsed P (length s) (redir_loop n cmd s)
unfolding redir_loop Parsed
redir_loop-Parsed P wraps zero cmd s h p = absurd (omega (arith, h))
redir_loop-Parsed P wraps (suc n) cmd s h p =
    let toks : List ℕ = b'<' ∷ b'>' ∷ [] in
    let after : List ℕ = (peek s toks).1 in
    let tok = gettoken after in
    let file = gettoken tok.2 in
    elim (Bool-cases (peek s toks).0) [
      | inr stop ↦ inr (cmd, after, rw (redir_loop, stop) refl, peek-length s toks, p)
      | inl more ↦ elim (Bool-cases (file.0 == b'a')) [
        | inr other ↦ inl (rw (redir_loop, more, other) refl)
        | inl named ↦
            let a = peek-progress s toks more in
            let b = (gettoken-length tok.2).0 in
            rw (redir_loop, more, named)
              (Parsed-le P (length file.2) (length s) _ (omega (arith, a, b)) (
                redir_loop-Parsed P wraps n (redirect tok.0 cmd file.1) file.2
                  (omega (arith, a, b, h)) (redirect-wraps P wraps tok.0 cmd file.1 p)))
      ]
    ]

pub parseredirs-Parsed :
    (P : Cmd → Type 0)
    → ((cmd : Cmd) (file : List ℕ) (mode fd : ℕ) → P cmd → P (redir cmd file mode fd))
    → (cmd : Cmd) (s : List ℕ) → P cmd
    → Parsed P (length s) (parseredirs cmd s)
unfolding parseredirs
parseredirs-Parsed P wraps cmd s p = redir_loop-Parsed P wraps (length s + 1) cmd s (omega arith) p

pub exec_loop-Parsed :
    (n argc : ℕ) (ret : Cmd) (s : List ℕ)
    → length s < n
    → argc < maxargs
    → HasArgs argc ret
    → Parsed IsBounded (length s) (exec_loop n argc ret s)
unfolding exec_loop Parsed
exec_loop-Parsed zero argc ret s h lt args = absurd (omega (arith, h))
exec_loop-Parsed (suc n) argc ret s h lt args =
    let toks : List ℕ = b'|' ∷ b')' ∷ b'&' ∷ b';' ∷ [] in
    let after : List ℕ = (peek s toks).1 in
    let tok = gettoken after in
    let bounded = HasArgs-IsBounded argc ret args lt in
    let a = peek-length s toks in
    let b = gettoken-length after in
    elim (Bool-cases (peek s toks).0) [
      | inl ends ↦ inr (ret, after, rw (exec_loop, ends) refl, a, bounded)
      | inr more ↦ elim b.1 [
        | inl z ↦
            let end : tok.0 == 0 ≡ true = ground (arith, z) in
            inr (ret, tok.2, rw (exec_loop, more, end) refl, omega (arith, a, b.0), bounded)
        | inr (ne, less) ↦
            let some_token : tok.0 == 0 ≡ false = ground (arith, ne) in
            elim (Bool-cases (tok.0 == b'a')) [
              | inr other ↦ inl (rw (exec_loop, more, some_token, other) refl)
              | inl word ↦ elim (Bool-cases (leb maxargs (argc + 1))) [
                | inl full ↦ inl (rw (exec_loop, more, some_token, word, full) refl)
                | inr room ↦
                    rw (exec_loop, more, some_token, word, room)
                      (Parsed-bind (HasArgs (argc + 1)) IsBounded (length tok.2) (length s) _ _
                        (parseredirs-Parsed (HasArgs (argc + 1)) (λ cmd file mode fd p. p)
                          (add_arg tok.1 ret) tok.2 (add_arg-HasArgs argc tok.1 ret args))
                        (λ cmd rest le p.
                          Parsed-le IsBounded (length rest) (length s) _
                            (omega (arith, le, less, a))
                            (exec_loop-Parsed n (argc + 1) cmd rest (omega (arith, le, less, a, h))
                              (ground (arith, room)) p)))
              ]
            ]
      ]
    ]
