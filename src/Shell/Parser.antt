-- ===== src/Shell/Parser.antt =====
-- The parser of the shell, sh.c: `parsecmd`. A command holds the texts of its words, which is what
-- `nulterminate` makes of the pointers to their ends.
pub mod Progress
pub mod Commands
pub mod Lines
use osassignment.Prelude.{
  ℕ, zero, suc, ◌+◌, Bool, true, false, ◌||◌, List, [], ◌∷◌, ◌++◌, leb, ◌==◌, length, if◌then◌else◌,
  Outcome, ok, panic, fault, ◌>>=◌, ◌>>◌,
}
use osassignment.Shell.{gettoken, peek}

abbrev pub maxargs : ℕ
maxargs = 10

pub data Cmd : Type 0 where
  exec : (argv : List (List ℕ)) → Cmd
  redir : (cmd : Cmd) (file : List ℕ) (mode fd : ℕ) → Cmd
  pipe : (left right : Cmd) → Cmd
  list : (left right : Cmd) → Cmd
  back : (cmd : Cmd) → Cmd

-- An argument more for the `execcmd` that the redirections in `ret` are around.
unfoldable pub add_arg : List ℕ → Cmd → Cmd
add_arg w (exec argv) = exec (argv ++ w ∷ [])
add_arg w (redir cmd file mode fd) = redir (add_arg w cmd) file mode fd
add_arg w (pipe left right) = pipe left right
add_arg w (list left right) = list left right
add_arg w (back cmd) = back cmd

-- The switch of `parseredirs`, with O_RDONLY, and O_WRONLY|O_CREATE.
unfoldable pub redirect : ℕ → Cmd → List ℕ → Cmd
redirect tok cmd file =
    if tok == b'<'
    then redir cmd file 0 0
    else if (tok == b'>') || (tok == b'+')
    then redir cmd file 0x201 1
    else cmd

unfoldable pub redir_loop : ℕ → Cmd → List ℕ → Outcome (Cmd × List ℕ)
unfolding redirect
redir_loop zero cmd s = fault
redir_loop (suc n) cmd s =
    let p = peek s (b'<' ∷ b'>' ∷ []) in
    let tok = gettoken p.1 in
    let file = gettoken tok.2 in
    elim p.0 [
      | false ↦ ok (cmd, p.1)
      | true ↦ elim (file.0 == b'a') [
        | false ↦ panic
        | true ↦ redir_loop n (redirect tok.0 cmd file.1) file.2
      ]
    ]

-- A round takes at least one character.
unfoldable pub parseredirs : Cmd → List ℕ → Outcome (Cmd × List ℕ)
unfolding redir_loop
parseredirs cmd s = redir_loop (length s + 1) cmd s

unfoldable pub exec_loop : ℕ → ℕ → Cmd → List ℕ → Outcome (Cmd × List ℕ)
unfolding parseredirs add_arg
exec_loop zero argc ret s = fault
exec_loop (suc n) argc ret s =
    let p = peek s (b'|' ∷ b')' ∷ b'&' ∷ b';' ∷ []) in
    let tok = gettoken p.1 in
    elim p.0 [
      | true ↦ ok (ret, p.1)
      | false ↦ elim (tok.0 == 0) [
        | true ↦ ok (ret, tok.2)
        | false ↦ elim (tok.0 == b'a') [
          | false ↦ panic
          | true ↦ elim (leb maxargs (argc + 1)) [
            | true ↦ panic
            | false ↦ do
              (ret1, s1) ← parseredirs (add_arg tok.1 ret) tok.2
              exec_loop n (argc + 1) ret1 s1
          ]
        ]
      ]
    ]

-- `line` is `parseline`.
unfoldable pub parseblock : (List ℕ → Outcome (Cmd × List ℕ)) → List ℕ → Outcome (Cmd × List ℕ)
unfolding parseredirs
parseblock line s =
    let p = peek s (b'(' ∷ []) in
    elim p.0 [
      | false ↦ panic
      | true ↦ do
        (cmd, s1) ← line (gettoken p.1).2
        let q = peek s1 (b')' ∷ []) in
            elim q.0 [ false ↦ panic | true ↦ parseredirs cmd (gettoken q.1).2 ]
    ]

unfoldable pub parseexec : (List ℕ → Outcome (Cmd × List ℕ)) → List ℕ → Outcome (Cmd × List ℕ)
unfolding parseblock exec_loop
parseexec line s =
    let p = peek s (b'(' ∷ []) in
    elim p.0 [
      | true ↦ parseblock line p.1
      | false ↦ do (ret, s1) ← parseredirs (exec []) p.1; exec_loop (length s1 + 1) 0 ret s1
    ]

unfoldable pub parsepipe : ℕ → (List ℕ → Outcome (Cmd × List ℕ)) → List ℕ → Outcome (Cmd × List ℕ)
unfolding parseexec
parsepipe zero line s = fault
parsepipe (suc n) line s = do
  (cmd, s1) ← parseexec line s
  let p = peek s1 (b'|' ∷ []) in
      elim p.0 [
        | false ↦ ok (cmd, p.1)
        | true ↦ do (right, s2) ← parsepipe n line (gettoken p.1).2; ok (pipe cmd right, s2)
      ]

unfoldable pub back_loop : ℕ → Cmd → List ℕ → Outcome (Cmd × List ℕ)
back_loop zero cmd s = fault
back_loop (suc n) cmd s =
    let p = peek s (b'&' ∷ []) in
    elim p.0 [ false ↦ ok (cmd, p.1) | true ↦ back_loop n (back cmd) (gettoken p.1).2 ]

unfoldable pub parseline : ℕ → List ℕ → Outcome (Cmd × List ℕ)
unfolding parsepipe back_loop
parseline zero s = fault
parseline (suc n) s = do
  (cmd, s1) ← parsepipe (length s + 1) (parseline n) s
  (cmd2, s2) ← back_loop (length s1 + 1) cmd s1
  let p = peek s2 (b';' ∷ []) in
      elim p.0 [
        | false ↦ ok (cmd2, p.1)
        | true ↦ do (right, s3) ← parseline n (gettoken p.1).2; ok (list cmd2 right, s3)
      ]

-- `if(s != es) panic`
unfoldable pub all_read : Cmd → List ℕ → Outcome Cmd
all_read cmd [] = ok cmd
all_read cmd (c ∷ rest) = panic

unfoldable pub parsecmd : List ℕ → Outcome Cmd
unfolding parseline all_read
parsecmd s = do (cmd, s1) ← parseline (length s + 1) s; all_read cmd (peek s1 []).1
