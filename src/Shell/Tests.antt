-- ===== src/Shell/Tests.antt =====
-- The line ` ls>>out ;`.
use osassignment.Prelude.{◌⊎◌, ok, panic, ℕ, ◌≡◌, refl, List, [], ◌∷◌}
use osassignment.Shell.{has, gettoken, peek}
use osassignment.Shell.Tokens.{Lexed, gettoken-Lexed}
use osassignment.Shell.Parser.{Cmd, exec, redir, pipe, back, parsecmd}
use osassignment.Shell.Parser.Commands.{IsBounded}
use osassignment.Shell.Parser.Lines.{parsecmd-IsBounded}
use osassignment.Text.Compare.{strchr}

abbrev input : List ℕ
input = b' ' ∷ b'l' ∷ b's' ∷ b'>' ∷ b'>' ∷ b'o' ∷ b' ' ∷ b';' ∷ []

gettoken-Lexed_example : Lexed input (gettoken input).0 (gettoken input).1 (gettoken input).2
gettoken-Lexed_example = gettoken-Lexed input

-- `(a b|c)>d&`
abbrev nested : List ℕ
nested = b'(' ∷ b'a' ∷ b' ' ∷ b'b' ∷ b'|' ∷ b'c' ∷ b')' ∷ b'>' ∷ b'd' ∷ b'&' ∷ []

parsed :
    parsecmd nested
    ≡ ok (
        back (
          redir
            (pipe (exec ((b'a' ∷ []) ∷ (b'b' ∷ []) ∷ [])) (exec ((b'c' ∷ []) ∷ [])))
            (b'd' ∷ [])
            0x201
            1))
unfolding parsecmd gettoken peek has strchr
parsed = refl

parsecmd-IsBounded_example :
    (parsecmd nested ≡ panic) ⊎ ((cmd : Cmd) × (parsecmd nested ≡ ok cmd) × IsBounded cmd)
parsecmd-IsBounded_example = parsecmd-IsBounded nested
