-- ===== src/Text/Tests.antt =====
-- The string functions on small inputs.
use osassignment.Prelude.{◌≡◌, arith}
use osassignment.Text.{memmove, atoi, printint}
use osassignment.Text.Copy.{copied, memmove-copied}
use osassignment.Text.Decimal.{atoi-printint}

-- four bytes, one address up
memmove-copied_example : memmove (λ a. a) 101 100 4 103 ≡ copied (λ a. a) 101 100 4 103
memmove-copied_example = memmove-copied (λ a. a) 101 100 4 103

atoi-printint_example : atoi (printint 4071) ≡ 4071
atoi-printint_example = atoi-printint 4071 (omega arith)
