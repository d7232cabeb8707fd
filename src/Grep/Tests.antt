-- ===== src/Grep/Tests.antt =====
-- The matcher on a small pattern.
use osassignment.Prelude.{◌≡◌, true, [], ◌∷◌, ◌↔◌}
use osassignment.Grep.{match}
use osassignment.Grep.Language.{Accepts, match_iff}

-- `a*b` on `xaab`
match_iff_example :
    (match (97 ∷ 42 ∷ 98 ∷ []) (120 ∷ 97 ∷ 97 ∷ 98 ∷ []) ≡ true)
    ↔ Accepts (97 ∷ 42 ∷ 98 ∷ []) (120 ∷ 97 ∷ 97 ∷ 98 ∷ [])
match_iff_example = match_iff (97 ∷ 42 ∷ 98 ∷ []) (120 ∷ 97 ∷ 97 ∷ 98 ∷ [])
