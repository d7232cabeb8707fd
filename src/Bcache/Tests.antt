-- ===== src/Bcache/Tests.antt =====
-- One buffer in use.
use osassignment.Prelude.{ℕ, zero, suc, ◌≡◌, refl, false, [], ◌∷◌, ok, arith}
use osassignment.Bcache.{Buf, Cache, bget, binit}
use osassignment.Bcache.Split.{total}
use osassignment.Bcache.Users.{has_block, Used, starts, gets, IsValid}
use osassignment.Bcache.Valid.{Used-IsValid, bget_held}

-- the last buffer of the list, for block 7 of device 1
abbrev taken : Buf
taken = record { id = 0; dev = 1; blockno = 7; refcnt = 1; valid = false; dirty = false }

abbrev but_one : ℕ → Cache
but_one zero = taken ∷ []
but_one (suc n) =
    record { id = suc n; dev = 0; blockno = 0; refcnt = 0; valid = false; dirty = false }
    ∷ but_one n

first_get : bget binit 1 7 ≡ ok (taken, but_one 29)
unfolding bget binit
first_get = refl

in_use : Used (record { cache = but_one 29; users = 0 ∷ [] })
in_use = gets 1 7 taken (but_one 29) (omega arith) first_get starts

Used-IsValid_example : IsValid (record { cache = but_one 29; users = 0 ∷ [] })
Used-IsValid_example = Used-IsValid in_use

abbrev again : Buf
again = record { id = 0; dev = 1; blockno = 7; refcnt = 2; valid = false; dirty = false }

abbrev twice : ℕ → Cache
twice zero = again ∷ []
twice (suc n) =
    record { id = suc n; dev = 0; blockno = 0; refcnt = 0; valid = false; dirty = false } ∷ twice n

second_get : bget (but_one 29) 1 7 ≡ ok (again, twice 29)
unfolding bget
second_get = refl

bget_held_example : total (has_block 0 1 7) (twice 29) ≡ total (has_block 0 1 7) (but_one 29)
bget_held_example = bget_held 1 7 again (twice 29) 0 1 7 in_use second_get (omega arith)
