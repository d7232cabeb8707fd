-- ===== src/Fs/Path/Walk.antt =====
-- `namex` gives back what it takes.
use osassignment.Prelude.{ℕ, ◌+◌, ◌≡◌, Option, List, ◌==◌, flag, Outcome, IsSafe}
use osassignment.Fs.Cache.{Icache, FsState}
use osassignment.Fs.Cache.Refs.{refs}
use osassignment.Fs.Path.Held.{is_some, Unlocked}

-- No lock is held, and there is one reference less to `ip` and one more to the result.
abbrev pub Walked : FsState → ℕ → Option ℕ × List ℕ × FsState → Type 0
Walked s ip r =
    Unlocked r.2 × ((m : ℕ) → refs r.2.cache m + flag (ip == m) ≡ refs s.cache m + is_some r.0 m)

-- One reference more to the place where the walk starts.
Started : FsState → ℕ → Outcome Icache → Type 0
Started s n r = IsSafe (λ (c : Icache). (m : ℕ) → refs c m ≡ refs s.cache m + flag (n == m)) r
