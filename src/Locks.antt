-- ===== src/Locks.antt =====
-- spinlock.c: the nesting of `pushcli` and `popcli` on a processor; sleeplock.c: a lock to sleep on.
pub mod Nesting
mod Tests
use osassignment.Prelude.{
  ℕ, zero, suc, ◌+◌, Bool, true, false, ◌&&◌, Option, none, some, List, [], ◌∷◌, ◌==◌, truth,
  if◌then◌else◌, Outcome, ok, panic, ◌>>=◌, ◌>>◌, panic_if,
}

-- The interrupt flag, and the two fields of `struct cpu`.
pub record Cpu : Type 0 where
  pub flag : Bool
  pub ncli : ℕ
  pub intena : Bool

pub pushcli : Cpu → Cpu
pushcli c = record {
  flag = false;
  ncli = c.ncli + 1;
  intena = if c.ncli == 0 then c.flag else c.intena;
}

-- `--ncli < 0` is a call at the depth 0.
pub popcli : Cpu → Outcome Cpu
popcli c = do
  panic_if c.flag
  elim c.ncli [ zero ↦ panic | suc n ↦ ok (record c { ncli = n; flag = n == 0 && c.intena }) ]

pub data Call : Type 0 where
  push pop : Call

-- The calls of a processor, in their order.
pub run : List Call → Cpu → Outcome Cpu
unfolding pushcli popcli
run [] c = ok c
run (push ∷ xs) c = run xs (pushcli c)
run (pop ∷ xs) c = popcli c >>= run xs

-- `struct sleeplock`, which its spinlock makes one step for each call.
pub record SleepLock : Type 0 where
  pub locked : ℕ
  pub pid : ℕ

-- `none` if the caller sleeps; it tests again when it wakes up.
pub acquiresleep : SleepLock → ℕ → Option SleepLock
acquiresleep lk pid = if truth lk.locked then none else some (record { locked = 1; pid = pid })

pub releasesleep : SleepLock → SleepLock
releasesleep lk = record { locked = 0; pid = 0 }
