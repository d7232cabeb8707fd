-- ===== src/Pipe.antt =====
-- pipe.c: the ring buffer of a pipe. A call runs until it returns or sleeps; a call that wakes up again
-- tests its condition again, so it goes on as a new call for the bytes that are left. `p->lock` makes
-- each run one step. A run names the channel that it wakes up.
pub mod Fifo
pub mod Stream
mod Tests
use osassignment.Prelude.{
  ℕ, zero, suc, ◌+◌, ◌%◌, ◌^◌, Bool, true, false, ◌&&◌, ◌||◌, Option, none, some, List, [], ◌∷◌,
  ◌==◌, truth, if◌then◌else◌,
}

abbrev pub pipe_size : ℕ
pipe_size = 512

-- `data` by index; every index is below `pipe_size`.
pub record Pipe : Type 0 where
  pub bytes : ℕ → ℕ
  pub nread : ℕ
  pub nwrite : ℕ
  pub readopen : ℕ
  pub writeopen : ℕ

-- the addresses `&p->nread` and `&p->nwrite`
pub data Chan : Type 0 where
  nread_chan nwrite_chan : Chan

-- How a run of `pipewrite` ends: it returns `n`, it returns -1, or it sleeps with bytes left.
pub data WriteEnd : Type 0 where
  written : WriteEnd
  write_error : WriteEnd
  write_sleeps : List ℕ → WriteEnd

-- How a run of `piperead` ends: with the bytes that it has read, with -1, or asleep.
pub data ReadEnd : Type 0 where
  got : List ℕ → ReadEnd
  read_error : ReadEnd
  read_sleeps : ReadEnd

-- The pipe of `pipealloc`, in the page that it has allocated.
abbrev pub new_pipe : (ℕ → ℕ) → Pipe
new_pipe page = record { bytes = page; nread = 0; nwrite = 0; readopen = 1; writeopen = 1 }

-- The truth value says if the pipe's page is freed.
pub pipeclose : Pipe → Bool → Pipe × Chan × Bool
pipeclose p writable =
    let p' : Pipe = if writable then record p { writeopen = 0 } else record p { readopen = 0 } in
    (p', (if writable then nread_chan else nwrite_chan), p'.readopen == 0 && p'.writeopen == 0)

abbrev pub is_full : Pipe → Bool
is_full p = p.nwrite == (p.nread + pipe_size) % 2 ^ 32

-- `p->data[p->nwrite++ % PIPESIZE] = b`
abbrev pub push : Pipe → ℕ → Pipe
push p b = record p {
  bytes = λ i. if i == p.nwrite % pipe_size then b else p.bytes i;
  nwrite = (p.nwrite + 1) % 2 ^ 32;
}

-- `killed` is the flag of the process that calls.
pub pipewrite : Bool → Pipe → List ℕ → Pipe × WriteEnd × Option Chan
pipewrite killed p [] = (p, written, some nread_chan)
pipewrite killed p (b ∷ bs) = elim (is_full p) [
  | true ↦
      if p.readopen == 0 || killed
      then (p, write_error, none)
      else (p, write_sleeps (b ∷ bs), some nread_chan)
  | false ↦ pipewrite killed (push p b) bs
]

-- The loop that copies, for `n - i` rounds, with the bytes that it reads.
pub copy_out : ℕ → Pipe → Pipe × List ℕ
copy_out zero p = (p, [])
copy_out (suc n) p =
    let rest : Pipe × List ℕ = copy_out n (record p { nread = (p.nread + 1) % 2 ^ 32 }) in
    if p.nread == p.nwrite then (p, []) else (rest.0, p.bytes (p.nread % pipe_size) ∷ rest.1)

pub piperead : Bool → Pipe → ℕ → Pipe × ReadEnd × Option Chan
unfolding copy_out
piperead killed p n =
    if p.nread == p.nwrite && truth p.writeopen
    then if killed then (p, read_error, none) else (p, read_sleeps, none)
    else let r : Pipe × List ℕ = copy_out n p in (r.0, got r.1, some nwrite_chan)
