-- ===== src/Pipe/Stream.antt =====
-- Any number of writers and readers of one pipe, in any order of their runs.
use osassignment.Prelude.{
  ℕ, ◌+◌, ◌-◌, ◌%◌, ◌^◌, ◌≡◌, refl, sym, ap, ◌∙◌, Bool, true, false, Option, List, [], ◌∷◌, ◌++◌,
  if◌then◌else◌, length, length-append, take, drop, take-append-drop, append_assoc, append-nil, inl,
  inr, arith,
}
use osassignment.Pipe.{
  Pipe, Chan, WriteEnd, ReadEnd, got, read_error, read_sleeps, pipewrite, piperead, pipeclose,
  new_pipe,
}
use osassignment.Pipe.Fifo.{Holds, Sent, pipewrite-Sent, piperead-Holds}

-- The pipe, all bytes that writers have put into it, and all that readers have taken.
pub record World : Type 0 where
  pub pipe : Pipe
  pub sent : List ℕ
  pub received : List ℕ

-- The bytes of a write that are in the pipe afterwards, by its counter.
abbrev pub sent_part : Pipe → Pipe → List ℕ → List ℕ
sent_part p p' bs = take ((p'.nwrite + 2 ^ 32 - p.nwrite) % 2 ^ 32) bs

abbrev pub read_part : ReadEnd → List ℕ
read_part (got bs) = bs
read_part read_error = []
read_part read_sleeps = []

abbrev pub after_write : World → Bool → List ℕ → World
after_write w killed bs =
    let p' : Pipe = (pipewrite killed w.pipe bs).0 in
    record w { pipe = p'; sent = w.sent ++ sent_part w.pipe p' bs }

abbrev pub after_read : World → Bool → ℕ → World
after_read w killed n =
    let r : Pipe × ReadEnd × Option Chan = piperead killed w.pipe n in
    record w { pipe = r.0; received = w.received ++ read_part r.1 }

-- What a pipe that `pipealloc` makes may come to.
pub data Reachable : World → Type 0 where
  fresh : (page : ℕ → ℕ) → Reachable (record { pipe = new_pipe page; sent = []; received = [] })
  writes :
      {w : World} (killed : Bool) (bs : List ℕ) → Reachable w → Reachable (after_write w killed bs)
  reads : {w : World} (killed : Bool) (n : ℕ) → Reachable w → Reachable (after_read w killed n)
  closes :
      {w : World} (end : Bool)
      → Reachable w
      → Reachable (record w { pipe = (pipeclose w.pipe end).0 })

take-append_left {ℓ} : {A : Type ℓ} (xs ys : List A) → take (length xs) (xs ++ ys) ≡ xs
take-append_left [] ys = refl
take-append_left (x ∷ xs) ys = ap (λ l. x ∷ l) (take-append_left xs ys)

sent_part_lem :
    {killed : Bool} {p : Pipe} {xs bs : List ℕ} {r : Pipe × WriteEnd × Option Chan}
    → Holds p xs
    → (s : Sent killed p xs bs r) → sent_part p r.0 bs ≡ s.sent
sent_part_lem {killed} {p} {xs} {bs} {r} h s =
    let count : (r.0.nwrite + 2 ^ 32 - p.nwrite) % 2 ^ 32 ≡ length s.sent = omega (
      arith,
      h.write_eq,
      h.read_word,
      h.size,
      s.reader,
      s.holds.write_eq,
      s.holds.size,
      length-append xs s.sent,
    ) in
    rw (count, s.split) (take-append_left s.sent s.left)

nothing_read : (killed : Bool) → read_part (if killed then read_error else read_sleeps) ≡ []
nothing_read true = refl
nothing_read false = refl

pipeclose-Holds : {p : Pipe} {xs : List ℕ} (end : Bool) → Holds p xs → Holds (pipeclose p end).0 xs
unfolding pipeclose
pipeclose-Holds true h = record {
  window = h.window;
  size = h.size;
  read_word = h.read_word;
  write_eq = h.write_eq;
}
pipeclose-Holds false h = record {
  window = h.window;
  size = h.size;
  read_word = h.read_word;
  write_eq = h.write_eq;
}

-- In every order of writes, reads and closes, the bytes that have been written are those that have been
-- read and then those in the pipe, at most 512, in the same order: none is lost, repeated or moved.
pub Reachable-fifo :
    {w : World} → Reachable w → (xs : List ℕ) × (w.sent ≡ w.received ++ xs) × Holds w.pipe xs
Reachable-fifo (fresh page) =
    ([], refl, record { window = tt; size = omega arith; read_word = omega arith; write_eq = refl })
Reachable-fifo (writes {w} killed bs r) =
    let (xs, eq, held) = Reachable-fifo r in
    let s : Sent killed w.pipe xs bs (pipewrite killed w.pipe bs) =
      pipewrite-Sent killed w.pipe xs bs held in
    (xs ++ s.sent, rw (sent_part_lem held s, eq) (append_assoc w.received xs s.sent), s.holds)
Reachable-fifo (reads {w} killed n r) =
    let (xs, eq, held) = Reachable-fifo r in
    elim (piperead-Holds killed w.pipe xs n held) [
      | inl (empty, open_end, same) ↦ (xs, rw (same, nothing_read, append-nil) eq, rw same held)
      | inr (awake, p', same, rest) ↦ (
        drop n xs,
        rw same (
            eq
            ∙ (ap (λ l. w.received ++ l) (sym (take-append-drop n xs))
                ∙ sym (append_assoc w.received (take n xs) (drop n xs)))),
        rw same rest,
      )
    ]
Reachable-fifo (closes end r) =
    let (xs, eq, held) = Reachable-fifo r in (xs, eq, pipeclose-Holds end held)
