-- ===== src/Pipe/Fifo.antt =====
-- A pipe is a first-in first-out queue of at most 512 bytes, also when its counters wrap.
use osassignment.Prelude.{
  ℕ, zero, suc, ◌+◌, ◌%◌, ◌^◌, ◌≤◌, ◌<◌, ◌≡◌, refl, sym, ap, ◌∙◌, Bool, true, false, ◌||◌, Option,
  none, some, List, [], ◌∷◌, ◌++◌, ◌==◌, truth, if◌then◌else◌, length, length-append, take, drop,
  append_assoc, append-nil, Bool-cases, inl, inr, ◌⊎◌, arith,
}
use osassignment.Pipe.{
  Pipe, Chan, nwrite_chan, WriteEnd, written, write_error, write_sleeps, got, read_error,
  read_sleeps, pipewrite, copy_out, piperead, is_full, push,
}

-- The bytes of the ring from the counter `r` on.
abbrev pub Window : (ℕ → ℕ) → ℕ → List ℕ → Type 0
Window d r [] = Unit {0}
Window d r (x ∷ xs) = (d (r % 512) ≡ x) × Window d (r + 1) xs

-- The pipe holds the bytes `xs`, the oldest first.
pub record Holds (p : Pipe) (xs : List ℕ) : Type 0 where
  pub window : Window p.bytes p.nread xs
  pub size : length xs ≤ 512
  pub read_word : p.nread < 2 ^ 32
  pub write_eq : p.nwrite ≡ (p.nread + length xs) % 2 ^ 32

Window-shift :
    (d : ℕ → ℕ) (r s : ℕ) (xs : List ℕ) → r % 512 ≡ s % 512 → Window d r xs → Window d s xs
Window-shift d r s [] e w = tt
Window-shift d r s (x ∷ xs) e w =
    (ap d (sym e) ∙ w.0, Window-shift d (r + 1) (s + 1) xs (omega arith) w.1)

Window-append :
    (d : ℕ → ℕ) (r b : ℕ) (xs : List ℕ)
    → Window d r xs
    → d ((r + length xs) % 512) ≡ b
    → Window d r (xs ++ b ∷ [])
Window-append d r b [] w e = (ap (λ i. d (i % 512)) (omega arith) ∙ e, tt)
Window-append d r b (x ∷ xs) w e =
    (w.0, Window-append d (r + 1) b xs w.1 (ap (λ i. d (i % 512)) (omega arith) ∙ e))

-- A store at an index that the window does not reach.
Window-store :
    (d : ℕ → ℕ) (r t b : ℕ) (xs : List ℕ)
    → r + length xs ≤ t
    → t < r + 512
    → Window d r xs
    → Window (λ i. if i == t % 512 then b else d i) r xs
Window-store d r t b [] le lt w = tt
Window-store d r t b (x ∷ xs) le lt w =
    (ground (arith, w.0), Window-store d (r + 1) t b xs (omega arith) (omega arith) w.1)

is_full_iff : {p : Pipe} {xs : List ℕ} → Holds p xs → is_full p ≡ (length xs == 512)
is_full_iff h = ground (arith, h.size, h.read_word, h.write_eq)

push-Holds :
    {p : Pipe} {xs : List ℕ} (b : ℕ)
    → Holds p xs
    → length xs < 512
    → Holds (push p b) (xs ++ b ∷ [])
push-Holds {p} {xs} b h lt = record {
  window = Window-append (push p b).bytes p.nread b xs stored (ground (arith, h.write_eq));
  size = omega (arith, length-append xs (b ∷ []));
  read_word = h.read_word;
  write_eq = omega (arith, length-append xs (b ∷ []), h.write_eq);
}
  where
    target : p.nwrite % 512 ≡ (p.nread + length xs) % 512
    target = omega (arith, h.write_eq)

    stored : Window (λ i. if i == p.nwrite % 512 then b else p.bytes i) p.nread xs
    stored = rw target (
        Window-store p.bytes p.nread (p.nread + length xs) b xs (omega arith) (omega arith)
          h.window)

-- How a run of `pipewrite` on the bytes `bs` may end, with the pipe full when it does not write all.
pub record Sent (killed : Bool) (p : Pipe) (xs bs : List ℕ) (r : Pipe × WriteEnd × Option Chan)
    : Type 0 where
  pub sent : List ℕ
  pub left : List ℕ
  pub split : bs ≡ sent ++ left
  pub holds : Holds r.0 (xs ++ sent)
  pub reader : r.0.nread ≡ p.nread
  pub ends :
      ((left ≡ []) × (r.1 ≡ written))
      ⊎ ((0 < length left)
          × (length (xs ++ sent) ≡ 512)
          × (r.1 ≡ (if p.readopen == 0 || killed then write_error else write_sleeps left)))

-- `pipewrite` puts a first part of its bytes behind those in the pipe, in order. It returns when all
-- are there; else the pipe is full, and it fails if the reader is closed or the process killed and
-- sleeps with the rest if not.
pub pipewrite-Sent :
    (killed : Bool) (p : Pipe) (xs bs : List ℕ)
    → Holds p xs
    → Sent killed p xs bs (pipewrite killed p bs)
unfolding pipewrite
pipewrite-Sent killed p xs [] h = record {
  sent = [];
  left = [];
  split = refl;
  holds = rw (append-nil) h;
  reader = refl;
  ends = inl (refl, refl);
}
pipewrite-Sent killed p xs (b ∷ bs) h = elim (Bool-cases (length xs == 512)) [
  | inl full ↦
      let stop : is_full p ≡ true = is_full_iff h ∙ full in
      record {
        sent = [];
        left = b ∷ bs;
        split = refl;
        holds = rw append-nil (ground (arith, stop, h));
        reader = ground (arith, stop);
        ends = inr (omega arith, ground (arith, full, length-append xs []), ground (arith, stop));
      }
  | inr room ↦
      let go : is_full p ≡ false = is_full_iff h ∙ room in
      let r : Sent killed (push p b) (xs ++ b ∷ []) bs (pipewrite killed (push p b) bs) =
        pipewrite-Sent killed (push p b) (xs ++ b ∷ []) bs
          (push-Holds b h (ground (arith, h.size))) in
      let same : pipewrite killed p (b ∷ bs) ≡ pipewrite killed (push p b) bs =
        ground (arith, go) in
      rw same (record {
        sent = b ∷ r.sent;
        left = r.left;
        split = ap (λ l. b ∷ l) r.split;
        holds = rw (← append_assoc xs (b ∷ []) r.sent) r.holds;
        reader = r.reader;
        ends = rw (← append_assoc xs (b ∷ []) r.sent) r.ends;
      })
]

copy_out-Holds :
    (n : ℕ) (p : Pipe) (xs : List ℕ)
    → Holds p xs
    → ((copy_out n p).1 ≡ take n xs) × Holds (copy_out n p).0 (drop n xs)
unfolding copy_out
copy_out-Holds zero p xs h = (refl, h)
copy_out-Holds (suc n) p [] h =
    let empty : (p.nread == p.nwrite) ≡ true = ground (arith, h.write_eq, h.read_word) in
    rw empty (refl, h)
copy_out-Holds (suc n) p (x ∷ xs) h =
    let more : (p.nread == p.nwrite) ≡ false = ground (arith, h.write_eq, h.read_word, h.size) in
    let p' : Pipe = record p { nread = (p.nread + 1) % 2 ^ 32 } in
    let rest : ((copy_out n p').1 ≡ take n xs) × Holds (copy_out n p').0 (drop n xs) =
      copy_out-Holds n p' xs (record {
        window = Window-shift p.bytes (p.nread + 1) p'.nread xs (omega arith) h.window.1;
        size = omega (arith, h.size);
        read_word = omega arith;
        write_eq = omega (arith, h.write_eq);
      }) in
    rw more (rw (h.window.0) (ap (λ l. x ∷ l) rest.0), rest.1)

-- `piperead` on an empty pipe with the writer open sleeps, or fails for a killed process, and changes
-- nothing. Else it takes the oldest `n` bytes, or all if there are fewer, and wakes the writers up.
pub piperead-Holds :
    (killed : Bool) (p : Pipe) (xs : List ℕ) (n : ℕ)
    → Holds p xs
    → ((xs ≡ [])
        × (truth p.writeopen ≡ true)
        × (piperead killed p n ≡ (p, (if killed then read_error else read_sleeps), none)))
      ⊎ (((xs ≡ []) → truth p.writeopen ≡ false)
          × (p' : Pipe) × (piperead killed p n ≡ (p', got (take n xs), some nwrite_chan))
          × Holds p' (drop n xs))
unfolding piperead
piperead-Holds killed p [] n h =
    let empty : (p.nread == p.nwrite) ≡ true = ground (arith, h.write_eq, h.read_word) in
    elim (Bool-cases (truth p.writeopen)) [
      | inl open_end ↦ inl (refl, open_end, ground (arith, empty, open_end))
      | inr closed ↦
          let (same, held) = copy_out-Holds n p [] h in
          inr ((λ _. closed), (copy_out n p).0, ground (arith, empty, closed, same), held)
    ]
piperead-Holds killed p (x ∷ xs) n h =
    let more : (p.nread == p.nwrite) ≡ false = ground (arith, h.write_eq, h.read_word, h.size) in
    let (same, held) = copy_out-Holds n p (x ∷ xs) h in
    inr ((λ e. absurd (cc)), (copy_out n p).0, ground (arith, more, same), held)
