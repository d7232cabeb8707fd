-- ===== src/Fs/Io/Swap.antt =====
-- The swap file keeps what is written to it.
use osassignment.Prelude.{
  ℕ, ◌+◌, ◌-◌, ◌*◌, ◌^◌, ◌≤◌, ◌≡◌, refl, ◌∙◌, ◌⊎◌, true, false, ◌&&◌, some, List, ltb, leb,
  if◌then◌else◌, length, ok, arith,
}
use osassignment.Fs.{SuperBlock, bsize}
use osassignment.Fs.Blocks.Layout.{IsLaidOut, free_blocks}
use osassignment.Fs.Inode.{FileState, max_file}
use osassignment.Fs.Inode.Slots.{content}
use osassignment.Fs.Data.{Buffer, Device, min, bytes}
use osassignment.Fs.Data.Bytes.{bytes_same}
use osassignment.Fs.Data.Read.{readi-content}
use mathlib.Core.Path.{subst}
use osassignment.Fs.Io.{
  filewrite_loop, OpenFile, new_swap_file, fileread, filewrite, write_to_swap_file,
  read_from_swap_file,
}
use osassignment.Fs.Io.Chunks.{IsOpen, cost, filewrite_loop-Stored}

-- The file of a process with its offset anywhere.
abbrev pub swap_file : ℕ → OpenFile
swap_file off = record new_swap_file { off = off }

-- A read of `n` bytes at `place` gives `l` and changes only the offset.
abbrev pub Reads : SuperBlock → (ℕ → Device) → FileState → ℕ → ℕ → List ℕ → Type 0
Reads sb devsw s place n l =
    (off : ℕ)
    → (off' : ℕ) × (read_from_swap_file sb devsw (swap_file off) s place n
        ≡ ok (some l, swap_file off', s))

module _ (sb : SuperBlock) (devsw : ℕ → Device) (s : FileState) (f : IsOpen sb s) where
  pub read_from_swap_file-content :
      (place n : ℕ) → place + n ≤ s.ip.size → Reads sb devsw s place n (bytes (content s) place n)
  unfolding read_from_swap_file fileread
  read_from_swap_file-content place n h off =
      let fits = f.full.bounded in
      let read =
        readi-content sb devsw s place n f.not_dev f.full (omega (arith, h, fits))
          (omega (arith, h, fits)) in
      let inside : leb place s.ip.size && ltb (place + n) (2 ^ 32) ≡ true =
        ground (arith, h, fits) in
      let all : min n (s.ip.size - place) ≡ n = ground (arith, h) in
      (place + length (bytes (content s) place n), rw (read, inside, all) refl)

-- What a write of `n` bytes at `place` to a swap file leads to.
pub record Swapped (sb : SuperBlock) (devsw : ℕ → Device) (s : FileState) (buffer : Buffer)
    (place n : ℕ) (s' : FileState) : Type 0 where
  pub still_open : IsOpen sb s'
  pub size_eq : s'.ip.size ≡ (if ltb s.ip.size (place + n) then place + n else s.ip.size)
  pub same : Reads sb devsw s' place n (bytes buffer 0 n)
  pub others :
      (p m : ℕ)
      → p + m ≤ s.ip.size
      → (p + m ≤ place) ⊎ (place + n ≤ p)
      → (l : List ℕ) × Reads sb devsw s p m l × Reads sb devsw s' p m l

-- `writeToSwapFile` at a place inside the file or at its end, below the largest size and with enough free
-- blocks, returns the size, and then `readFromSwapFile` returns the bytes written from that place, and
-- from every other range of the old file what it returned before. These are the laws that paging asks of
-- a swap file.
pub write_to_swap_file-Swapped :
    (sb : SuperBlock) (devsw : ℕ → Device) (s : FileState) (buffer : Buffer) (off place n : ℕ)
    → IsLaidOut sb
    → IsOpen sb s
    → place ≤ s.ip.size
    → place + n ≤ max_file * bsize
    → cost n place n ≤ free_blocks sb s.disk
    → (s' : FileState) × (write_to_swap_file sb devsw (swap_file off) s buffer place n
        ≡ ok (some n, swap_file (place + n), s'))
      × Swapped sb devsw s buffer place n s'
unfolding write_to_swap_file filewrite
write_to_swap_file-Swapped sb devsw s buffer off place n l f low room free =
    let (s', e, st) =
      filewrite_loop-Stored sb n l devsw s buffer place n (omega arith) f low room free in
    let size = st.size_eq in
    let old = f.full.bounded in
    (
      s',
      wrote sb devsw s s' buffer off place n e,
      record {
        still_open = st.still_open;
        size_eq = size;
        same =
            subst (λ (b : List ℕ). Reads sb devsw s' place n b)
              (bytes_same (content s') buffer n place 0 (λ k lt.
                let range : leb place (place + k) && ltb (place + k) (place + n) ≡ true =
                  ground (arith, lt) in
                let at : place + k - place ≡ 0 + k = omega arith in
                st.content_eq (place + k) (omega (arith, lt, room)) ∙ rw (range, at) refl))
              (read_from_swap_file-content sb devsw s' st.still_open place n
                (ground (arith, size)));
        others = λ p m h apart. (
          bytes (content s) p m,
          read_from_swap_file-content sb devsw s f p m h,
          subst (λ (b : List ℕ). Reads sb devsw s' p m b)
              (bytes_same (content s') (content s) m p p (λ k lt.
                let out : leb place (p + k) && ltb (p + k) (place + n) ≡ false =
                  ground (arith, lt, apart) in
                st.content_eq (p + k) (omega (arith, lt, h, old)) ∙ rw out refl))
              (read_from_swap_file-content sb devsw s' st.still_open p m (ground (arith, size, h))),
        );
      },
    )
  where
    wrote :
        (sb : SuperBlock) (devsw : ℕ → Device) (s s' : FileState) (buffer : Buffer)
        (off place n : ℕ)
        → filewrite_loop n sb devsw s buffer place n ≡ ok (true, place + n, s')
        → write_to_swap_file sb devsw (swap_file off) s buffer place n
          ≡ ok (some n, swap_file (place + n), s')
    wrote sb devsw s s' buffer off place n e = rw e refl
