-- ===== src/Fs/Data/Read.antt =====
-- What `readi` returns.
use osassignment.Prelude.{
  ℕ, zero, suc, ◌+◌, ◌-◌, ◌*◌, ◌/◌, ◌%◌, ◌^◌, ◌≤◌, ◌<◌, ◌≡◌, ◌≢◌, refl, ap, ◌∙◌, inl, inr, true,
  false, ◌||◌, ◌&&◌, none, some, ◌++◌, ltb, leb, ◌==◌, if◌then◌else◌, ok, Bool-cases, arith,
}
use osassignment.Fs.{SuperBlock, bsize}
use osassignment.Fs.Inode.{FileState, t_dev, max_file}
use osassignment.Fs.Inode.Slots.{slot, index, content}
use osassignment.Fs.Inode.Mapped.{bmap_there}
use osassignment.Fs.Data.{Device, min, bytes, chunk, read_loop, readi}
use osassignment.Fs.Data.Bytes.{bytes-append, bytes_same}

-- Every byte below the size of the file has a block.
pub record IsFull (s : FileState) : Type 0 where
  pub bounded : s.ip.size ≤ max_file * bsize
  pub there : (o : ℕ) → o < s.ip.size → slot s (index (o / bsize)) ≢ 0

-- One round's bytes are bytes of the file.
chunk-content :
    (s : FileState) (off n : ℕ)
    → slot s (index (off / bsize)) ≢ 0
    → bytes (s.disk (slot s (index (off / bsize)))) (off % bsize) (chunk off n)
      ≡ bytes (content s) off (chunk off n)
chunk-content s off n there =
    bytes_same (s.disk (slot s (index (off / bsize)))) (content s) (chunk off n) (off % bsize) off
      (λ k lt.
        let q : (off + k) / bsize ≡ off / bsize = ground (arith, lt) in
        let r : (off + k) % bsize ≡ off % bsize + k = ground (arith, lt) in
        let some_block : slot s (index (off / bsize)) == 0 ≡ false = ground (arith, there) in
        rw (q, r, some_block) refl)

read_loop-content :
    (fuel : ℕ) (sb : SuperBlock) (s : FileState) (off n : ℕ)
    → n ≤ fuel
    → off + n ≤ max_file * bsize
    → ((o : ℕ) → off ≤ o → o < off + n → slot s (index (o / bsize)) ≢ 0)
    → read_loop fuel sb s off n ≡ ok (bytes (content s) off n, s)
unfolding read_loop
read_loop-content zero sb s off n h b t = let z : n ≡ 0 = omega (arith, h) in rw z refl
read_loop-content (suc fuel) sb s off n h b t = elim (Bool-cases (n == 0)) [
  | inl done ↦ let z : n ≡ 0 = ground (arith, done) in rw (read_loop, done, z) refl
  | inr more ↦
      let some_byte : 0 < n = ground (arith, more) in
      let here : slot s (index (off / bsize)) ≢ 0 =
        t off (omega arith) (omega (arith, some_byte)) in
      let found = bmap_there sb s (off / bsize) (omega (arith, some_byte, b)) here in
      let some_read : 0 < chunk off n = ground (arith, some_byte) in
      let within : chunk off n ≤ n = ground arith in
      let rest =
        read_loop-content fuel sb s (off + chunk off n) (n - chunk off n)
          (omega (arith, some_read, h)) (omega (arith, within, b))
          (λ o low high. t o (omega (arith, low)) (omega (arith, high, within))) in
      let total : chunk off n + (n - chunk off n) ≡ n = omega (arith, within) in
      let joined : bytes (s.disk (slot s (index (off / bsize)))) (off % bsize) (chunk off n)
            ++ bytes (content s) (off + chunk off n) (n - chunk off n)
          ≡ bytes (content s) off n =
        ap (λ l. l ++ bytes (content s) (off + chunk off n) (n - chunk off n))
          (chunk-content s off n here)
        ∙ (bytes-append (content s) (chunk off n) (n - chunk off n) off
            ∙ ap (bytes (content s) off) total) in
      rw (read_loop, more, found, rest, joined) refl
]

-- `readi` of a file, not a device, with all its blocks: an offset behind the end is refused with -1, as is
-- a range that wraps round; any other call returns the bytes from the offset to the end of the range or of
-- the file, whichever comes first. It always returns, and nothing changes.
pub readi-content :
    (sb : SuperBlock) (devsw : ℕ → Device) (s : FileState) (off n : ℕ)
    → s.ip.itype ≢ t_dev
    → IsFull s
    → off < 2 ^ 32
    → n < 2 ^ 32
    → readi sb devsw s off n
      ≡ ok (
        (if leb off s.ip.size && ltb (off + n) (2 ^ 32)
            then some (bytes (content s) off (min n (s.ip.size - off)))
            else none),
        s,
      )
unfolding readi
readi-content sb devsw s off n file full ho hn =
    let not_dev : s.ip.itype == t_dev ≡ false = ground (arith, file) in
    let fits = full.bounded in
    elim (Bool-cases (leb off s.ip.size && ltb (off + n) (2 ^ 32))) [
      | inr bad ↦
          let refused : ltb s.ip.size off || ltb ((off + n) % 2 ^ 32) off ≡ true =
            ground (arith, bad, ho, hn) in
          rw (not_dev, refused, bad) refl
      | inl good ↦
          let accepted : ltb s.ip.size off || ltb ((off + n) % 2 ^ 32) off ≡ false =
            ground (arith, good) in
          let whole : (off + n) % 2 ^ 32 ≡ off + n = ground (arith, good) in
          let low : off ≤ s.ip.size = ground (arith, good) in
          let left : (if ltb s.ip.size (off + n) then s.ip.size - off else n)
              ≡ min n (s.ip.size - off) =
            ground (arith, low) in
          let room : off + min n (s.ip.size - off) ≤ s.ip.size = ground (arith, low) in
          let run =
            read_loop-content (min n (s.ip.size - off)) sb s off (min n (s.ip.size - off))
              (omega arith) (omega (arith, room, fits))
              (λ o a b. full.there o (omega (arith, b, room))) in
          rw (not_dev, accepted, good, whole, left, run) refl
    ]
