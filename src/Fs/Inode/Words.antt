-- ===== src/Fs/Inode/Words.antt =====
-- Numbers written to a block are read back.
use osassignment.Prelude.{ℕ, ◌+◌, ◌*◌, ◌/◌, ◌%◌, ◌^◌, ◌<◌, ◌≡◌, ◌≢◌, refl, true, false, ◌==◌, arith}
use osassignment.Fs.{Disk}
use osassignment.Fs.Inode.{byte_of, word, put_word}

pub short_bytes : (v : ℕ) → v < 2 ^ 16 → byte_of 0 v + 256 * byte_of 1 v ≡ v
short_bytes v h = omega (arith, h)

pub long_bytes :
    (v : ℕ)
    → v < 2 ^ 32
    → byte_of 0 v + 256 * byte_of 1 v + 65536 * byte_of 2 v + 16777216 * byte_of 3 v ≡ v
long_bytes v h = omega (arith, h)

put_word_at : (d : Disk) (b j v r : ℕ) → r < 4 → put_word d b j v b (4 * j + r) ≡ byte_of r v
put_word_at d b j v r h =
    let here : b == b ≡ true = ground arith in
    let q : (4 * j + r) / 4 ≡ j = omega (arith, h) in
    let m : (4 * j + r) % 4 ≡ r = omega (arith, h) in
    let same : j == j ≡ true = ground arith in rw (here, q, m, same) refl

put_word_at_ne :
    (d : Disk) (b j v i r : ℕ) → i ≢ j → r < 4 → put_word d b j v b (4 * i + r) ≡ d b (4 * i + r)
put_word_at_ne d b j v i r ne h =
    let here : b == b ≡ true = ground arith in
    let q : (4 * i + r) / 4 ≡ i = omega (arith, h) in
    let other : i == j ≡ false = ground (arith, ne) in rw (here, q, other) refl

pub word-put_word_self : (d : Disk) (b j v : ℕ) → v < 2 ^ 32 → word (put_word d b j v) b j ≡ v
word-put_word_self d b j v h =
    let z : put_word d b j v b (4 * j) ≡ byte_of 0 v =
      (let e : 4 * j ≡ 4 * j + 0 = omega arith in rw e (put_word_at d b j v 0 (omega arith))) in
    omega (
      arith,
      z,
      put_word_at d b j v 1 (omega arith),
      put_word_at d b j v 2 (omega arith),
      put_word_at d b j v 3 (omega arith),
      long_bytes v h,
    )

pub word-put_word_ne : (d : Disk) (b j v i : ℕ) → i ≢ j → word (put_word d b j v) b i ≡ word d b i
word-put_word_ne d b j v i ne =
    let z : put_word d b j v b (4 * i) ≡ d b (4 * i) =
      (let e : 4 * i ≡ 4 * i + 0 = omega arith in
        rw e (put_word_at_ne d b j v i 0 ne (omega arith))) in
    omega (
      arith,
      z,
      put_word_at_ne d b j v i 1 ne (omega arith),
      put_word_at_ne d b j v i 2 ne (omega arith),
      put_word_at_ne d b j v i 3 ne (omega arith),
    )

pub put_word_block : (d : Disk) (b j v c i : ℕ) → c ≢ b → put_word d b j v c i ≡ d c i
put_word_block d b j v c i ne = let other : c == b ≡ false = ground (arith, ne) in rw other refl
