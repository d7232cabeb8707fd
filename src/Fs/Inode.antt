-- ===== src/Fs/Inode.antt =====
-- The inodes of fs.c: where the blocks of a file stand, how its bytes are read and written, and how the
-- inode itself is kept on the disk. There is one device with a disk, so no function looks at `dev`.
pub mod Words
pub mod OnDisk
pub mod Slots
pub mod Map
pub mod Mapped
pub mod Trunc
pub mod Truncated
pub mod Emptied
pub mod Released
mod Tests
use osassignment.Prelude.{
  ℕ, zero, suc, ◌+◌, ◌-◌, ◌*◌, ◌/◌, ◌%◌, ◌^◌, Bool, true, false, ◌||◌, ◌&&◌, Option, none, some,
  List, [], ◌∷◌, ◌++◌, ltb, leb, ◌==◌, if◌then◌else◌, Outcome, ok, panic, ◌>>=◌, ◌>>◌, panic_if,
}
use osassignment.Fs.{SuperBlock, Disk, bsize, balloc, bfree}

abbrev pub ndirect : ℕ
ndirect = 12

abbrev pub nindirect : ℕ
nindirect = 128

abbrev pub max_file : ℕ
max_file = 140

abbrev pub t_dir : ℕ
t_dir = 1

abbrev pub t_dev : ℕ
t_dev = 3

-- inodes in a block
abbrev pub ipb : ℕ
ipb = 8

abbrev pub iblock : SuperBlock → ℕ → ℕ
iblock sb i = i / ipb + sb.inodestart

-- `struct inode` without its lock; a short is the word of 16 bits that it is stored as.
pub record Inode : Type 0 where
  pub inum : ℕ
  pub ref : ℕ
  pub valid : ℕ
  pub itype : ℕ
  pub major : ℕ
  pub minor : ℕ
  pub nlink : ℕ
  pub size : ℕ
  pub addrs : ℕ → ℕ

pub record FileState : Type 0 where
  pub disk : Disk
  pub ip : Inode

-- Numbers in a block, lowest byte first.
abbrev pub byte_of : ℕ → ℕ → ℕ
byte_of zero v = v % 256
byte_of (suc k) v = byte_of k (v / 256)

abbrev pub short : Disk → ℕ → ℕ → ℕ
short d b i = d b i + 256 * d b (i + 1)

abbrev pub long : Disk → ℕ → ℕ → ℕ
long d b i = d b i + 256 * d b (i + 1) + 65536 * d b (i + 2) + 16777216 * d b (i + 3)

-- `a[j]` and `a[j] = v` for `a = (uint*)bp->data`
abbrev pub word : Disk → ℕ → ℕ → ℕ
word d b j = long d b (4 * j)

abbrev pub put_word : Disk → ℕ → ℕ → ℕ → Disk
put_word d b j v c i = if c == b then (if i / 4 == j then byte_of (i % 4) v else d c i) else d c i

abbrev pub set_addr : Inode → ℕ → ℕ → Inode
set_addr ip k v = record ip { addrs = λ j. if j == k then v else ip.addrs j }

-- The bytes of a `struct dinode`.
abbrev pub dinode_byte : Inode → ℕ → ℕ
dinode_byte ip j =
    if ltb j 2
    then byte_of j ip.itype
    else if ltb j 4
    then byte_of (j - 2) ip.major
    else if ltb j 6
    then byte_of (j - 4) ip.minor
    else if ltb j 8
    then byte_of (j - 6) ip.nlink
    else if ltb j 12
    then byte_of (j - 8) ip.size
    else byte_of ((j - 12) % 4) (ip.addrs ((j - 12) / 4))

unfoldable pub iupdate : SuperBlock → Disk → Inode → Disk
iupdate sb d ip c j =
    if c == iblock sb ip.inum
    then (if j / 64 == ip.inum % ipb then dinode_byte ip (j % 64) else d c j)
    else d c j

-- The part of `ilock` that reads the inode at byte `o` of block `b`.
abbrev pub load_inode : Disk → Inode → ℕ → ℕ → Inode
load_inode d ip b o = record {
  inum = ip.inum;
  ref = ip.ref;
  valid = 1;
  itype = short d b o;
  major = short d b (o + 2);
  minor = short d b (o + 4);
  nlink = short d b (o + 6);
  size = long d b (o + 8);
  addrs = λ k. if leb k ndirect then long d b (o + 12 + 4 * k) else ip.addrs k;
}

unfoldable pub ilock : SuperBlock → Disk → Inode → Outcome Inode
ilock sb d ip =
    let read : Inode = load_inode d ip (iblock sb ip.inum) (64 * (ip.inum % ipb)) in
    if ltb ip.ref 1
    then panic
    else if ip.valid == 0
    then (if read.itype == 0 then panic else ok read)
    else ok ip

-- The direct part of `bmap` for an entry of `addrs`, also that of the indirect block.
unfoldable pub map_addr : SuperBlock → FileState → ℕ → Outcome (ℕ × FileState)
map_addr sb s k =
    if s.ip.addrs k == 0
    then (do (a, d) ← balloc sb s.disk; ok (a, record { disk = d; ip = set_addr s.ip k a }))
    else ok (s.ip.addrs k, s)

-- The entry `j` of the indirect block `a`.
unfoldable pub map_entry : SuperBlock → FileState → ℕ → ℕ → Outcome (ℕ × FileState)
map_entry sb s a j =
    if word s.disk a j == 0
    then (do (b, d) ← balloc sb s.disk; ok (b, record s { disk = put_word d a j b }))
    else ok (word s.disk a j, s)

unfoldable pub bmap : SuperBlock → FileState → ℕ → Outcome (ℕ × FileState)
unfolding map_addr map_entry
bmap sb s bn =
    if ltb bn ndirect
    then map_addr sb s bn
    else if ltb (bn - ndirect) nindirect
    then (do (a, s1) ← map_addr sb s ndirect; map_entry sb s1 a (bn - ndirect))
    else panic

-- The loops of `itrunc`.
unfoldable pub free_direct : ℕ → SuperBlock → FileState → ℕ → Outcome FileState
free_direct zero sb s i = ok s
free_direct (suc n) sb s i = do
  s1 ←
      (if s.ip.addrs i == 0 then ok s else (do
        d ← bfree sb s.disk (s.ip.addrs i)
        ok (record { disk = d; ip = set_addr s.ip i 0 })))
  free_direct n sb s1 (i + 1)

unfoldable pub free_entries : ℕ → SuperBlock → Disk → ℕ → ℕ → Outcome Disk
free_entries zero sb d a j = ok d
free_entries (suc n) sb d a j = do
  d1 ← (if word d a j == 0 then ok d else bfree sb d (word d a j))
  free_entries n sb d1 a (j + 1)

unfoldable pub free_indirect : SuperBlock → FileState → Outcome FileState
unfolding free_entries
free_indirect sb s =
    let a : ℕ = s.ip.addrs ndirect in
    if a == 0 then ok s else (do
      d1 ← free_entries nindirect sb s.disk a 0
      d2 ← bfree sb d1 a
      ok (record { disk = d2; ip = set_addr s.ip ndirect 0 }))

unfoldable pub itrunc : SuperBlock → FileState → Outcome FileState
unfolding free_direct free_indirect iupdate
itrunc sb s = do
  s1 ← free_direct ndirect sb s 0
  s2 ← free_indirect sb s1
  let ip : Inode = record s2.ip { size = 0 } in
      ok (record { disk = iupdate sb s2.disk ip; ip = ip })

-- `r == 1` is read under `icache.lock`; the reference goes last.
unfoldable pub iput : SuperBlock → FileState → Outcome FileState
unfolding itrunc iupdate
iput sb s = do
  s1 ←
      (if ltb 0 s.ip.valid && (s.ip.nlink == 0 && s.ip.ref == 1)
        then (do
          t ← itrunc sb s
          let ip : Inode = record t.ip { itype = 0 } in
              ok (record { disk = iupdate sb t.disk ip; ip = record ip { valid = 0 } }))
        else ok s)
  ok (record s1 { ip = record s1.ip { ref = s1.ip.ref - 1 } })
