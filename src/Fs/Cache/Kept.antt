-- ===== src/Fs/Cache/Kept.antt =====
-- The operations on an inode keep its number and its references.
use osassignment.Prelude.{
  ℕ, zero, suc, ◌+◌, ◌-◌, ◌*◌, ◌/◌, ◌%◌, ◌^◌, ◌≡◌, refl, ◌∙◌, inl, inr, ◌&&◌, ltb, ◌==◌, IsSafe,
  IsSafe-bind, Bool-cases, arith,
}
use Prim.Native.Nat.{bit_and}
use osassignment.Fs.{SuperBlock, Disk, bfree, bblock, bpb, put_byte}
use osassignment.Fs.Inode.{
  Inode, FileState, word, ndirect, nindirect, free_direct, free_entries, free_indirect, itrunc,
  iput, ilock, load_inode, iblock, ipb,
}

abbrev pub IsKept : Inode → Inode → Type 0
IsKept ip ip' = (ip'.inum ≡ ip.inum) × (ip'.ref ≡ ip.ref)

abbrev pub HasKept : FileState → FileState → Type 0
HasKept s s' = IsKept s.ip s'.ip

bfree-IsSafe :
    (sb : SuperBlock) (d : Disk) (b : ℕ) → IsSafe (λ (d' : Disk). Unit {0}) (bfree sb d b)
unfolding bfree
bfree-IsSafe sb d b =
    elim (Bool-cases (bit_and (d (bblock sb b) (b % bpb / 8)) (2 ^ (b % bpb % 8)) == 0)) [
      | inl free ↦ inl (rw free refl)
      | inr used ↦ inr (
        put_byte d (bblock sb b) (b % bpb / 8)
            (bit_and (d (bblock sb b) (b % bpb / 8)) (2 ^ 8 - 1 - 2 ^ (b % bpb % 8))),
        rw used refl,
        tt,
      )
    ]

free_direct-IsSafe :
    (n : ℕ) (sb : SuperBlock) (s : FileState) (i : ℕ) → IsSafe (HasKept s) (free_direct n sb s i)
unfolding free_direct
free_direct-IsSafe zero sb s i = inr (s, refl, (refl, refl))
free_direct-IsSafe (suc n) sb s i = elim (Bool-cases (s.ip.addrs i == 0)) [
  | inl hole ↦ rw (free_direct, hole) (free_direct-IsSafe n sb s (i + 1))
  | inr block ↦
      rw (free_direct, block)
        (IsSafe-bind _ (HasKept s) _ _
          (IsSafe-bind (λ (d : Disk). Unit {0}) (HasKept s) _ _
            (bfree-IsSafe sb s.disk (s.ip.addrs i)) (λ d u. inr (_, refl, (refl, refl))))
          (λ t k. elim (free_direct-IsSafe n sb t (i + 1)) [
            | inl e ↦ inl e
            | inr (u, e, k') ↦ inr (u, e, (k'.0 ∙ k.0, k'.1 ∙ k.1))
          ]))
]

free_entries-IsSafe :
    (n : ℕ) (sb : SuperBlock) (d : Disk) (a j : ℕ)
    → IsSafe (λ (d' : Disk). Unit {0}) (free_entries n sb d a j)
unfolding free_entries
free_entries-IsSafe zero sb d a j = inr (d, refl, tt)
free_entries-IsSafe (suc n) sb d a j = elim (Bool-cases (word d a j == 0)) [
  | inl hole ↦ rw (free_entries, hole) (free_entries-IsSafe n sb d a (j + 1))
  | inr block ↦
      rw (free_entries, block)
        (IsSafe-bind (λ (d' : Disk). Unit {0}) (λ (d' : Disk). Unit {0}) _ _
          (bfree-IsSafe sb d (word d a j)) (λ d1 u. free_entries-IsSafe n sb d1 a (j + 1)))
]

free_indirect-IsSafe : (sb : SuperBlock) (s : FileState) → IsSafe (HasKept s) (free_indirect sb s)
unfolding free_indirect
free_indirect-IsSafe sb s = elim (Bool-cases (s.ip.addrs ndirect == 0)) [
  | inl hole ↦ inr (s, rw hole refl, (refl, refl))
  | inr table ↦ rw table (
      IsSafe-bind (λ (d : Disk). Unit {0}) (HasKept s) _ _
        (free_entries-IsSafe nindirect sb s.disk (s.ip.addrs ndirect) 0)
        (λ d1 u.
          IsSafe-bind (λ (d : Disk). Unit {0}) (HasKept s) _ _
            (bfree-IsSafe sb d1 (s.ip.addrs ndirect)) (λ d2 u2. inr (_, refl, (refl, refl)))))
]

itrunc-IsSafe : (sb : SuperBlock) (s : FileState) → IsSafe (HasKept s) (itrunc sb s)
unfolding itrunc
itrunc-IsSafe sb s =
    IsSafe-bind (HasKept s) (HasKept s) _ _ (free_direct-IsSafe ndirect sb s 0) (λ t k.
      IsSafe-bind (HasKept t) (HasKept s) _ _ (free_indirect-IsSafe sb t)
        (λ u k'. inr (_, refl, (k'.0 ∙ k.0, k'.1 ∙ k.1))))

-- `iput` drops a reference.
pub iput-IsSafe :
    (sb : SuperBlock) (s : FileState)
    → IsSafe (λ (t : FileState). (t.ip.inum ≡ s.ip.inum) × (t.ip.ref ≡ s.ip.ref - 1)) (iput sb s)
unfolding iput
iput-IsSafe sb s = elim (Bool-cases (ltb 0 s.ip.valid && (s.ip.nlink == 0 && s.ip.ref == 1))) [
  | inr held ↦
      inr (record s { ip = record s.ip { ref = s.ip.ref - 1 } }, rw held refl, (refl, refl))
  | inl last ↦ rw last (
      IsSafe-bind (HasKept s) _ _ _
        (IsSafe-bind (HasKept s) (HasKept s) _ _ (itrunc-IsSafe sb s) (λ t k. inr (_, refl, k)))
        (λ t k. inr (_, refl, (k.0, ground (arith, k.1)))))
]

pub ilock-IsSafe : (sb : SuperBlock) (d : Disk) (ip : Inode) → IsSafe (IsKept ip) (ilock sb d ip)
unfolding ilock
ilock-IsSafe sb d ip = elim (Bool-cases (ltb ip.ref 1)) [
  | inl none_left ↦ inl (rw none_left refl)
  | inr held ↦ elim (Bool-cases (ip.valid == 0)) [
    | inr loaded ↦ inr (ip, rw (held, loaded) refl, (refl, refl))
    | inl fresh ↦
        let read : Inode = load_inode d ip (iblock sb ip.inum) (64 * (ip.inum % ipb)) in
        elim (Bool-cases (read.itype == 0)) [
          | inl free ↦ inl (rw (held, fresh, free) refl)
          | inr typed ↦ inr (read, rw (held, fresh, typed) refl, (refl, refl))
        ]
  ]
]
