-- ===== src/Fs/Path/Held.antt =====
-- What the steps of `namex` do to the references and the locks.
use osassignment.Prelude.{
  ℕ, ◌+◌, ◌-◌, ◌<◌, ◌≡◌, refl, ◌∙◌, inl, inr, true, false, Option, none, some, List, ◌==◌, flag,
  IsSafe, IsSafe-bind, Bool-cases, Option-cases, arith,
}
use osassignment.Fs.{SuperBlock}
use osassignment.Fs.Inode.{Inode, FileState}
use osassignment.Fs.Data.{Device}
use osassignment.Fs.Cache.{
  Icache, FsState, get_slot, set_lock, lock_inode, iunlock, put_inode, iunlockput,
}
use osassignment.Fs.Cache.Refs.{refs, get_slot-refs, get_slot-cached, put_slot-refs, iget-refs}
use osassignment.Fs.Cache.Kept.{IsKept, iput-IsSafe, ilock-IsSafe}
use osassignment.Fs.Dir.{dirlookup}
use osassignment.Fs.Dir.Kept.{find_entry-IsSafe}
use osassignment.Fs.Path.{store_slot, lookup_in}

abbrev pub is_some : Option ℕ → ℕ → ℕ
is_some none m = 0
is_some (some n) m = flag (n == m)

abbrev pub Unlocked : FsState → Type 0
Unlocked s = (m : ℕ) → s.locked m ≡ false

-- The process has the lock of `n` and no other.
abbrev pub HasLock : ℕ → FsState → Type 0
HasLock n s = (m : ℕ) → s.locked m ≡ (m == n)

abbrev pub SameRefs : FsState → FsState → Type 0
SameRefs s s' = (m : ℕ) → refs s'.cache m ≡ refs s.cache m

pub lock_inode-IsSafe :
    (sb : SuperBlock) (s : FsState) (n : ℕ)
    → Unlocked s
    → IsSafe (λ (s' : FsState). HasLock n s' × SameRefs s s') (lock_inode sb s n)
unfolding lock_inode
lock_inode-IsSafe sb s n free = elim (Option-cases (get_slot s.cache n)) [
  | inl absent ↦ inl (rw (lock_inode, absent) refl)
  | inr (ip, e) ↦
      let (i, r) = get_slot-cached s.cache n ip e in
      rw (lock_inode, e, free n)
        (IsSafe-bind (IsKept ip) (λ (s' : FsState). HasLock n s' × SameRefs s s') _ _
          (ilock-IsSafe sb s.disk ip)
          (λ ip' k. inr (
            _,
            refl,
            (
              λ m. elim (Bool-cases (m == n)) [
                | inl same ↦ rw same refl
                | inr other ↦ rw (other, free m) refl
              ],
              λ m.
                  let step = put_slot-refs s.cache n ip ip' m e (k.0 ∙ i) in
                  ground (arith, step, k.0, k.1),
            ),
          )))
]

pub iunlock-IsSafe :
    (s : FsState) (n : ℕ)
    → HasLock n s
    → IsSafe (λ (s' : FsState). Unlocked s' × SameRefs s s') (iunlock s n)
unfolding iunlock
iunlock-IsSafe s n mine =
    let self : s.locked n ≡ true = mine n ∙ ground arith in
    elim (Option-cases (get_slot s.cache n)) [
      | inl absent ↦ inl (rw (iunlock, self, absent) refl)
      | inr (ip, e) ↦ inr (
        record s { locked = set_lock s.locked n false },
        rw (iunlock, self, e) refl,
        (
          λ m. elim (Bool-cases (m == n)) [
            | inl same ↦ rw same refl
            | inr other ↦ rw other (mine m ∙ other)
          ],
          λ m. refl,
        ),
      )
    ]

-- One reference less.
abbrev pub Dropped : ℕ → FsState → FsState → Type 0
Dropped n s s' = (m : ℕ) → refs s'.cache m + flag (n == m) ≡ refs s.cache m

pub put_inode-IsSafe :
    (sb : SuperBlock) (s : FsState) (n : ℕ)
    → Unlocked s
    → 0 < refs s.cache n
    → IsSafe (λ (s' : FsState). Unlocked s' × Dropped n s s') (put_inode sb s n)
unfolding put_inode
put_inode-IsSafe sb s n free held =
    let (ip, e) = get_slot-refs s.cache n held in
    let (i, r) = get_slot-cached s.cache n ip e in
    rw (put_inode, free n, e)
      (IsSafe-bind (λ (t : FileState). (t.ip.inum ≡ ip.inum) × (t.ip.ref ≡ ip.ref - 1))
        (λ (s' : FsState). Unlocked s' × Dropped n s s') _ _
        (iput-IsSafe sb (record { disk = s.disk; ip = ip }))
        (λ t k. inr (
          _,
          refl,
          (
            free,
            λ m.
                let step = put_slot-refs s.cache n ip t.ip m e (k.0 ∙ i) in
                ground (arith, step, k.0, k.1, i, r),
          ),
        )))

pub iunlockput-IsSafe :
    (sb : SuperBlock) (s : FsState) (n : ℕ)
    → HasLock n s
    → 0 < refs s.cache n
    → IsSafe (λ (s' : FsState). Unlocked s' × Dropped n s s') (iunlockput sb s n)
unfolding iunlockput
iunlockput-IsSafe sb s n mine held =
    IsSafe-bind (λ (s' : FsState). Unlocked s' × SameRefs s s')
      (λ (s' : FsState). Unlocked s' × Dropped n s s') _ _ (iunlock-IsSafe s n mine)
      (λ t k. elim (put_inode-IsSafe sb t n k.0 (omega (arith, held, k.1 n))) [
        | inl e ↦ inl e
        | inr (u, e, (free, drop)) ↦ inr (u, e, (free, λ m. drop m ∙ k.1 m))
      ])

-- The result has one reference more.
abbrev pub Added : FsState → Option ℕ × FsState → Type 0
Added s r = (m : ℕ) → refs r.1.cache m ≡ refs s.cache m + is_some r.0 m

store_slot-refs :
    (c : Icache) (n : ℕ) (ip : Inode) (m : ℕ) → ip.inum ≡ n → refs (store_slot c n ip) m ≡ refs c m
unfolding store_slot
store_slot-refs c n ip m i = elim (Option-cases (get_slot c n)) [
  | inl absent ↦ rw (store_slot, absent) refl
  | inr (old, e) ↦
      let (j, r) = get_slot-cached c n old e in
      let step = put_slot-refs c n old (record ip { ref = old.ref }) m e i in
      rw (store_slot, e) (ground (arith, step, i, j))
]

pub lookup_in-IsSafe :
    (sb : SuperBlock) (devsw : ℕ → Device) (s : FsState) (n : ℕ) (dp : Inode) (elem : List ℕ)
    → HasLock n s
    → dp.inum ≡ n
    → IsSafe
        (λ (r : Option ℕ × FsState). HasLock n r.1 × Added s r)
        (lookup_in sb devsw s n dp elem)
unfolding lookup_in dirlookup
lookup_in-IsSafe sb devsw s n dp elem mine number =
    let start : FileState = record { disk = s.disk; ip = dp } in
    elim (find_entry-IsSafe sb devsw start elem) [
      | inl e ↦ inl (rw e refl)
      | inr (r, e, k) ↦ elim (Option-cases r.0) [
        | inl absent ↦ inr (
          (none, record s { disk = r.1.disk; cache = store_slot s.cache n r.1.ip }),
          rw (e, absent) refl,
          (mine, λ m. omega (arith, store_slot-refs s.cache n r.1.ip m (k.0 ∙ number))),
        )
        | inr (found, q) ↦ elim (iget-refs s.cache found.0) [
          | inl (p, z, busy) ↦ inl (rw (e, q, p) refl)
          | inr (c1, p, one) ↦ inr (
            (some found.0, record s { disk = r.1.disk; cache = store_slot c1 n r.1.ip }),
            rw (e, q, p) refl,
            (mine, λ m. omega (arith, store_slot-refs c1 n r.1.ip m (k.0 ∙ number), one m)),
          )
        ]
      ]
    ]
