-- ===== src/Fs/Cache/Refs.antt =====
-- The references to each inode.
use osassignment.Prelude.{
  ℕ, ◌+◌, ◌<◌, ◌≡◌, refl, sym, ap, ◌∙◌, ◌⊎◌, inl, inr, true, none, some, [], ◌∷◌, ◌==◌,
  if◌then◌else◌, flag, ok, panic, All, Bool-cases, Option-cases, arith,
}
use osassignment.Fs.Inode.{Inode}
use osassignment.Fs.Cache.{Icache, is_cached, get_slot, put_slot, recycle_inode, iget}

abbrev pub slot_refs : ℕ → Inode → ℕ
slot_refs m ip = if ip.inum == m then ip.ref else 0

-- How many references the cache counts for a number.
abbrev pub refs : Icache → ℕ → ℕ
refs [] m = 0
refs (x ∷ c) m = slot_refs m x + refs c m

pub get_slot-refs : (c : Icache) (n : ℕ) → 0 < refs c n → (ip : Inode) × (get_slot c n ≡ some ip)
unfolding get_slot
get_slot-refs [] n h = absurd (omega (arith, h))
get_slot-refs (x ∷ c) n h = elim (Bool-cases (is_cached n x)) [
  | inl here ↦ (x, rw here refl)
  | inr other ↦ let (ip, e) = get_slot-refs c n (ground (arith, other, h)) in (ip, rw other e)
]

get_slot-head :
    (x : Inode) (c : Icache) (n : ℕ) (ip : Inode)
    → is_cached n x ≡ true
    → get_slot (x ∷ c) n ≡ some ip
    → x ≡ ip
unfolding get_slot
get_slot-head x c n ip here e =
    let first : get_slot (x ∷ c) n ≡ some x = rw here refl in
    let same : some x ≡ some ip = sym first ∙ e in cc

pub get_slot-cached :
    (c : Icache) (n : ℕ) (ip : Inode) → get_slot c n ≡ some ip → (ip.inum ≡ n) × (0 < ip.ref)
unfolding get_slot
get_slot-cached [] n ip e = absurd (cc)
get_slot-cached (x ∷ c) n ip e = elim (Bool-cases (is_cached n x)) [
  | inl here ↦
      let same = get_slot-head x c n ip here e in
      let i : x.inum ≡ ip.inum = ap (λ (y : Inode). y.inum) same in
      let r : x.ref ≡ ip.ref = ap (λ (y : Inode). y.ref) same in
      (ground (arith, here, i), ground (arith, here, r))
  | inr other ↦ get_slot-cached c n ip (ground (arith, other, e))
]

-- The inode in the slot of `n` is replaced.
pub put_slot-refs :
    (c : Icache) (n : ℕ) (ip ip' : Inode) (m : ℕ)
    → get_slot c n ≡ some ip
    → ip'.inum ≡ n
    → refs (put_slot c n ip') m + slot_refs m ip ≡ refs c m + slot_refs m ip'
unfolding get_slot put_slot
put_slot-refs [] n ip ip' m e i = absurd (cc)
put_slot-refs (x ∷ c) n ip ip' m e i = elim (Bool-cases (is_cached n x)) [
  | inl here ↦
      let same : slot_refs m x ≡ slot_refs m ip =
        ap (slot_refs m) (get_slot-head x c n ip here e) in
      rw here (omega (arith, same))
  | inr other ↦
      let rest = put_slot-refs c n ip ip' m (ground (arith, other, e)) i in
      rw other (omega (arith, rest))
]

pub recycle_inode-refs :
    (c : Icache) (n : ℕ)
    → ((recycle_inode c n ≡ panic) × All (λ ip. 0 < ip.ref) c)
      ⊎ ((c' : Icache) × (recycle_inode c n ≡ ok c')
          × ((m : ℕ) → refs c' m ≡ refs c m + flag (n == m)))
unfolding recycle_inode
recycle_inode-refs [] n = inl (refl, tt)
recycle_inode-refs (x ∷ c) n = elim (Bool-cases (x.ref == 0)) [
  | inl free ↦
      inr (record x { inum = n; ref = 1; valid = 0 } ∷ c, rw free refl, λ m. ground (arith, free))
  | inr busy ↦ elim (recycle_inode-refs c n) [
    | inl (e, all) ↦ inl (rw (busy, e) refl, (ground (arith, busy), all))
    | inr (c', e, h) ↦ inr (x ∷ c', rw (busy, e) refl, λ m. omega (arith, h m))
  ]
]

-- `iget` takes one reference to the inode, or panics: no slot has the number, and every slot is in use.
pub iget-refs :
    (c : Icache) (n : ℕ)
    → ((iget c n ≡ panic) × (refs c n ≡ 0) × All (λ ip. 0 < ip.ref) c)
      ⊎ ((c' : Icache) × (iget c n ≡ ok c') × ((m : ℕ) → refs c' m ≡ refs c m + flag (n == m)))
unfolding iget
iget-refs c n = elim (Option-cases (get_slot c n)) [
  | inr (ip, e) ↦
      let (i, r) = get_slot-cached c n ip e in
      inr (
        put_slot c n (record ip { ref = ip.ref + 1 }),
        rw (iget, e) refl,
        λ m.
            let step = put_slot-refs c n ip (record ip { ref = ip.ref + 1 }) m e i in
            ground (arith, step, i),
      )
  | inl absent ↦ elim (recycle_inode-refs c n) [
    | inl (e, busy) ↦ inl (rw (iget, absent) e, no_refs c n absent, busy)
    | inr (c', e, h) ↦ inr (c', rw (iget, absent) e, h)
  ]
]
  where
    no_refs : (c : Icache) (n : ℕ) → get_slot c n ≡ none → refs c n ≡ 0
    no_refs c n absent = elim (Bool-cases (refs c n == 0)) [
      | inl zero_refs ↦ ground (arith, zero_refs)
      | inr more ↦
          let (ip, e) = get_slot-refs c n (ground (arith, more)) in
          let clash : some ip ≡ none = sym e ∙ absent in absurd (cc)
    ]
