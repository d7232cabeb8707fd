-- ===== src/Fs/Cache/Taken.antt =====
-- The reference that `iget` takes is never the last one of a file that `iput` would free.
use osassignment.Prelude.{
  ℕ, ◌+◌, ◌-◌, ◌≡◌, refl, sym, ◌∙◌, ◌⊎◌, inl, inr, true, false, none, some, [], ◌∷◌, ◌==◌, flag, ok,
  ok_injective, panic, Bool-cases, Option-cases, arith,
}
use mathlib.Core.Path.{subst}
use osassignment.Fs.{SuperBlock, Disk}
use osassignment.Fs.Inode.{Inode, iput}
use osassignment.Fs.Inode.Released.{is_last}
use osassignment.Fs.Cache.{Icache, is_cached, get_slot, put_slot, recycle_inode, iget}
use osassignment.Fs.Cache.Refs.{refs, get_slot-cached, put_slot-refs, iget-refs}

get_slot-put_slot :
    (c : Icache) (n : ℕ) (ip ip' : Inode)
    → get_slot c n ≡ some ip
    → is_cached n ip' ≡ true
    → get_slot (put_slot c n ip') n ≡ some ip'
unfolding get_slot put_slot
get_slot-put_slot [] n ip ip' e h = absurd (cc)
get_slot-put_slot (x ∷ c) n ip ip' e h = elim (Bool-cases (is_cached n x)) [
  | inl here ↦ rw (here, h) refl
  | inr other ↦ rw (other, other) (get_slot-put_slot c n ip ip' (ground (arith, other, e)) h)
]

recycle_inode-get_slot :
    (c : Icache) (n : ℕ)
    → get_slot c n ≡ none
    → (recycle_inode c n ≡ panic)
      ⊎ ((c' : Icache) × (recycle_inode c n ≡ ok c')
          × (ip : Inode) × (get_slot c' n ≡ some ip)
          × (ip.valid ≡ 0))
unfolding get_slot recycle_inode
recycle_inode-get_slot [] n h = inl refl
recycle_inode-get_slot (x ∷ c) n h = elim (Bool-cases (x.ref == 0)) [
  | inl free ↦
      let new : Inode = record x { inum = n; ref = 1; valid = 0 } in
      let taken : is_cached n new ≡ true = ground arith in
      inr (new ∷ c, rw free refl, new, rw taken refl, refl)
  | inr busy ↦ elim (Bool-cases (is_cached n x)) [
    | inl here ↦ absurd (ground (arith, here, h))
    | inr other ↦ elim (recycle_inode-get_slot c n (ground (arith, other, h))) [
      | inl e ↦ inl (rw (busy, e) refl)
      | inr (c', e, ip, q, v) ↦ inr (x ∷ c', rw (busy, e) refl, ip, rw other q, v)
    ]
  ]
]

-- What `iget` returns is in its slot, with other references or not loaded.
pub iget-get_slot :
    (c c' : Icache) (n : ℕ)
    → iget c n ≡ ok c'
    → (ip : Inode) × (get_slot c' n ≡ some ip) × (is_last ip ≡ false)
unfolding iget
iget-get_slot c c' n h = elim (Option-cases (get_slot c n)) [
  | inr (ip, e) ↦
      let (i, r) = get_slot-cached c n ip e in
      let ip' : Inode = record ip { ref = ip.ref + 1 } in
      let taken : is_cached n ip' ≡ true = ground (arith, i) in
      let found : iget c n ≡ ok (put_slot c n ip') = rw (iget, e) refl in
      let same : put_slot c n ip' ≡ c' = ok_injective (sym found ∙ h) in
      (
        ip',
        subst (λ (l : Icache). get_slot l n ≡ some ip') same (get_slot-put_slot c n ip ip' e taken),
        ground (arith, r),
      )
  | inl absent ↦
      let new : iget c n ≡ recycle_inode c n = rw (iget, absent) refl in
      elim (recycle_inode-get_slot c n absent) [
        | inl e ↦ (let clash : panic ≡ ok c' = sym e ∙ (sym new ∙ h) in absurd (cc))
        | inr (c1, e, ip, q, v) ↦
            let same : c1 ≡ c' = ok_injective (sym e ∙ (sym new ∙ h)) in
            (ip, subst (λ (l : Icache). get_slot l n ≡ some ip) same q, ground (arith, v))
      ]
]

-- `iput` of what `iget` has just returned gives the reference back and does nothing else.
pub iput-iget :
    (sb : SuperBlock) (d : Disk) (c c' : Icache) (n : ℕ)
    → iget c n ≡ ok c'
    → (ip : Inode) × (ip' : Inode) × (get_slot c' n ≡ some ip)
      × (iput sb (record { disk = d; ip = ip }) ≡ ok (record { disk = d; ip = ip' }))
      × ((m : ℕ) → refs (put_slot c' n ip') m ≡ refs c m)
unfolding iput
iput-iget sb d c c' n h =
    let (ip, e, not_last) = iget-get_slot c c' n h in
    let (i, r) = get_slot-cached c' n ip e in
    (
      ip,
      record ip { ref = ip.ref - 1 },
      e,
      rw not_last refl,
      elim (iget-refs c n) [
        | inl (p, z, all) ↦ (let clash : panic ≡ ok c' = sym p ∙ h in absurd (cc))
        | inr (c1, q, more) ↦ λ m.
            let same : c1 ≡ c' = ok_injective (sym q ∙ h) in
            let one : refs c' m ≡ refs c m + flag (n == m) =
              subst (λ (l : Icache). refs l m ≡ refs c m + flag (n == m)) same (more m) in
            let step = put_slot-refs c' n ip (record ip { ref = ip.ref - 1 }) m e i in
            ground (arith, step, one, i, r)
      ],
    )
