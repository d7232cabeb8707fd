-- ===== src/Fs/Inode/Map.antt =====
-- `bmap` finds the block of a place, or takes a new one.
use osassignment.Prelude.{
  ℕ, zero, suc, ◌+◌, ◌-◌, ◌*◌, ◌≤◌, ◌<◌, ◌≡◌, ◌≢◌, refl, sym, ◌∙◌, inl, inr, true, false, leb, ◌==◌,
  if◌then◌else◌, Bool-cases, arith,
}
use osassignment.Fs.{SuperBlock, Disk, bblock}
use osassignment.Fs.Blocks.Bitmap.{used}
use osassignment.Fs.Blocks.Layout.{IsLaidOut, count_free, Taken, free_blocks-Taken, bblock-lt}
use osassignment.Fs.Inode.{FileState, word, put_word, set_addr, ndirect, nindirect}
use osassignment.Fs.Inode.Words.{word-put_word_self, word-put_word_ne, put_word_block}
use osassignment.Fs.Inode.Slots.{places, slot, IsTaken, IsFile, IsGrown}

module _ (sb : SuperBlock) (l : IsLaidOut sb) where
  module _ (s : FileState) (f : IsFile sb s) where
    -- The entries of the indirect block read the same on another disk that keeps that block.
    pub entry_kept :
        (d : Disk) (k : ℕ)
        → ((j : ℕ)
            → s.ip.addrs ndirect ≢ 0
            → d (s.ip.addrs ndirect) j ≡ s.disk (s.ip.addrs ndirect) j)
        → (if s.ip.addrs ndirect == 0 then 0 else word d (s.ip.addrs ndirect) (k - 13))
          ≡ (if s.ip.addrs ndirect == 0 then 0 else word s.disk (s.ip.addrs ndirect) (k - 13))
    entry_kept d k h = elim (Bool-cases (s.ip.addrs ndirect == 0)) [
      | inl no_table ↦ rw no_table refl
      | inr table ↦
          let ne : s.ip.addrs ndirect ≢ 0 = ground (arith, table) in
          rw table (
            omega (
              arith,
              h (4 * (k - 13)) ne,
              h (4 * (k - 13) + 1) ne,
              h (4 * (k - 13) + 2) ne,
              h (4 * (k - 13) + 3) ne,
            ))
    ]

    module _ (a : ℕ) (d : Disk) (t : Taken sb s.disk a d) where
      ne_new : (c : ℕ) → IsTaken sb s.disk c → c ≢ a
      ne_new c h e =
          let u : used sb s.disk a ≡ 1 = rw (← e) h.in_use in absurd (omega (arith, u, t.free))

      table_kept :
          (j : ℕ)
          → s.ip.addrs ndirect ≢ 0
          → d (s.ip.addrs ndirect) j ≡ s.disk (s.ip.addrs ndirect) j
      table_kept j ne =
          let h = f.taken ndirect (omega arith) ne in
          t.others (s.ip.addrs ndirect) j h.in_data (ne_new (s.ip.addrs ndirect) h)

      -- A new block in `addrs`; a new indirect block has no entries.
      addr_slot :
          (k j : ℕ)
          → k ≤ ndirect
          → s.ip.addrs k ≡ 0
          → j < places
          → slot (record { disk = d; ip = set_addr s.ip k a }) j ≡ (if j == k then a else slot s j)
      addr_slot k j h z lt = elim (Bool-cases (leb j ndirect)) [
        | inl low ↦ elim (Bool-cases (j == k)) [
          | inl e ↦ rw (low, e) refl
          | inr e ↦ rw (low, e) refl
        ]
        | inr high ↦
            let other : j == k ≡ false = ground (arith, high, h) in
            elim (Bool-cases (ndirect == k)) [
              | inl new_table ↦
                  let e : k ≡ ndirect = ground (arith, new_table) in
                  let old : s.ip.addrs ndirect == 0 ≡ true = rw (← e) (ground (arith, z)) in
                  let some_block : a == 0 ≡ false = ground (arith, l.boot, t.in_data) in
                  rw (high, new_table, other, old, some_block)
                    (omega (
                      arith,
                      t.zeroed (4 * (j - 13)) (omega (arith, lt)),
                      t.zeroed (4 * (j - 13) + 1) (omega (arith, lt)),
                      t.zeroed (4 * (j - 13) + 2) (omega (arith, lt)),
                      t.zeroed (4 * (j - 13) + 3) (omega (arith, lt)),
                    ))
              | inr same_table ↦ rw (high, same_table, other) (entry_kept d j table_kept)
            ]
      ]

      pub addr-IsGrown :
          (k : ℕ)
          → k ≤ ndirect
          → s.ip.addrs k ≡ 0
          → IsGrown sb s k a (record { disk = d; ip = set_addr s.ip k a })
      addr-IsGrown k h z = record {
        empty = (let low : leb k ndirect ≡ true = ground (arith, h) in rw low z);
        fresh = t.free;
        in_data = t.in_data;
        in_range = t.in_range;
        used_eq = t.used_eq;
        slot_eq = λ j lt. addr_slot k j h z lt;
        zeroed = t.zeroed;
        kept = λ c j hd ne table. t.others c j hd ne;
        ip_eq = refl;
        free_eq = free_blocks-Taken sb s.disk d a t;
      }

      -- A new entry of the indirect block.
      module _ (j : ℕ) (lt : j < nindirect) (table : s.ip.addrs ndirect ≢ 0) where
        abbrev x : ℕ
        x = s.ip.addrs ndirect

        abbrev with_entry : Disk
        with_entry = put_word d x j a

        x-IsTaken : IsTaken sb s.disk x
        x-IsTaken = f.taken ndirect (omega arith) table

        used-with_entry : (v : ℕ) → v < sb.size → used sb with_entry v ≡ used sb d v
        unfolding used
        used-with_entry v h =
            let apart : bblock sb v == x ≡ false =
              (let b = bblock-lt sb v l h in
                let y = x-IsTaken.in_data in
                let lt : bblock sb v < x = omega (arith, b, y) in ground (arith, lt)) in
            rw apart refl

        count_free-with_entry :
            (n : ℕ) → n ≤ sb.size → count_free n sb with_entry ≡ count_free n sb d
        count_free-with_entry zero h = refl
        count_free-with_entry (suc n) h = omega (
          arith,
          used-with_entry n (omega (arith, h)),
          count_free-with_entry n (omega (arith, h)),
        )

        entry_slot :
            (k : ℕ)
            → k < places
            → slot (record s { disk = with_entry }) k ≡ (if k == 13 + j then a else slot s k)
        entry_slot k h =
            let is_table : x == 0 ≡ false = ground (arith, table) in
            elim (Bool-cases (leb k ndirect)) [
              | inl low ↦
                  let other : k == 13 + j ≡ false = ground (arith, low) in rw (low, other) refl
              | inr high ↦
                  let past : 13 ≤ k = ground (arith, high) in
                  elim (Bool-cases (k == 13 + j)) [
                    | inl same ↦
                        let e : k - 13 ≡ j = ground (arith, same) in
                        rw (high, is_table, same, e)
                          (word-put_word_self d x j a (omega (arith, t.in_range, l.in_word)))
                    | inr other ↦
                        let ne : k - 13 ≢ j = ground (arith, other, past) in
                        rw (high, is_table, other)
                          (word-put_word_ne d x j a (k - 13) ne ∙ entry_word k)
                  ]
            ]
          where
            entry_word : (k : ℕ) → word d x (k - 13) ≡ word s.disk x (k - 13)
            entry_word k = omega (
              arith,
              table_kept (4 * (k - 13)) table,
              table_kept (4 * (k - 13) + 1) table,
              table_kept (4 * (k - 13) + 2) table,
              table_kept (4 * (k - 13) + 3) table,
            )

        pub entry-IsGrown :
            word s.disk x j ≡ 0 → IsGrown sb s (13 + j) a (record s { disk = with_entry })
        entry-IsGrown z = record {
          empty =
              (let high : leb (13 + j) ndirect ≡ false = ground arith in
                let is_table : x == 0 ≡ false = ground (arith, table) in
                let e : 13 + j - 13 ≡ j = omega arith in rw (high, is_table, e) z);
          fresh = t.free;
          in_data = t.in_data;
          in_range = t.in_range;
          used_eq = λ v h. used-with_entry v h ∙ t.used_eq v h;
          slot_eq = entry_slot;
          zeroed =
              λ i h. put_word_block d x j a a i (λ e. ne_new x x-IsTaken (sym e)) ∙ t.zeroed i h;
          kept = λ c i hd ne no. put_word_block d x j a c i no ∙ t.others c i hd ne;
          ip_eq = refl;
          free_eq =
              (let e = count_free-with_entry sb.size (omega arith) in
                omega (arith, e, free_blocks-Taken sb s.disk d a t));
        }
