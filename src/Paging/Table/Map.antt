-- ===== src/Paging/Table/Map.antt =====
-- `mappages` maps exactly the pages of its range.
use Prim.Native.Nat.{bit_and, bit_or}
use mathlib.Core.Path.{subst}
use osassignment.Prelude.{
  ℕ, zero, suc, ◌+◌, ◌-◌, ◌*◌, ◌/◌, ◌%◌, ◌^◌, ◌≤◌, ◌<◌, ◌≡◌, ◌≢◌, ◌∙◌, ◌⊎◌, inl, inr, true, none,
  some, ◌==◌, ok, fault, arith, Bool-cases, Option-cases,
}
use osassignment.Kalloc.{Kmem, kalloc, page_size}
use osassignment.Paging.Table.{
  Pgdir, pte, set_pte, pdx, ptx, pte_p, walkpgdir, map_loop, mappages, pg_round_down,
}
use osassignment.Paging.Table.Flags.{pte-set_pte}

-- `walkpgdir` hides no entry: a table that it adds is at an index that had none.
walkpgdir_keeps :
    (d : Pgdir) (k : Kmem) (a b : ℕ) {e : ℕ}
    → pte d b ≡ some e
    → pte (walkpgdir d k a true).1 b ≡ some e
unfolding walkpgdir pte
walkpgdir_keeps d k a b h = ground arith

-- A table that it adds is zeroed.
walkpgdir_fresh :
    (d : Pgdir) (k : Kmem) (a b : ℕ)
    → pte d b ≡ none
    → (pte (walkpgdir d k a true).1 b ≡ none) ⊎ (pte (walkpgdir d k a true).1 b ≡ some 0)
unfolding walkpgdir pte
walkpgdir_fresh d k a b h = elim (Option-cases (d (pdx a))) [
  | inr (t, there) ↦ inl (ground (arith, there, h))
  | inl no_table ↦ elim (Option-cases (kalloc k)) [
    | inl no_page ↦ inl (ground (arith, no_table, no_page, h))
    | inr (page, some_page) ↦ elim (Bool-cases (pdx b == pdx a)) [
      | inl same ↦ inr (ground (arith, no_table, some_page, same))
      | inr other ↦ inl (ground (arith, no_table, some_page, other, h))
    ]
  ]
]

walkpgdir_found :
    (d : Pgdir) (k : Kmem) (a : ℕ)
    → (walkpgdir d k a true).0 ≡ true
    → (e : ℕ) × (pte (walkpgdir d k a true).1 a ≡ some e)
unfolding walkpgdir pte
walkpgdir_found d k a h = elim (Option-cases (d (pdx a))) [
  | inl none_here ↦ (0, ground arith)
  | inr (t, some_here) ↦ (t.entries (ptx a), ground arith)
]

-- A round of the loop that does not stop: the entry it finds is not present.
abbrev next_dir : Pgdir → Kmem → ℕ → ℕ → ℕ → Pgdir
next_dir d k a pa perm = set_pte (walkpgdir d k a true).1 a (bit_or (bit_or pa perm) pte_p)

-- With more fuel than pages the loop never runs out.
map_loop-ne-fault :
    (fuel n : ℕ) (d : Pgdir) (k : Kmem) (a last pa perm : ℕ)
    → n < fuel
    → last ≡ a + 4096 * n
    → last < 2 ^ 32
    → map_loop fuel d k a last pa perm ≢ fault
unfolding map_loop
map_loop-ne-fault zero n d k a last pa perm h e lt = absurd (omega arith)
map_loop-ne-fault (suc fuel) n d k a last pa perm h e lt =
    elim (Bool-cases (walkpgdir d k a true).0) [
      | inl found ↦
          let (w, entry) = walkpgdir_found d k a found in
          ground (
            arith,
            found,
            entry,
            map_loop-ne-fault fuel (n - 1) (next_dir d k a pa perm) (walkpgdir d k a true).2
                ((a + page_size) % 2 ^ 32) last ((pa + page_size) % 2 ^ 32) perm,
          )
      | inr lost ↦ ground (arith, lost)
    ]

-- What a successful run leaves: each page of the range is mapped, and no other entry has changed.
pub record Mapped (d : Pgdir) (a n pa perm : ℕ) (d' : Pgdir) : Type 0 where
  pub inside :
      (i : ℕ)
      → i ≤ n
      → pte d' (a + 4096 * i) ≡ some (bit_or (bit_or ((pa + 4096 * i) % 2 ^ 32) perm) pte_p)
  pub outside :
      (b e : ℕ)
      → b < 2 ^ 32
      → (b / 4096 < a / 4096) ⊎ (a / 4096 + n < b / 4096)
      → pte d b ≡ some e
      → pte d' b ≡ some e
  pub fresh :
      (b : ℕ)
      → b < 2 ^ 32
      → (b / 4096 < a / 4096) ⊎ (a / 4096 + n < b / 4096)
      → pte d b ≡ none
      → (pte d' b ≡ none) ⊎ (pte d' b ≡ some 0)

round_Mapped :
    (d : Pgdir) (k : Kmem) (a pa perm : ℕ) {w : ℕ}
    → pte (walkpgdir d k a true).1 a ≡ some w
    → pa < 2 ^ 32
    → a % 4096 ≡ 0
    → a < 2 ^ 32
    → Mapped d a 0 pa perm (next_dir d k a pa perm)
round_Mapped d k a pa perm {w} entry pl al lt = record {
  inside = λ i le. ground (
    arith,
    pte-set_pte (walkpgdir d k a true).1 a (a + 4096 * i) (bit_or (bit_or pa perm) pte_p) w,
  );
  outside = λ b e lb apart h. ground (
    arith,
    walkpgdir_keeps d k a b h,
    pte-set_pte (walkpgdir d k a true).1 a b (bit_or (bit_or pa perm) pte_p) w,
  );
  fresh = λ b lb apart h.
      let stays : pte (next_dir d k a pa perm) b ≡ pte (walkpgdir d k a true).1 b = ground (
        arith,
        apart,
        lb,
        pte-set_pte (walkpgdir d k a true).1 a b (bit_or (bit_or pa perm) pte_p) w,
      ) in
      elim (walkpgdir_fresh d k a b h) [ inl e ↦ inl (stays ∙ e) | inr e ↦ inr (stays ∙ e) ];
}

Mapped-cons :
    (d d1 d' : Pgdir) (a n m pa perm : ℕ)
    → m ≡ suc n
    → pa < 2 ^ 32
    → a % 4096 ≡ 0
    → a + 4096 * m < 2 ^ 32
    → Mapped d a 0 pa perm d1
    → Mapped d1 ((a + page_size) % 2 ^ 32) n ((pa + page_size) % 2 ^ 32) perm d'
    → Mapped d a m pa perm d'
Mapped-cons d d1 d' a n m pa perm e pl al lt one rest = record {
  inside = λ i le. elim (Bool-cases (i == 0)) [
    | inl first ↦ ground (
      arith,
      one.inside i,
      rest.outside (a + 4096 * i) (bit_or (bit_or ((pa + 4096 * i) % 2 ^ 32) perm) pte_p),
    )
    | inr later ↦ ground (arith, rest.inside (i - 1))
  ];
  outside = λ b v lb apart h. ground (arith, one.outside b v, rest.outside b v);
  fresh = λ b lb apart h.
      let before : (b / 4096 < a / 4096) ⊎ (a / 4096 + 0 < b / 4096) = ground (arith, apart) in
      let after : (b / 4096 < (a + page_size) % 2 ^ 32 / 4096)
          ⊎ ((a + page_size) % 2 ^ 32 / 4096 + n < b / 4096) =
        ground (arith, apart, e, al, lt) in
      elim (one.fresh b lb before h) [
        | inl absent ↦ rest.fresh b lb after absent
        | inr zeroed ↦ inr (rest.outside b 0 lb after zeroed)
      ];
}

map_loop-Mapped :
    (fuel n : ℕ) (d : Pgdir) (k : Kmem) (a last pa perm : ℕ) (d' : Pgdir) (k' : Kmem)
    → a % 4096 ≡ 0
    → last ≡ a + 4096 * n
    → last < 2 ^ 32
    → pa < 2 ^ 32
    → map_loop fuel d k a last pa perm ≡ ok (true, d', k')
    → Mapped d a n pa perm d'
unfolding map_loop
map_loop-Mapped zero n d k a last pa perm d' k' al e lt pl h = absurd (cc)
map_loop-Mapped (suc fuel) n d k a last pa perm d' k' al e lt pl h =
    elim (Bool-cases (walkpgdir d k a true).0) [
      | inl found ↦
          let (w, entry) = walkpgdir_found d k a found in
          let one : Mapped d a 0 pa perm (next_dir d k a pa perm) =
            round_Mapped d k a pa perm entry pl al (omega arith) in
          elim (Bool-cases (a == last)) [
            | inl stop ↦
                let same : next_dir d k a pa perm ≡ d' = ground (arith, found, entry, stop) in
                let once : n ≡ 0 = ground arith in
                rw once (subst (λ (x : Pgdir). Mapped d a 0 pa perm x) same one)
            | inr more ↦
                Mapped-cons d (next_dir d k a pa perm) d' a (n - 1) n pa perm (ground arith) pl al
                  (ground arith) one
                  (map_loop-Mapped fuel (n - 1) (next_dir d k a pa perm) (walkpgdir d k a true).2
                    ((a + page_size) % 2 ^ 32) last ((pa + page_size) % 2 ^ 32) perm d' k'
                    (omega arith) (ground arith) lt (omega arith) (ground (arith, found, entry)))
          ]
      | inr lost ↦ absurd (ground (arith, lost))
    ]

-- If `mappages` of a range that does not wrap round succeeds, then it has mapped every page from the one of
-- `va` to the one of `va + size - 1`, to consecutive physical pages. It has changed no other entry, and
-- every other entry of a table that it has added is 0.
pub mappages-Mapped :
    (n : ℕ) (d : Pgdir) (k : Kmem) (va size pa perm : ℕ) (d' : Pgdir) (k' : Kmem)
    → pg_round_down ((va + size + 2 ^ 32 - 1) % 2 ^ 32) ≡ pg_round_down va + 4096 * n
    → pa < 2 ^ 32
    → mappages d k va size pa perm ≡ ok (true, d', k')
    → Mapped d (pg_round_down va) n pa perm d'
unfolding mappages
mappages-Mapped n d k va size pa perm d' k' e pl h =
    map_loop-Mapped (2 ^ 20) n d k (pg_round_down va) _ pa perm d' k' (omega arith) e (omega arith)
      pl h

-- The fuel is enough for every range that does not wrap round the end of the address space.
pub mappages-ne-fault :
    (n : ℕ) (d : Pgdir) (k : Kmem) (va size pa perm : ℕ)
    → pg_round_down ((va + size + 2 ^ 32 - 1) % 2 ^ 32) ≡ pg_round_down va + 4096 * n
    → mappages d k va size pa perm ≢ fault
unfolding mappages
mappages-ne-fault n d k va size pa perm e =
    map_loop-ne-fault (2 ^ 20) n d k (pg_round_down va) _ pa perm (omega arith) e (omega arith)

map_loop_once :
    (fuel : ℕ) (d : Pgdir) (k : Kmem) (a pa perm e : ℕ)
    → pte d a ≡ some e
    → bit_and e pte_p ≡ 0
    → map_loop (suc fuel) d k a a pa perm
      ≡ ok (true, set_pte d a (bit_or (bit_or pa perm) pte_p), k)
unfolding map_loop walkpgdir pte
map_loop_once fuel d k a pa perm e h clear = ground arith

-- One page whose entry exists and is not present.
pub mappages_page :
    (d : Pgdir) (k : Kmem) (a pa perm e : ℕ)
    → a % 4096 ≡ 0
    → a < 2 ^ 32
    → pte d a ≡ some e
    → bit_and e pte_p ≡ 0
    → mappages d k a 4096 pa perm ≡ ok (true, set_pte d a (bit_or (bit_or pa perm) pte_p), k)
unfolding mappages
mappages_page d k a pa perm e al lt h clear =
    let first : pg_round_down a ≡ a = omega arith in
    let last : pg_round_down ((a + 4096 + 2 ^ 32 - 1) % 2 ^ 32) ≡ a = omega arith in
    rw (first, last) (map_loop_once 1048575 d k a pa perm e h clear)
