-- ===== src/Paging/Select/Least.antt =====
-- NFUA and LAPA: which page they choose.
use osassignment.Prelude.{
  ℕ, zero, suc, ◌+◌, ◌/◌, ◌≤◌, ◌<◌, ◌≡◌, ap, ◌∙◌, Bool, true, false, not, ◌&&◌, List, [], ◌∷◌, ltb,
  ◌==◌, if◌then◌else◌, count_if, flag, All, Bool-cases, inl, inr, arith,
}
use osassignment.Prelude.Bits.{bit_or-pow}
use osassignment.Paging.Queue.{Page, holds_addr}
use osassignment.Paging.Select.{
  is_candidate, nfua_from, nfua_first, count_bits, count_set_bits, lapa_round, lapa_from,
  lapa_first,
}

-- `r` is a page of `ps` that may be paged out, and no other such page has a smaller age.
pub record IsLeast (age : Page → ℕ) (ps : List Page) (r : Page) : Type 0 where
  pub candidate : is_candidate r ≡ true
  pub member : (u : Page → Bool) → flag (u r) ≤ count_if u ps
  pub least : All (λ p. is_candidate p ≡ true → age r ≤ age p) ps

record Better (age : Page → ℕ) (m : Page) (ps : List Page) (r : Page) : Type 0 where
  candidate : is_candidate r ≡ true
  below : age r ≤ age m
  member : (u : Page → Bool) → flag (u r) ≤ flag (u m) + count_if u ps
  least : All (λ p. is_candidate p ≡ true → age r ≤ age p) ps

nfua_from-Better :
    (m : Page) (ps : List Page) → is_candidate m ≡ true → Better (λ p. p.age) m ps (nfua_from m ps)
unfolding nfua_from
nfua_from-Better m [] c = record {
  candidate = c;
  below = omega arith;
  member = λ u. omega arith;
  least = tt;
}
nfua_from-Better m (p ∷ ps) c = elim (Bool-cases (is_candidate p && ltb p.age m.age)) [
  | inl take ↦
      let h : Better (λ p. p.age) p ps (nfua_from p ps) = nfua_from-Better p ps (ground arith) in
      rw (take, nfua_from)
        (record {
          candidate = h.candidate;
          below = ground (arith, h.below);
          member = λ u. omega (arith, h.member u);
          least = ((λ _. h.below), h.least);
        })
  | inr keep ↦
      let h : Better (λ p. p.age) m ps (nfua_from m ps) = nfua_from-Better m ps c in
      rw (keep, nfua_from)
        (record {
          candidate = h.candidate;
          below = h.below;
          member = λ u. omega (arith, h.member u);
          least = ((λ e. ground (arith, h.below)), h.least);
        })
]

nfua_first-here :
    (p : Page) (ps : List Page) → is_candidate p ≡ true → nfua_first (p ∷ ps) ≡ nfua_from p (p ∷ ps)
unfolding nfua_first
nfua_first-here p ps e = ap (λ c. if c then nfua_from p (p ∷ ps) else nfua_first ps) e

nfua_first-there :
    (p : Page) (ps : List Page) → is_candidate p ≡ false → nfua_first (p ∷ ps) ≡ nfua_first ps
unfolding nfua_first
nfua_first-there p ps e = ap (λ c. if c then nfua_from p (p ∷ ps) else nfua_first ps) e

-- With a page that may be paged out, NFUA chooses one with the least age.
pub nfua_first-IsLeast :
    (ps : List Page) → 0 < count_if is_candidate ps → IsLeast (λ p. p.age) ps (nfua_first ps)
nfua_first-IsLeast [] h = absurd (omega arith)
nfua_first-IsLeast (p ∷ ps) h = elim (Bool-cases (is_candidate p)) [
  | inl yes_p ↦
      let b : Better (λ p. p.age) p (p ∷ ps) (nfua_from p (p ∷ ps)) =
        nfua_from-Better p (p ∷ ps) yes_p in
      rw (nfua_first-here p ps yes_p) (record {
        candidate = b.candidate;
        member = λ u. ground (arith, b.member u);
        least = b.least;
      })
  | inr no_p ↦
      let i : IsLeast (λ p. p.age) ps (nfua_first ps) = nfua_first-IsLeast ps (ground (arith, h)) in
      rw (nfua_first-there p ps no_p) (record {
        candidate = i.candidate;
        member = λ u. omega (arith, i.member u);
        least = ((λ e. absurd (cc)), i.least);
      })
]

count_bits-rounds : (n number counter : ℕ) → count_bits n number counter ≡ counter + n
unfolding count_bits
count_bits-rounds zero number counter = omega arith
count_bits-rounds (suc n) number counter =
    ground (arith, bit_or-pow 0 number, count_bits-rounds n (number / 2) (counter + 1))

-- `number | 1` is never 0, so every round counts: the result is 32 for every number.
pub count_set_bits-const : (number : ℕ) → count_set_bits number ≡ 32
unfolding count_set_bits
count_set_bits-const number = count_bits-rounds 32 number 0

-- So a round of LAPA goes by `age2` alone, on a page at another address.
lapa_round-eq :
    (m p : Page)
    → lapa_round (32, m) p
      ≡ (32, (if is_candidate p && (not (p.vaddr == m.vaddr) && ltb p.age2 m.age2) then p else m))
unfolding lapa_round
lapa_round-eq m p = rw (count_set_bits-const p.age2) (ground arith)

lapa_from-Better :
    (m : Page) (ps : List Page)
    → is_candidate m ≡ true
    → ((b : ℕ) → flag (holds_addr b m) + count_if (holds_addr b) ps ≤ 1)
    → Better (λ p. p.age2) m ps (lapa_from (32, m) ps)
unfolding lapa_from
lapa_from-Better m [] c d = record {
  candidate = c;
  below = omega arith;
  member = λ u. omega arith;
  least = tt;
}
lapa_from-Better m (p ∷ ps) c d =
    elim (Bool-cases (is_candidate p && (not (p.vaddr == m.vaddr) && ltb p.age2 m.age2))) [
      | inl take ↦
          let h : Better (λ p. p.age2) p ps (lapa_from (32, p) ps) =
            lapa_from-Better p ps (ground arith) (λ b. omega (arith, d b)) in
          rw (lapa_round-eq m p, take)
            (record {
              candidate = h.candidate;
              below = ground (arith, h.below);
              member = λ u. omega (arith, h.member u);
              least = ((λ _. h.below), h.least);
            })
      | inr keep ↦
          let h : Better (λ p. p.age2) m ps (lapa_from (32, m) ps) =
            lapa_from-Better m ps c (λ b. omega (arith, d b)) in
          rw (lapa_round-eq m p, keep)
            (record {
              candidate = h.candidate;
              below = h.below;
              member = λ u. omega (arith, h.member u);
              least = ((λ e. ground (arith, h.below, d m.vaddr)), h.least);
            })
    ]

lapa_round_self : (p : Page) → lapa_round (32, p) p ≡ (32, p)
lapa_round_self p = lapa_round-eq p p ∙ ground arith

lapa_first-here :
    (p : Page) (ps : List Page) → is_candidate p ≡ true → lapa_first (p ∷ ps) ≡ lapa_from (32, p) ps
unfolding lapa_first
lapa_first-here p ps e =
    ap (λ c. if c then lapa_from (count_set_bits p.age2, p) (p ∷ ps) else lapa_first ps) e
    ∙ (ap (λ n. lapa_from (n, p) (p ∷ ps)) (count_set_bits-const p.age2)
        ∙ ap (λ r. lapa_from r ps) (lapa_round_self p))

lapa_first-there :
    (p : Page) (ps : List Page) → is_candidate p ≡ false → lapa_first (p ∷ ps) ≡ lapa_first ps
unfolding lapa_first
lapa_first-there p ps e =
    ap (λ c. if c then lapa_from (count_set_bits p.age2, p) (p ∷ ps) else lapa_first ps) e

-- With at most one page at each address and a page that may be paged out, LAPA chooses such a page with
-- the least `age2` as a number.
pub lapa_first-IsLeast :
    (ps : List Page)
    → ((b : ℕ) → count_if (holds_addr b) ps ≤ 1)
    → 0 < count_if is_candidate ps
    → IsLeast (λ p. p.age2) ps (lapa_first ps)
lapa_first-IsLeast [] d h = absurd (omega arith)
lapa_first-IsLeast (p ∷ ps) d h = elim (Bool-cases (is_candidate p)) [
  | inl yes_p ↦
      let b : Better (λ p. p.age2) p ps (lapa_from (32, p) ps) = lapa_from-Better p ps yes_p d in
      rw (lapa_first-here p ps yes_p)
        (record { candidate = b.candidate; member = b.member; least = ((λ _. b.below), b.least) })
  | inr no_p ↦
      let i : IsLeast (λ p. p.age2) ps (lapa_first ps) =
        lapa_first-IsLeast ps (λ b. omega (arith, d b)) (ground (arith, h)) in
      rw (lapa_first-there p ps no_p) (record {
        candidate = i.candidate;
        member = λ u. omega (arith, i.member u);
        least = ((λ e. absurd (cc)), i.least);
      })
]
