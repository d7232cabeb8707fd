-- ===== src/Paging/Queue/Fifo.antt =====
-- The queue of vm.c refines a list of pages, oldest first, of at most 32 entries.
use osassignment.Prelude.{
  ℕ, suc, ◌+◌, ◌<◌, ◌≡◌, refl, ap, ◌∙◌, Bool, true, false, ◌||◌, List, [], ◌∷◌, ◌++◌, append_assoc,
  arith, ◌==◌, truth, if◌then◌else◌, set, length, length-append, ok, panic, All, All-append,
  Bool-cases, inl, inr,
}
use osassignment.Prelude.Int.{pos}
use osassignment.Paging.Queue.{
  Page, PageQueue, clear_page, enqueue, enqueue_at, shift, dequeue, free_scan, free_from_queue,
}

abbrev pub IsLive : Page → Type 0
IsLive p = truth p.exists ≡ true

abbrev pub IsBlank : Page → Type 0
IsBlank p = truth p.exists ≡ false

-- The queue holds `xs`: they fill the array from its start, and the other entries are unused.
pub record Holds (q : PageQueue) (xs : List Page) : Type 0 where
  pub rest : List Page
  pub pages_eq : q.pages ≡ xs ++ rest
  pub last_eq : q.last_index ≡ pos (length xs)
  pub size : length xs + length rest ≡ 32
  pub live : All IsLive xs
  pub blank : All IsBlank rest

set-append :
    (xs rs : List Page) (r p : Page) → set (xs ++ r ∷ rs) (length xs) p ≡ (xs ++ p ∷ []) ++ rs
set-append [] rs r p = refl
set-append (x ∷ xs) rs r p = ap (λ l. x ∷ l) (set-append xs rs r p)

-- what the shift leaves at the end of the array
last : Page → List Page → Page
last p [] = p
last p (q ∷ ps) = last q ps

shift-cons : (p : Page) (ps : List Page) → shift (p ∷ ps) ≡ ps ++ clear_page (last p ps) ∷ []
unfolding shift last
shift-cons p [] = refl
shift-cons p (q ∷ ps) = ap (λ l. q ∷ l) (shift-cons q ps)

-- `enqueue` with at least one unused entry behind `xs`.
enqueue-append :
    {q : PageQueue} (xs : List Page) (p : Page) (rest : List Page)
    → q.pages ≡ xs ++ rest
    → q.last_index ≡ pos (length xs)
    → length xs + length rest ≡ 32
    → length xs < 32
    → All IsLive xs
    → All IsBlank rest
    → IsLive p
    → (q' : PageQueue) × (enqueue q p ≡ ok q') × Holds q' (xs ++ p ∷ [])
unfolding enqueue enqueue_at
enqueue-append xs p [] e l n lt live blank lp = absurd (omega arith)
enqueue-append {q} xs p (r ∷ rs) e l n lt live blank lp = (
  record { pages = set q.pages (length xs) p; last_index = pos (suc (length xs)) },
  ground arith,
  record {
    rest = rs;
    pages_eq = rw e (set-append xs rs r p);
    last_eq = ap pos (omega (arith, length-append xs (p ∷ [])));
    size = omega (arith, length-append xs (p ∷ []));
    live = All-append IsLive xs (p ∷ []) live (lp, tt);
    blank = blank.1;
  },
)

-- `enqueue` appends to a queue that is not full.
pub enqueue-Holds :
    {q : PageQueue} {xs : List Page} (p : Page)
    → Holds q xs
    → IsLive p
    → length xs < 32
    → (q' : PageQueue) × (enqueue q p ≡ ok q') × Holds q' (xs ++ p ∷ [])
enqueue-Holds {xs} p h l lt =
    enqueue-append xs p h.rest h.pages_eq h.last_eq h.size lt h.live h.blank l

-- On a full queue it panics.
pub enqueue_full :
    {q : PageQueue} {xs : List Page} (p : Page) → Holds q xs → length xs ≡ 32 → enqueue q p ≡ panic
unfolding enqueue enqueue_at
enqueue_full p h e = ground arith

-- `dequeue` on a queue that is not empty takes the oldest page.
pub dequeue-Holds :
    {q : PageQueue} {x : Page} {xs : List Page}
    → Holds q (x ∷ xs)
    → ((dequeue q).0 ≡ x) × Holds (dequeue q).1 xs
unfolding dequeue
dequeue-Holds {q} {x} {xs} h =
    let b : Page = clear_page (last (clear_page x) (xs ++ h.rest)) in
    (
      rw h.pages_eq refl,
      record {
        rest = h.rest ++ b ∷ [];
        pages_eq =
            rw h.pages_eq
              (shift-cons (clear_page x) (xs ++ h.rest) ∙ append_assoc xs h.rest (b ∷ []));
        last_eq = rw h.last_eq refl;
        size = omega (arith, h.size, length-append h.rest (b ∷ []));
        live = h.live.1;
        blank = All-append IsBlank h.rest (b ∷ []) h.blank (refl, tt);
      },
    )

-- Whether a page of the list has the address, and the list without the first such page.
unfoldable pub has_addr : ℕ → List Page → Bool
has_addr a [] = false
has_addr a (p ∷ ps) = p.vaddr == a || has_addr a ps

unfoldable pub remove_addr : ℕ → List Page → List Page
remove_addr a [] = []
remove_addr a (p ∷ ps) = if p.vaddr == a then ps else p ∷ remove_addr a ps

free_scan-blank : (a : ℕ) (rest : List Page) → All IsBlank rest → free_scan rest a ≡ (rest, false)
unfolding free_scan
free_scan-blank a [] b = refl
free_scan-blank a (p ∷ ps) b = rw (b.0, free_scan-blank a ps b.1)

free_scan-miss :
    (a : ℕ) (xs rest : List Page)
    → All IsLive xs
    → All IsBlank rest
    → has_addr a xs ≡ false
    → (free_scan (xs ++ rest) a ≡ (xs ++ rest, false)) × (remove_addr a xs ≡ xs)
unfolding free_scan has_addr remove_addr
free_scan-miss a [] rest l b h = (free_scan-blank a rest b, refl)
free_scan-miss a (p ∷ ps) rest l b h = ground (arith, free_scan-miss a ps rest l.1 b)

free_scan-hit :
    (a : ℕ) (xs rest : List Page)
    → All IsLive xs
    → has_addr a xs ≡ true
    → (b : Page) × (free_scan (xs ++ rest) a ≡ (remove_addr a xs ++ (rest ++ b ∷ []), true))
      × IsBlank b
      × (suc (length (remove_addr a xs)) ≡ length xs)
      × All IsLive (remove_addr a xs)
unfolding free_scan has_addr remove_addr
free_scan-hit a [] rest l h = absurd (cc)
free_scan-hit a (p ∷ ps) rest l h = elim (Bool-cases (p.vaddr == a)) [
  | inl e ↦
      let b : Page = clear_page (last p (ps ++ rest)) in
      (
        b,
        rw (l.0, e, shift-cons p (ps ++ rest), append_assoc ps rest (b ∷ [])),
        refl,
        rw e,
        rw e l.1,
      )
  | inr ne ↦
      let (b, eq, blank, len, live) = free_scan-hit a ps rest l.1 (rw ne at h) in
      (b, rw (l.0, ne, eq), blank, rw (ne, len), rw ne (l.0, live))
]

-- `free_from_queue` removes the first page with the address, and changes nothing if there is none.
pub free_from_queue-Holds :
    {q : PageQueue} {xs : List Page} (a : ℕ)
    → Holds q xs
    → Holds (free_from_queue q a) (remove_addr a xs)
unfolding free_from_queue
free_from_queue-Holds {q} {xs} a h = elim (Bool-cases (has_addr a xs)) [
  | inl hit ↦
      let (b, eq, blank, len, live) = free_scan-hit a xs h.rest h.live hit in
      record {
        rest = h.rest ++ b ∷ [];
        pages_eq = rw (h.pages_eq, eq);
        last_eq = rw (h.pages_eq, eq, h.last_eq, ← len);
        size = omega (arith, h.size, length-append h.rest (b ∷ []));
        live = live;
        blank = All-append IsBlank h.rest (b ∷ []) h.blank (blank, tt);
      }
  | inr miss ↦
      let (eq, same) = free_scan-miss a xs h.rest h.live h.blank miss in
      rw same (record {
        rest = h.rest;
        pages_eq = rw (h.pages_eq, eq);
        last_eq = rw (h.pages_eq, eq, h.last_eq);
        size = h.size;
        live = h.live;
        blank = h.blank;
      })
]
