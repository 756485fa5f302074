-- ===== src/Mm/Buddy/Pages.antt =====
-- `buddy_get_pages` and `buddy_free_pages` of src/mm/buddy.c against the set of pages handed out.
use native.Mathlib.Decide.{dec_lt, ℕ_discrete}
use native.Mathlib.Nat.{one-le-pow}
use lkc.Base.{
  ℕ, zero, suc, ◌+◌, ◌-◌, ◌*◌, ◌^◌, ◌≤◌, ◌<◌, ◌≡◌, refl, sym, ◌∙◌, ◌≢◌, ◌⊎◌, inl, inr, true, List,
  [], ◌∷◌, none, some, arith, ltb, if◌then◌else◌, elem,
}
use lkc.Base.Panic.{◌>>=◌}
use lkc.Mm.Buddy.{
  PhysMemPool, buddy_max_order, unlink_page, set_allocated, first_free, merge_page, buddy_get_pages,
  buddy_free_pages, push_page,
}
use lkc.Mm.Buddy.Layout.{Layout, FreeBlock, Handed}
use lkc.Mm.Buddy.Counting.{free_pages, free_pages-inc, free_pages-dec, free_pages_of_num}
use lkc.Mm.Buddy.Invariant.{Inv, taken, num_pos, unlink_page-Inv, push_page-Inv}
use lkc.Mm.Buddy.Marking.{in_block, handed_out-Inv, handed_back-Inv, taken-set_allocated}
use lkc.Mm.Buddy.SplitLoop.{Split, Split-done, split_page_lem}
use lkc.Mm.Buddy.MergeLoop.{Merge, Merge-done, merge_page_lem}

-- No list of order `i` up to `i + rounds - 1` holds a page.
abbrev pub NoneFree : PhysMemPool → ℕ → ℕ → Type 0
NoneFree pool rounds i = (o : ℕ) → i ≤ o → o < i + rounds → pool.lists o ≡ []

first_free_lem :
    (pool : PhysMemPool) (rounds i : ℕ)
    → ((first_free pool rounds i ≡ none) × NoneFree pool rounds i)
      ⊎ ((p : ℕ) × (o : ℕ) × (first_free pool rounds i ≡ some p)
          × (i ≤ o)
          × (elem p (pool.lists o) ≡ true))
unfolding first_free
first_free_lem pool zero i = inl (refl, λ o h k. absurd (omega arith))
first_free_lem pool (suc rounds) i = go (pool.lists i) refl (first_free_lem pool rounds (i + 1))
  where
    go :
        (l : List ℕ)
        → pool.lists i ≡ l
        → ((first_free pool rounds (i + 1) ≡ none) × NoneFree pool rounds (i + 1))
          ⊎ ((p : ℕ) × (o : ℕ) × (first_free pool rounds (i + 1) ≡ some p)
              × (i + 1 ≤ o)
              × (elem p (pool.lists o) ≡ true))
        → ((first_free pool (suc rounds) i ≡ none) × NoneFree pool (suc rounds) i)
          ⊎ ((p : ℕ) × (o : ℕ) × (first_free pool (suc rounds) i ≡ some p)
              × (i ≤ o)
              × (elem p (pool.lists o) ≡ true))
    go [] e (inl (f, g)) = inl (
      ground arith,
      λ o h k. elim (ℕ_discrete i o) [
        | yes s ↦ rw (← s) e
        | no ne ↦ g o (omega arith) (omega arith)
      ],
    )
    go [] e (inr (p, o, f, h, m)) = inr (p, o, ground arith, omega arith, m)
    go (p ∷ ps) e r = inr (p, i, ground arith, omega arith, ground arith)

-- A block that is handed out, as a caller of `buddy_get_pages` receives it.
pub record Got (n order : ℕ) (pool : PhysMemPool) (owner : ℕ → ℕ) (pool' : PhysMemPool) (p : ℕ)
    : Type 0 where
  pub owner' : ℕ → ℕ
  pub valid : Inv n pool' owner' n
  pub handed : Handed n pool'.page_metadata owner' p order
  pub fits : p + 2 ^ order ≤ n
  pub aligned : (q : ℕ) × (p ≡ q * 2 ^ order)
  pub was_free : (i : ℕ) → in_block p order i ≡ true → taken pool owner i ≡ 0
  pub kept :
      (q o : ℕ)
      → Handed n pool.page_metadata owner q o
      → Handed n pool'.page_metadata owner' q o × (q ≢ p)
  pub balance : free_pages pool' + 2 ^ order ≡ free_pages pool
  pub view :
      (i : ℕ)
      → i < n
      → taken pool' owner' i ≡ (if in_block p order i then 1 else taken pool owner i)

-- The last steps of `buddy_get_pages`, with the block in hand.
Got-of_hand :
    {n order p o : ℕ} {pool cut : PhysMemPool} {owner : ℕ → ℕ}
    → Inv n pool owner n
    → FreeBlock n pool.page_metadata owner p o
    → Split n order p o (unlink_page pool p) owner cut
    → Got n order pool owner (set_allocated cut p 1) p
Got-of_hand {n} {order} {p} {o} {pool} {cut} {owner} w c s = record {
  owner' = s.owner';
  valid = handed_out-Inv v first;
  handed = ground (arith, b);
  fits = ground (arith, b, one-le-pow order 2, l.block p (p + 2 ^ order - 1));
  aligned = let (q, e) = l.aligned p b.in_pool in (q, ground (arith, b.first, b.order));
  was_free = λ i h. ground (arith, b, l.block p i, s.frame.same i);
  kept = λ q i f. ground (arith, s.frame.kept q i f, b.free);
  balance = omega (arith, balance_cut, s.balance, removed);
  view = λ i h.
      ground
        (arith, s.frame.same i h, taken-set_allocated cut p 1 order i l b.in_pool first b.order h);
}
  where
    v : Inv n cut s.owner' p
    v = s.valid

    b : FreeBlock n cut.page_metadata s.owner' p order
    b = s.block

    l : Layout n cut.page_metadata s.owner'
    l = v.layout

    first : s.owner' p ≡ p
    first = b.first

    balance_cut : free_pages (set_allocated cut p 1) ≡ free_pages cut
    balance_cut = free_pages_of_num cut (set_allocated cut p 1) refl

    removed : free_pages (unlink_page pool p) + 2 ^ o ≡ free_pages pool
    removed =
        free_pages-dec pool (unlink_page pool p) o (ground (arith, c, w.layout.small p))
          (num_pos w p o c (ground (arith, c.in_pool))) (rw c.order refl)

module _ {n : ℕ} {pool : PhysMemPool} {owner : ℕ → ℕ} (order : ℕ) (v : Inv n pool owner n)
    (small : order ≤ buddy_max_order) where
  -- A listed page is split as far as needed, marked and returned.
  get_listed :
      (p o : ℕ)
      → order ≤ o
      → FreeBlock n pool.page_metadata owner p o
      → first_free pool (buddy_max_order + 1 - order) order ≡ some p
      → (pool' : PhysMemPool) × (buddy_get_pages pool order ≡ some (pool', some p))
        × Got n order pool owner pool' p
  unfolding buddy_get_pages
  get_listed p o h b e = elim (dec_lt order o) [
    | yes lt ↦
        let (cut, f, s) = split_page_lem order p o (unlink_page-Inv p o v b) b lt in
        (
          set_allocated cut p 1,
          ground (arith, small, e, b.order, f, s.block.order),
          Got-of_hand v b s,
        )
    | no ge ↦
        let e' : o ≡ order = omega arith in
        (
          set_allocated (unlink_page pool p) p 1,
          ground (arith, small, e, b.order),
          Got-of_hand v b (Split-done (unlink_page-Inv p o v b) b e'),
        )
  ]

  -- On a pool that satisfies the invariant, for an order up to the largest, `buddy_get_pages`
  -- returns the null pointer and changes nothing where no list of the order or above holds a page;
  -- otherwise it hands out an aligned block inside the pool whose pages were free, marks exactly
  -- these pages as taken, keeps every other held block and the invariant.
  pub buddy_get_pages_lem :
      ((buddy_get_pages pool order ≡ some (pool, none))
        × ((o : ℕ) → order ≤ o → o ≤ buddy_max_order → pool.lists o ≡ []))
      ⊎ ((pool' : PhysMemPool) × (p : ℕ) × (buddy_get_pages pool order ≡ some (pool', some p))
          × Got n order pool owner pool' p)
  unfolding buddy_get_pages
  buddy_get_pages_lem = elim (first_free_lem pool (buddy_max_order + 1 - order) order) [
    | inl (e, f) ↦ inl (ground (arith, small, e), λ o h k. f o h (omega arith))
    | inr (p, o, e, h, m) ↦
        let (pool', f, g) = get_listed p o h (v.listed o p m).0 e in inr (pool', p, f, g)
  ]

-- What `buddy_free_pages` makes of a block that was handed out.
pub record Freed (n order : ℕ) (pool : PhysMemPool) (owner : ℕ → ℕ) (p : ℕ) (pool' : PhysMemPool)
    : Type 0 where
  pub owner' : ℕ → ℕ
  pub valid : Inv n pool' owner' n
  pub kept :
      (q o : ℕ)
      → Handed n pool.page_metadata owner q o
      → q ≢ p
      → Handed n pool'.page_metadata owner' q o
  pub balance : free_pages pool' ≡ free_pages pool + 2 ^ order
  pub view :
      (i : ℕ)
      → i < n
      → taken pool' owner' i ≡ (if in_block p order i then 0 else taken pool owner i)

-- The merging part of `buddy_free_pages`, with the block in hand.
Merge-part :
    {n p o : ℕ} {pool : PhysMemPool} {owner : ℕ → ℕ}
    → Inv n pool owner p
    → FreeBlock n pool.page_metadata owner p o
    → (pool' : PhysMemPool) × (page : ℕ) × ((if ltb (pool.page_metadata p).order buddy_max_order
          then merge_page buddy_max_order pool p
          else some (pool, p))
        ≡ some (pool', page))
      × Merge n o pool owner pool' page
Merge-part {p} {o} {pool} v b = elim (dec_lt o buddy_max_order) [
  | yes lt ↦
      let (pool', page, e, m) =
        merge_page_lem buddy_max_order p o v b (omega arith) (omega arith) in
      (pool', page, ground (arith, b.order, e), m)
  | no ge ↦ (pool, p, ground (arith, b.order), Merge-done v b)
]

Freed-of_hand :
    {n order p page : ℕ} {pool merged : PhysMemPool} {owner : ℕ → ℕ}
    → Inv n pool owner n
    → Handed n pool.page_metadata owner p order
    → Merge n order (set_allocated pool p 0) owner merged page
    → Freed n order pool owner p (push_page merged page (merged.page_metadata page).order)
Freed-of_hand {n} {order} {p} {page} {pool} {merged} v h m = record {
  owner' = m.owner';
  valid =
      let e' : m.order ≡ (merged.page_metadata page).order = sym m.block.order in
      push_page-Inv page (merged.page_metadata page).order m.valid (rw e' at m.block);
  kept = λ q i f ne. m.frame.kept q i (ground (arith, f));
  balance = omega (arith, m.balance, added, same);
  view = λ i k.
      m.frame.same i k ∙ taken-set_allocated pool p 0 order i v.layout h.in_pool h.first h.order k;
}
  where
    o : ℕ
    o = (merged.page_metadata page).order

    same : free_pages (set_allocated pool p 0) ≡ free_pages pool
    same = free_pages_of_num pool (set_allocated pool p 0) refl

    added : free_pages (push_page merged page o) ≡ free_pages merged + 2 ^ m.order
    added =
        free_pages-inc merged (push_page merged page o) o
          (ground (arith, m.block, m.valid.layout.small page)) refl
        ∙ rw (m.block.order) refl

-- On a pool that satisfies the invariant, for a block that is handed out, `buddy_free_pages`
-- returns, makes exactly the pages of the block free, adds their number to the free pages, and
-- keeps every other held block and the invariant.
pub buddy_free_pages_lem :
    {n order : ℕ} {pool : PhysMemPool} {owner : ℕ → ℕ} (p : ℕ)
    → Inv n pool owner n
    → Handed n pool.page_metadata owner p order
    → (pool' : PhysMemPool) × (buddy_free_pages pool p ≡ some pool')
      × Freed n order pool owner p pool'
unfolding buddy_free_pages
buddy_free_pages_lem {n} {order} {pool} {owner} p v h =
    let b : FreeBlock n (set_allocated pool p 0).page_metadata owner p order = ground (arith, h) in
    let (merged, page, f, m) = Merge-part (handed_back-Inv v h.first (omega (arith, h.marked))) b in
    (push_page merged page (merged.page_metadata page).order, rw (f, ◌>>=◌), Freed-of_hand v h m)
