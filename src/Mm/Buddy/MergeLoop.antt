-- ===== src/Mm/Buddy/MergeLoop.antt =====
-- `merge_page` of src/mm/buddy.c: its recursion ends, no assertion of it fails, and it leaves a free
-- block in hand.
use native.Mathlib.Decide.{dec_lt, ℕ_discrete}
use native.Mathlib.Nat.{two-pow-succ}
use lkc.Base.{
  ℕ, zero, suc, ◌+◌, ◌*◌, ◌/◌, ◌%◌, ◌^◌, ◌≤◌, ◌<◌, ◌≡◌, refl, ap, ◌∙◌, ◌⊎◌, inl, inr, Bool-cases,
  none, some, true, false, arith, ◌==◌, ◌&&◌,
}
use lkc.Mm.Buddy.{PhysMemPool, buddy_max_order, get_buddy, merge_page}
use lkc.Mm.Buddy.Layout.{FreeBlock}
use lkc.Mm.Buddy.Merging.{merge_owner}
use lkc.Mm.Buddy.Mate.{get_buddy_low, get_buddy_high}
use lkc.Mm.Buddy.Pairing.{buddy_first}
use lkc.Mm.Buddy.Counting.{free_pages}
use lkc.Mm.Buddy.Invariant.{Inv, Frame, Frame-refl, Frame-trans}
use lkc.Mm.Buddy.MergeStep.{
  Pair, merge_pool, merge_once_lem, merge_pool-Inv, merge_pool-Frame, merge_pool-free_pages,
}

-- What `get_buddy` tells `merge_page` of the page `p` of order `o` in hand.
data Found (n : ℕ) (pool : PhysMemPool) (owner : ℕ → ℕ) (p o : ℕ) : Type 0 where
  alone : get_buddy pool p ≡ some none → Found n pool owner p o
  busy :
      (buddy : ℕ)
      → get_buddy pool p ≡ some (some buddy)
      → ((pool.page_metadata buddy).allocated == 0 && (pool.page_metadata buddy).order == o) ≡ false
      → Found n pool owner p o
  mate :
      (buddy low : ℕ)
      → get_buddy pool p ≡ some (some buddy)
      → ((pool.page_metadata buddy).allocated == 0 && (pool.page_metadata buddy).order == o) ≡ true
      → Pair n pool owner p o low buddy
      → Found n pool owner p o

module _ {n : ℕ} {pool : PhysMemPool} {owner : ℕ → ℕ} {p o : ℕ} (v : Inv n pool owner p)
    (b : FreeBlock n pool.page_metadata owner p o) (room : o < buddy_max_order) where
  -- The page at either side of a pair, with a buddy in the pool.
  Found-at :
      (buddy low q : ℕ)
      → low ≡ q * 2 * 2 ^ o
      → ((p ≡ low) × (buddy ≡ low + 2 ^ o)) ⊎ ((buddy ≡ low) × (p ≡ low + 2 ^ o))
      → buddy < n
      → get_buddy pool p ≡ some (some buddy)
      → Found n pool owner p o
  Found-at buddy low q even sides h e =
      elim (Bool-cases
        ((pool.page_metadata buddy).allocated == 0 && (pool.page_metadata buddy).order == o)) [
          | inr f ↦ busy buddy e f
          | inl t ↦
              let c : FreeBlock n pool.page_metadata owner buddy o =
                ground (arith, h, buddy_first v.layout p buddy low o q b even sides h) in
              mate buddy low e t (record {
                even = (q, even);
                sides = sides;
                lower = ground (arith, sides, b, c);
                upper = ground (arith, sides, b, c);
              })
        ]

  Found-even : (q : ℕ) → p ≡ q * 2 * 2 ^ o → Found n pool owner p o
  Found-even q e =
      let g = get_buddy_low pool n p o q v.size b.order room e in
      elim (dec_lt (p + 2 ^ o) n) [
        | yes lt ↦ Found-at (p + 2 ^ o) p q e (inl (refl, refl)) lt (ground (arith, g))
        | no ge ↦ alone (ground (arith, g))
      ]

  Found-odd : (q : ℕ) → p ≡ (q * 2 + 1) * 2 ^ o → Found n pool owner p o
  Found-odd q e =
      let low = q * 2 * 2 ^ o in
      let g = get_buddy_high pool n p o q v.size b.order room e in
      let side : p ≡ low + 2 ^ o = omega arith in
      let lt : low < n = omega (arith, b.in_pool) in
      Found-at low low q refl (inr (refl, side)) lt (ground (arith, g))

  found : Found n pool owner p o
  found =
      let (q, e) = v.layout.aligned p b.in_pool in
      let e' : p ≡ q * 2 ^ o = ground (arith, b.first, b.order) in
      elim (ℕ_discrete (q % 2) 0) [
        | yes z ↦ Found-even (q / 2) (e' ∙ ap (λ (t : ℕ). t * 2 ^ o) (omega arith))
        | no z ↦ Found-odd (q / 2) (e' ∙ ap (λ (t : ℕ). t * 2 ^ o) (omega arith))
      ]

-- What `merge_page` makes of a pool with a page of order `o` in hand.
pub record Merge (n o : ℕ) (pool : PhysMemPool) (owner : ℕ → ℕ) (pool' : PhysMemPool) (page : ℕ)
    : Type 0 where
  pub owner' : ℕ → ℕ
  pub order : ℕ
  pub valid : Inv n pool' owner' page
  pub block : FreeBlock n pool'.page_metadata owner' page order
  pub frame : Frame n pool owner pool' owner'
  pub balance : free_pages pool' + 2 ^ order ≡ free_pages pool + 2 ^ o

pub Merge-done :
    {n p o : ℕ} {pool : PhysMemPool} {owner : ℕ → ℕ}
    → Inv n pool owner p
    → FreeBlock n pool.page_metadata owner p o
    → Merge n o pool owner pool p
Merge-done {o} {owner} v b = record {
  owner' = owner;
  order = o;
  valid = v;
  block = b;
  frame = Frame-refl;
  balance = refl;
}

Merge-round :
    {n p o low buddy page : ℕ} {pool pool' : PhysMemPool} {owner : ℕ → ℕ} (v : Inv n pool owner p)
    (room : o < buddy_max_order) (r : Pair n pool owner p o low buddy)
    → Merge n
        (suc o)
        (merge_pool pool owner low o buddy)
        (merge_owner pool.page_metadata owner low o)
        pool'
        page
    → Merge n o pool owner pool' page
Merge-round {o} v room r m = record {
  owner' = m.owner';
  order = m.order;
  valid = m.valid;
  block = m.block;
  frame = Frame-trans (merge_pool-Frame v room r) m.frame;
  balance = omega (arith, m.balance, merge_pool-free_pages v room r, two-pow-succ o);
}

-- With at most `fuel` orders left up to the largest one, the recursion ends in time.
pub merge_page_lem :
    (fuel p o : ℕ) {n : ℕ} {pool : PhysMemPool} {owner : ℕ → ℕ}
    → Inv n pool owner p
    → FreeBlock n pool.page_metadata owner p o
    → o ≤ buddy_max_order
    → buddy_max_order ≤ o + fuel
    → (pool' : PhysMemPool) × (page : ℕ) × (merge_page fuel pool p ≡ some (pool', page))
      × Merge n o pool owner pool' page
unfolding merge_page
merge_page_lem zero p o {pool} v b h k = (pool, p, ground (arith, b.order), Merge-done v b)
merge_page_lem (suc fuel) p o {pool} v b h k = elim (dec_lt o buddy_max_order) [
  | no ge ↦ (pool, p, ground (arith, b.order), Merge-done v b)
  | yes room ↦ elim (found v b room) [
    | alone e ↦ (pool, p, ground (arith, b.order, e), Merge-done v b)
    | busy buddy e f ↦ (pool, p, ground (arith, b.order, e, f), Merge-done v b)
    | mate buddy low e t r ↦
        let (w, c) = merge_pool-Inv v room r in
        let (pool', page, eq, m) = merge_page_lem fuel low (suc o) w c room (omega arith) in
        (
          pool',
          page,
          ground (arith, b.order, e, t, merge_once_lem v room r, eq),
          Merge-round v room r m,
        )
  ]
]
