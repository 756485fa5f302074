-- ===== src/Mm/Buddy/Marking.antt =====
-- Marking a block of src/mm/buddy.c as handed out or as free keeps the layout; what it does to the set of
-- pages that are handed out.
use native.Mathlib.Decide.{ℕ_discrete}
use lkc.Base.{ℕ, ◌+◌, ◌^◌, ◌<◌, ◌≡◌, ◌≢◌, Bool, ◌&&◌, arith, leb, ltb, if◌then◌else◌}
use lkc.Mm.Buddy.{PhysMemPool, set_allocated}
use lkc.Mm.Buddy.Layout.{Layout}
use lkc.Mm.Buddy.Invariant.{Inv, taken}

-- Page `i` lies in the block of order `o` at `p`.
abbrev pub in_block : ℕ → ℕ → ℕ → Bool
in_block p o i = leb p i && ltb i (p + 2 ^ o)

module _ (pool : PhysMemPool) (p a : ℕ) where
  order-set_allocated :
      (i : ℕ) → ((set_allocated pool p a).page_metadata i).order ≡ (pool.page_metadata i).order
  order-set_allocated i = ground arith

  set_allocated-Layout :
      {n : ℕ} {owner : ℕ → ℕ}
      → owner p ≡ p
      → Layout n pool.page_metadata owner
      → Layout n (set_allocated pool p a).page_metadata owner
  set_allocated-Layout {owner} first l = record {
    own = λ i h. ground (arith, l.own i h, order-set_allocated (owner i));
    block = λ i j h w. l.block i j h (ground (arith, order-set_allocated (owner i)));
    aligned =
        λ i h. let (q, e) = l.aligned i h in (q, ground (arith, order-set_allocated (owner i)));
    small = λ i h. ground (arith, l.small i h, order-set_allocated (owner i));
    inner = λ i h ne. ground (arith, l.inner i h ne);
  }

module _ {n : ℕ} {pool : PhysMemPool} {owner : ℕ → ℕ} {p : ℕ} where
  -- The block in hand is handed out.
  pub handed_out-Inv : Inv n pool owner p → owner p ≡ p → Inv n (set_allocated pool p 1) owner n
  handed_out-Inv v first = record {
    size = v.size;
    layout = set_allocated-Layout pool p 1 first v.layout;
    listed = λ i q e. ground (arith, v.listed i q);
    complete = λ i q f ne. ground (arith, f, v.complete i q);
    distinct = v.distinct;
    counted = v.counted;
  }

  -- A block that was handed out is taken in hand.
  pub handed_back-Inv :
      Inv n pool owner n
      → owner p ≡ p
      → (pool.page_metadata p).allocated ≢ 0
      → Inv n (set_allocated pool p 0) owner p
  handed_back-Inv v first busy = record {
    size = v.size;
    layout = set_allocated-Layout pool p 0 first v.layout;
    listed = λ i q e. ground (arith, v.listed i q);
    complete = λ i q f ne. ground (arith, f, v.complete i q);
    distinct = v.distinct;
    counted = v.counted;
  }

-- The mark of a block is that of all pages in it.
pub taken-set_allocated :
    (pool : PhysMemPool) (p a o i : ℕ) {n : ℕ} {owner : ℕ → ℕ}
    → Layout n pool.page_metadata owner
    → p < n
    → owner p ≡ p
    → (pool.page_metadata p).order ≡ o
    → i < n
    → taken (set_allocated pool p a) owner i ≡ (if in_block p o i then a else taken pool owner i)
taken-set_allocated pool p a o i {owner} l h first order k = elim (ℕ_discrete (owner i) p) [
  | yes e ↦ ground (arith, l.own i k)
  | no ne ↦ ground (arith, l.own i k, l.block p i h)
]
