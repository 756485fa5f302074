-- ===== src/Mm/Buddy/SplitStep.antt =====
-- One round of `split_page` of src/mm/buddy.c on a pool that keeps its invariant.
use native.Mathlib.Nat.{one-le-pow}
use native.Mathlib.Decide.{ℕ_discrete}
use lkc.Base.{
  ℕ, suc, ◌+◌, ◌^◌, ◌≡◌, refl, ◌≢◌, inl, inr, Bool-cases, true, false, some, arith, elem,
}
use lkc.Mm.Buddy.{PhysMemPool, push_page, set_order, split_once}
use lkc.Mm.Buddy.Layout.{FreeBlock}
use lkc.Mm.Buddy.Splitting.{
  split_metadata, split_owner, split-Layout, start, upper, halves_free, split_keeps, split_adds,
  split_same, split-Handed,
}
use lkc.Mm.Buddy.Mate.{get_buddy_low}
use lkc.Mm.Buddy.Counting.{free_pages, free_pages-inc}
use lkc.Mm.Buddy.Invariant.{Inv, Frame}

-- What a round leaves: the upper half is on the list of its order.
module _ (pool : PhysMemPool) (owner : ℕ → ℕ) (p o : ℕ) where
  pub split_pool : PhysMemPool
  split_pool =
      push_page (record pool { page_metadata = split_metadata pool.page_metadata owner p o })
        (p + 2 ^ o) o

module _ {n : ℕ} {pool : PhysMemPool} {owner : ℕ → ℕ} {p o : ℕ} (v : Inv n pool owner p)
    (b : FreeBlock n pool.page_metadata owner p (suc o)) where
  pub split_once_lem : split_once pool p ≡ some (split_pool pool owner p o)
  unfolding split_once split_pool split_metadata
  split_once_lem = ground (
    arith,
    b.order,
    b.in_pool,
    v.layout.small p,
    upper v.layout p o b,
    get_buddy_low (set_order pool p o) n p o (start v.layout p o b).0 v.size,
    (start v.layout p o b).1,
  )

  upper_unlisted : elem (p + 2 ^ o) (pool.lists o) ≡ false
  upper_unlisted = elim (Bool-cases (elem (p + 2 ^ o) (pool.lists o))) [
    | inl y ↦
        absurd
          (ground (arith, (v.listed o (p + 2 ^ o) y).0.first, upper v.layout p o b, one-le-pow o 2))
    | inr y ↦ y
  ]

  split_complete :
      (i q : ℕ)
      → FreeBlock n
          (split_metadata pool.page_metadata owner p o)
          (split_owner pool.page_metadata owner p o)
          q
          i
      → q ≢ p
      → elem q ((split_pool pool owner p o).lists i) ≡ true
  unfolding split_pool
  split_complete i q f ne = elim (ℕ_discrete q (p + 2 ^ o)) [
    | yes e ↦ ground (arith, f.order, (halves_free v.layout p o b).1.order)
    | no ne' ↦ ground (arith, v.complete i q (split_adds v.layout p o b q i f ne ne') ne)
  ]

  -- The halves are free blocks; the lower one stays in hand.
  pub split_pool-Inv :
      Inv n (split_pool pool owner p o) (split_owner pool.page_metadata owner p o) p
      × FreeBlock n
          (split_pool pool owner p o).page_metadata
          (split_owner pool.page_metadata owner p o)
          p
          o
  unfolding split_pool
  split_pool-Inv = (
    record {
      size = v.size;
      layout = split-Layout v.layout p o b;
      listed = λ i q e. ground (
        arith,
        halves_free v.layout p o b,
        one-le-pow o 2,
        v.listed i q,
        split_keeps v.layout p o b q i,
      );
      complete = split_complete;
      distinct = λ i. ground (arith, v.distinct i, upper_unlisted);
      counted = λ i. ground (arith, v.counted i);
    },
    (halves_free v.layout p o b).0,
  )

  pub split_pool-Frame :
      Frame n pool owner (split_pool pool owner p o) (split_owner pool.page_metadata owner p o)
  unfolding split_pool
  split_pool-Frame = record { same = split_same v.layout p o b; kept = split-Handed v.layout p o b }

  pub split_pool-free_pages : free_pages (split_pool pool owner p o) ≡ free_pages pool + 2 ^ o
  unfolding split_pool
  split_pool-free_pages =
      free_pages-inc pool (split_pool pool owner p o) o (ground (arith, b, v.layout.small p)) refl
