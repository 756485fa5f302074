-- ===== src/Mm/Buddy/MergeStep.antt =====
-- One merge of `merge_page` of src/mm/buddy.c on a pool that keeps its invariant.
use native.Mathlib.Nat.{one-le-pow}
use lkc.Base.{
  ℕ, suc, ◌+◌, ◌*◌, ◌^◌, ◌<◌, ◌≡◌, refl, ◌≢◌, ◌⊎◌, inl, inr, true, false, arith, if◌then◌else◌,
  ◌==◌, elem, erase-IsDistinct,
}
use lkc.Mm.Buddy.{PhysMemPool, buddy_max_order, unlink_page, merge_once}
use lkc.Mm.Buddy.Layout.{FreeBlock}
use lkc.Mm.Buddy.Merging.{
  merge_metadata, merge_owner, merge-Layout, joined_free, merge_keeps, merge_adds, merge_same,
  merge-Handed,
}
use lkc.Mm.Buddy.Counting.{free_pages, free_pages-dec}
use lkc.Mm.Buddy.Invariant.{Inv, Frame, elem-unlink, counted-unlink, num_pos}

-- What a merge of the blocks at `low` and `low + 2 ^ o` leaves, with `buddy` the one that was listed.
module _ (pool : PhysMemPool) (owner : ℕ → ℕ) (low o buddy : ℕ) where
  pub merge_pool : PhysMemPool
  merge_pool = record (unlink_page pool buddy) {
    page_metadata = merge_metadata pool.page_metadata owner low o;
  }

-- `p` is in hand and `buddy` listed; one of them is `low` and the other one is `low + 2 ^ o`.
pub record Pair (n : ℕ) (pool : PhysMemPool) (owner : ℕ → ℕ) (p o low buddy : ℕ) : Type 0 where
  pub even : (q : ℕ) × (low ≡ q * 2 * 2 ^ o)
  pub sides : ((p ≡ low) × (buddy ≡ low + 2 ^ o)) ⊎ ((buddy ≡ low) × (p ≡ low + 2 ^ o))
  pub lower : FreeBlock n pool.page_metadata owner low o
  pub upper : FreeBlock n pool.page_metadata owner (low + 2 ^ o) o

module _ {n : ℕ} {pool : PhysMemPool} {owner : ℕ → ℕ} {p o low buddy : ℕ} (v : Inv n pool owner p)
    (room : o < buddy_max_order) (r : Pair n pool owner p o low buddy) where
  pub merge_once_lem : merge_once pool p buddy ≡ (merge_pool pool owner low o buddy, low)
  unfolding merge_once merge_pool merge_metadata
  merge_once_lem = elim r.sides [
    | inl s ↦ ground (arith, one-le-pow o 2, r.lower.order)
    | inr s ↦ ground (arith, one-le-pow o 2, r.lower.order)
  ]

  lists-merge :
      (i q : ℕ)
      → elem q ((merge_pool pool owner low o buddy).lists i)
        ≡ (if buddy == q then false else elem q (pool.lists i))
  unfolding merge_pool
  lists-merge i q = elem-unlink v i buddy q

  buddy_free : FreeBlock n pool.page_metadata owner buddy o × (buddy ≢ p)
  buddy_free = elim r.sides [
    | inl s ↦ ground (arith, one-le-pow o 2, r.upper)
    | inr s ↦ ground (arith, one-le-pow o 2, r.lower)
  ]

  merge_listed :
      (i q : ℕ)
      → elem q ((merge_pool pool owner low o buddy).lists i) ≡ true
      → FreeBlock n
          (merge_pool pool owner low o buddy).page_metadata
          (merge_owner pool.page_metadata owner low o)
          q
          i
        × (q ≢ low)
  unfolding merge_pool
  merge_listed i q e =
      let (f, ne) = v.listed i q (ground (arith, lists-merge i q)) in
      let ne' : buddy ≢ q = ground (arith, lists-merge i q) in
      let out : (q ≢ low) × (q ≢ low + 2 ^ o) = ground (arith, r.sides) in
      (merge_keeps v.layout low o r.lower r.upper r.even room q i f out.0 out.1, out.0)

  merge_complete :
      (i q : ℕ)
      → FreeBlock n
          (merge_pool pool owner low o buddy).page_metadata
          (merge_owner pool.page_metadata owner low o)
          q
          i
      → q ≢ low
      → elem q ((merge_pool pool owner low o buddy).lists i) ≡ true
  unfolding merge_pool
  merge_complete i q f ne =
      let (g, ne') = merge_adds v.layout low o r.lower r.upper r.even room q i f ne in
      let other : (q ≢ p) × (q ≢ buddy) = ground (arith, r.sides) in
      ground (arith, lists-merge i q, v.complete i q g other.0)

  -- The new block is free and in hand.
  pub merge_pool-Inv :
      Inv n (merge_pool pool owner low o buddy) (merge_owner pool.page_metadata owner low o) low
      × FreeBlock n
          (merge_pool pool owner low o buddy).page_metadata
          (merge_owner pool.page_metadata owner low o)
          low
          (suc o)
  unfolding merge_pool
  merge_pool-Inv = (
    record {
      size = v.size;
      layout = merge-Layout v.layout low o r.lower r.upper r.even room;
      listed = merge_listed;
      complete = merge_complete;
      distinct = λ i. erase-IsDistinct buddy (pool.lists i) (v.distinct i);
      counted = λ i. counted-unlink v i buddy o buddy_free.0 buddy_free.1;
    },
    joined_free v.layout low o r.lower r.upper r.even room,
  )

  pub merge_pool-Frame :
      Frame n pool owner
        (merge_pool pool owner low o buddy)
        (merge_owner pool.page_metadata owner low o)
  unfolding merge_pool
  merge_pool-Frame = record {
    same = merge_same v.layout low o r.lower r.upper r.even room;
    kept = merge-Handed v.layout low o r.lower r.upper r.even room;
  }

  pub merge_pool-free_pages :
      free_pages (merge_pool pool owner low o buddy) + 2 ^ o ≡ free_pages pool
  unfolding merge_pool
  merge_pool-free_pages =
      free_pages-dec pool (merge_pool pool owner low o buddy) o (omega (arith, room))
        (num_pos v buddy o buddy_free.0 buddy_free.1) (rw (buddy_free.0.order) refl)
