-- ===== src/Mm/Buddy/SplitLoop.antt =====
-- `split_page` of src/mm/buddy.c: its loop ends, no assertion of it fails, and it leaves the page in
-- hand with the order that was asked for.
use native.Mathlib.Decide.{dec_lt}
use native.Mathlib.Nat.{two-pow-succ}
use lkc.Base.{ℕ, zero, suc, ◌+◌, ◌^◌, ◌≤◌, ◌<◌, ◌≡◌, refl, some, arith}
use lkc.Mm.Buddy.{PhysMemPool, split_loop, split_page}
use lkc.Mm.Buddy.Layout.{FreeBlock}
use lkc.Mm.Buddy.Splitting.{split_owner}
use lkc.Mm.Buddy.Counting.{free_pages}
use lkc.Mm.Buddy.Invariant.{Inv, Frame, Frame-refl, Frame-trans}
use lkc.Mm.Buddy.SplitStep.{
  split_pool, split_once_lem, split_pool-Inv, split_pool-Frame, split_pool-free_pages,
}

-- What `split_page` makes of a pool with the page `p`, of order `m`, in hand.
pub record Split (n order p m : ℕ) (pool : PhysMemPool) (owner : ℕ → ℕ) (pool' : PhysMemPool)
    : Type 0 where
  pub owner' : ℕ → ℕ
  pub valid : Inv n pool' owner' p
  pub block : FreeBlock n pool'.page_metadata owner' p order
  pub frame : Frame n pool owner pool' owner'
  pub balance : free_pages pool' + 2 ^ order ≡ free_pages pool + 2 ^ m

pub Split-done :
    {n order p m : ℕ} {pool : PhysMemPool} {owner : ℕ → ℕ}
    → Inv n pool owner p
    → FreeBlock n pool.page_metadata owner p m
    → m ≡ order
    → Split n order p m pool owner pool
Split-done {owner} v b e = record {
  owner' = owner;
  valid = v;
  block = rw e at b;
  frame = Frame-refl;
  balance = rw e refl;
}

-- A round, and then what the rest of the loop makes.
Split-round :
    {n order p m : ℕ} {pool pool' : PhysMemPool} {owner : ℕ → ℕ} (v : Inv n pool owner p)
    (b : FreeBlock n pool.page_metadata owner p (suc m))
    → Split n order p m (split_pool pool owner p m) (split_owner pool.page_metadata owner p m) pool'
    → Split n order p (suc m) pool owner pool'
Split-round {m} v b s = record {
  owner' = s.owner';
  valid = s.valid;
  block = s.block;
  frame = Frame-trans (split_pool-Frame v b) s.frame;
  balance = omega (arith, s.balance, split_pool-free_pages v b, two-pow-succ m);
}

-- With the order in hand at most `fuel` above the one that is asked for, the loop ends in time.
split_loop_lem :
    (fuel order p m : ℕ) {n : ℕ} {owner : ℕ → ℕ} {pool : PhysMemPool}
    → Inv n pool owner p
    → FreeBlock n pool.page_metadata owner p m
    → order ≤ m
    → m ≤ order + fuel
    → (pool' : PhysMemPool) × (split_loop fuel pool order p ≡ some pool')
      × Split n order p m pool owner pool'
unfolding split_loop
split_loop_lem zero order p m {pool} v b h k =
    (pool, ground (arith, b.order), Split-done v b (omega arith))
split_loop_lem (suc fuel) order p zero {pool} v b h k =
    (pool, ground (arith, b.order), Split-done v b (omega arith))
split_loop_lem (suc fuel) order p (suc m) {pool} v b h k = elim (dec_lt order (suc m)) [
  | no ge ↦ (pool, ground (arith, b.order), Split-done v b (omega arith))
  | yes lt ↦
      let (w, c) = split_pool-Inv v b in
      let (pool', e, s) = split_loop_lem fuel order p m w c (omega arith) (omega arith) in
      (pool', ground (arith, b.order, split_once_lem v b, e), Split-round v b s)
]

pub split_page_lem :
    {n : ℕ} {owner : ℕ → ℕ} {pool : PhysMemPool} (order p m : ℕ)
    → Inv n pool owner p
    → FreeBlock n pool.page_metadata owner p m
    → order < m
    → (pool' : PhysMemPool) × (split_page pool order p ≡ some pool')
      × Split n order p m pool owner pool'
unfolding split_page
split_page_lem {pool} order p m v b h =
    let (pool', e, s) =
      split_loop_lem (pool.page_metadata p).order order p m v b (omega arith)
        (omega (arith, b.order)) in
    (pool', ground (arith, b.order, e), s)
