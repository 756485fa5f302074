-- ===== src/Mm/Buddy/Merging.antt =====
-- Merging two free buddies, as `merge_page` of src/mm/buddy.c does, keeps the layout.
use native.Mathlib.Nat.{two-pow-succ, one-le-pow}
use native.Mathlib.Decide.{ℕ_discrete}
use lkc.Base.{
  ℕ, suc, ◌+◌, ◌*◌, ◌^◌, ◌≤◌, ◌<◌, ◌≡◌, ap, ◌≢◌, ◌⊎◌, inl, inr, ◌==◌, arith, if◌then◌else◌, update,
}
use lkc.Mm.Buddy.{buddy_max_order}
use lkc.Mm.Buddy.Layout.{Metadata, Within, Layout, FreeBlock, Handed}

-- The free blocks of order `o` at `p` and at `p + 2 ^ o` made into one.
module _ (md : Metadata) (owner : ℕ → ℕ) (p o : ℕ) where
  unfoldable pub merge_metadata : Metadata
  merge_metadata = update md p (record (md p) { order = o + 1 })

  unfoldable pub merge_owner : ℕ → ℕ
  merge_owner i = if owner i == p + 2 ^ o then p else owner i

  pub merge-order : (merge_metadata p).order ≡ suc o
  unfolding merge_metadata
  merge-order = ground arith

  pub merge-allocated : (i : ℕ) → (merge_metadata i).allocated ≡ (md i).allocated
  unfolding merge_metadata
  merge-allocated i = ground arith

  pub merge_other : (i : ℕ) → i ≢ p → merge_metadata i ≡ md i
  unfolding merge_metadata
  merge_other i h = ground arith

module _ {n : ℕ} {md : Metadata} {owner : ℕ → ℕ} (l : Layout n md owner) (p o : ℕ)
    (b : FreeBlock n md owner p o) (c : FreeBlock n md owner (p + 2 ^ o) o)
    (even : (q : ℕ) × (p ≡ q * 2 * 2 ^ o)) (room : o < buddy_max_order) where
  abbrev md' : Metadata
  md' = merge_metadata md owner p o

  abbrev owner' : ℕ → ℕ
  owner' = merge_owner md owner p o

  -- Where a page lies: in one of the two blocks, or in another.
  record Joined (i : ℕ) : Type 0 where
    was : (owner i ≡ p) ⊎ (owner i ≡ p + 2 ^ o)
    now : owner' i ≡ p
    from : p ≤ i
    to : i < p + 2 ^ o + 2 ^ o

  record Other (i : ℕ) : Type 0 where
    was : owner i ≢ p
    not_upper : owner i ≢ p + 2 ^ o
    now : owner' i ≡ owner i
    same : md' (owner i) ≡ md (owner i)

  sizes : (2 ^ (md p).order ≡ 2 ^ o) × (2 ^ (md (p + 2 ^ o)).order ≡ 2 ^ o)
  sizes = (ap (λ (k : ℕ). 2 ^ k) b.order, ap (λ (k : ℕ). 2 ^ k) c.order)

  joined_size : 2 ^ (merge_metadata md owner p o p).order ≡ 2 ^ o + 2 ^ o
  joined_size = rw (merge-order md owner p o) (two-pow-succ o)

  place : (i : ℕ) → i < n → Joined i ⊎ Other i
  unfolding merge_owner
  place i h = elim (ℕ_discrete (owner i) p) [
    | yes e ↦ inl (ground (arith, sizes, l.own i h, b.first))
    | no ne ↦ elim (ℕ_discrete (owner i) (p + 2 ^ o)) [
      | yes e ↦ inl (ground (arith, sizes, l.own i h, b.first))
      | no ne' ↦ inr (record {
        was = ne;
        not_upper = ne';
        now = ground arith;
        same = merge_other md owner p o (owner i) ne;
      })
    ]
  ]

  merge-own : (i : ℕ) → i < n → Within md' (owner' i) i
  merge-own i h = elim (place i h) [
    | inl x ↦ ground (arith, joined_size)
    | inr x ↦ ground (arith, l.own i h)
  ]

  -- The new owners inside of the block that is made.
  whole : (j : ℕ) → p ≤ j → j < p + 2 ^ o + 2 ^ o → (j < n) × (owner' j ≡ p)
  unfolding merge_owner
  whole j h k =
      ground
        (arith, sizes, l.block p j b.in_pool, l.block (p + 2 ^ o) j c.in_pool, b.first, c.first)

  merge-block-Other :
      (i j : ℕ) → i < n → Other i → Within md' (owner' i) j → (j < n) × (owner' j ≡ owner' i)
  merge-block-Other i j h x w =
      let (in_j, own_j) = l.block i j h (ground arith) in
      elim (place j in_j) [
        | inl y ↦ absurd (ground (arith, y.was, x.was, x.not_upper))
        | inr y ↦ (in_j, ground arith)
      ]

  merge-block : (i j : ℕ) → i < n → Within md' (owner' i) j → (j < n) × (owner' j ≡ owner' i)
  merge-block i j h w = elim (place i h) [
    | inl x ↦ ground (arith, joined_size, whole j)
    | inr x ↦ merge-block-Other i j h x w
  ]

  merge-aligned : (i : ℕ) → i < n → (q : ℕ) × (owner' i ≡ q * 2 ^ (md' (owner' i)).order)
  merge-aligned i h = elim (place i h) [
    | inl x ↦ (even.0, rw (x.now, joined_size) (omega (arith, even.1)))
    | inr x ↦ let (r, f) = l.aligned i h in (r, ground arith)
  ]

  merge-small : (i : ℕ) → i < n → (md' (owner' i)).order ≤ buddy_max_order
  merge-small i h = elim (place i h) [
    | inl x ↦ ground (arith, merge-order md owner p o)
    | inr x ↦ ground (arith, l.small i h)
  ]

  merge-inner : (i : ℕ) → i < n → owner' i ≢ i → (md' i).allocated ≡ 0
  merge-inner i h a = elim (place i h) [
    | inl x ↦ ground (arith, merge-allocated md owner p o i, l.inner i h, c.free, x.was)
    | inr x ↦ ground (arith, merge-allocated md owner p o i, l.inner i h)
  ]

  pub merge-Layout : Layout n (merge_metadata md owner p o) (merge_owner md owner p o)
  merge-Layout = record {
    own = merge-own;
    block = merge-block;
    aligned = merge-aligned;
    small = merge-small;
    inner = merge-inner;
  }

  -- The free blocks after the merge: the new one, and all others as they were.
  pub joined_free : FreeBlock n (merge_metadata md owner p o) (merge_owner md owner p o) p (suc o)
  joined_free =
      ground (
        arith,
        merge-order md owner p o,
        merge-allocated md owner p o p,
        whole p,
        one-le-pow o 2,
        b,
      )

  pub merge_keeps :
      (q i : ℕ)
      → FreeBlock n md owner q i
      → q ≢ p
      → q ≢ p + 2 ^ o
      → FreeBlock n (merge_metadata md owner p o) (merge_owner md owner p o) q i
  merge_keeps q i f ne ne' = elim (place q f.in_pool) [
    | inl x ↦ absurd (ground (arith, f.first, x.was))
    | inr x ↦ ground (arith, f, merge-allocated md owner p o q)
  ]

  pub merge_adds :
      (q i : ℕ)
      → FreeBlock n (merge_metadata md owner p o) (merge_owner md owner p o) q i
      → q ≢ p
      → FreeBlock n md owner q i × (q ≢ p + 2 ^ o)
  merge_adds q i f ne = elim (place q f.in_pool) [
    | inl x ↦ absurd (ne (ground (arith, f.first)))
    | inr x ↦ ground (arith, f, merge-allocated md owner p o q)
  ]

  -- The same pages are handed out.
  pub merge_same : (i : ℕ) → i < n → (md' (owner' i)).allocated ≡ (md (owner i)).allocated
  merge_same i h = elim (place i h) [
    | inl x ↦ ground (arith, merge-allocated md owner p o p, b.free, c.free, x.was)
    | inr x ↦ ground arith
  ]

  -- A block that is handed out stays as it is.
  pub merge-Handed :
      (q i : ℕ)
      → Handed n md owner q i
      → Handed n (merge_metadata md owner p o) (merge_owner md owner p o) q i
  merge-Handed q i f = elim (place q f.in_pool) [
    | inl x ↦ absurd (ground (arith, f, x.was, b.free, c.free))
    | inr x ↦ ground (arith, f, merge-allocated md owner p o q)
  ]
