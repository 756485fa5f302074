-- ===== src/Mm/Buddy/Splitting.antt =====
-- Splitting a free block in two, as `split_page` of src/mm/buddy.c does, keeps the layout.
use native.Mathlib.Nat.{two-pow-succ, one-le-pow}
use native.Mathlib.Decide.{dec_lt, ℕ_discrete}
use lkc.Base.{
  ℕ, suc, ◌+◌, ◌*◌, ◌^◌, ◌≤◌, ◌<◌, ◌≡◌, refl, ap, ◌≢◌, ◌⊎◌, inl, inr, ◌&&◌, arith, leb, ltb,
  if◌then◌else◌, update,
}
use lkc.Mm.Buddy.{buddy_max_order}
use lkc.Mm.Buddy.Layout.{Metadata, Within, Layout, FreeBlock, Handed}

-- A free block of order `suc o` at `p` split in two.
module _ (md : Metadata) (owner : ℕ → ℕ) (p o : ℕ) where
  unfoldable pub split_metadata : Metadata
  split_metadata =
      let md' = update md p (record (md p) { order = o }) in
      update md' (p + 2 ^ o) (record (md' (p + 2 ^ o)) { order = o })

  unfoldable pub split_owner : ℕ → ℕ
  split_owner i = if leb (p + 2 ^ o) i && ltb i (p + 2 ^ o + 2 ^ o) then p + 2 ^ o else owner i

  pub split-order : (i : ℕ) → (i ≡ p) ⊎ (i ≡ p + 2 ^ o) → (split_metadata i).order ≡ o
  unfolding split_metadata
  split-order i h = ground arith

  pub split-allocated : (i : ℕ) → (split_metadata i).allocated ≡ (md i).allocated
  unfolding split_metadata
  split-allocated i = ground arith

  pub split_other : (i : ℕ) → i ≢ p → i ≢ p + 2 ^ o → split_metadata i ≡ md i
  unfolding split_metadata
  split_other i h k = ground arith

module _ {n : ℕ} {md : Metadata} {owner : ℕ → ℕ} (l : Layout n md owner) (p o : ℕ)
    (b : FreeBlock n md owner p (suc o)) where
  open b use {in_pool, first, order, free}

  abbrev md' : Metadata
  md' = split_metadata md owner p o

  abbrev owner' : ℕ → ℕ
  owner' = split_owner md owner p o

  -- Where a page lies: in the lower half, in the upper half, or in another block.
  record Low (i : ℕ) : Type 0 where
    was : owner i ≡ p
    now : owner' i ≡ p
    from : p ≤ i
    to : i < p + 2 ^ o

  record High (i : ℕ) : Type 0 where
    was : owner i ≡ p
    now : owner' i ≡ p + 2 ^ o
    from : p + 2 ^ o ≤ i
    to : i < p + 2 ^ o + 2 ^ o

  record Other (i : ℕ) : Type 0 where
    was : owner i ≢ p
    now : owner' i ≡ owner i
    same : md' (owner i) ≡ md (owner i)
    out : (i < p) ⊎ (p + 2 ^ o + 2 ^ o ≤ i)

  size : 2 ^ (md p).order ≡ 2 ^ o + 2 ^ o
  size = rw order (two-pow-succ o)

  -- A page of another block lies outside of the block at `p`, and that block starts elsewhere.
  apart : (i : ℕ) → i < n → owner i ≢ p → (i < p) ⊎ (p + 2 ^ o + 2 ^ o ≤ i)
  apart i h ne = ground (arith, size, l.block p i in_pool)

  pub head : (i : ℕ) → i < n → owner (owner i) ≡ owner i
  head i h = ground (arith, l.own i h, l.block i (owner i) h)

  -- The first page of the upper half.
  pub upper : (p + 2 ^ o < n) × (owner (p + 2 ^ o) ≡ p) × ((md (p + 2 ^ o)).allocated ≡ 0)
  upper = ground (arith, size, one-le-pow o 2, l.block p (p + 2 ^ o) in_pool, l.inner (p + 2 ^ o))

  place : (i : ℕ) → i < n → Low i ⊎ High i ⊎ Other i
  unfolding split_owner
  place i h = elim (ℕ_discrete (owner i) p) [
    | yes e ↦ elim (dec_lt i (p + 2 ^ o)) [
      | yes lt ↦ inl (ground (arith, size, l.own i h))
      | no ge ↦ inr (inl (ground (arith, size, l.own i h)))
    ]
    | no ne ↦ inr (
        inr (record {
          was = ne;
          now = ground (arith, apart i h ne);
          same = split_other md owner p o (owner i) ne (λ e. ne (ground (arith, head i h, upper)));
          out = apart i h ne;
        }))
  ]

  half_orders :
      ((split_metadata md owner p o p).order ≡ o)
      × ((split_metadata md owner p o (p + 2 ^ o)).order ≡ o)
  half_orders =
      (split-order md owner p o p (inl refl), split-order md owner p o (p + 2 ^ o) (inr refl))

  split-own : (i : ℕ) → i < n → Within md' (owner' i) i
  split-own i h = elim (place i h) [
    | inl x ↦ ground (arith, half_orders)
    | inr (inl x) ↦ ground (arith, half_orders)
    | inr (inr x) ↦ ground (arith, l.own i h)
  ]

  -- The new owners inside of the block that is split.
  halves :
      (j : ℕ)
      → p ≤ j
      → j < p + 2 ^ o + 2 ^ o
      → (j < n) × (owner' j ≡ (if ltb j (p + 2 ^ o) then p else p + 2 ^ o))
  unfolding split_owner
  halves j h k = ground (arith, size, l.block p j in_pool)

  split-block-Other :
      (i j : ℕ) → i < n → Other i → Within md' (owner' i) j → (j < n) × (owner' j ≡ owner' i)
  split-block-Other i j h x w =
      let (in_j, own_j) = l.block i j h (ground arith) in
      elim (place j in_j) [
        | inl y ↦ absurd (x.was (ground arith))
        | inr (inl y) ↦ absurd (x.was (ground arith))
        | inr (inr y) ↦ (in_j, ground arith)
      ]

  split-block : (i j : ℕ) → i < n → Within md' (owner' i) j → (j < n) × (owner' j ≡ owner' i)
  split-block i j h w = elim (place i h) [
    | inl x ↦ ground (arith, half_orders, halves j)
    | inr (inl x) ↦ ground (arith, half_orders, halves j)
    | inr (inr x) ↦ split-block-Other i j h x w
  ]

  pub start : (q : ℕ) × (p ≡ q * 2 * 2 ^ o)
  start =
      let (q, e) = l.aligned p in_pool in
      let e' : p ≡ q * 2 ^ suc o = ground arith in
      (q, omega (arith, e', ap (λ (t : ℕ). q * t) (two-pow-succ o)))

  split-aligned : (i : ℕ) → i < n → (q : ℕ) × (owner' i ≡ q * 2 ^ (md' (owner' i)).order)
  split-aligned i h = elim (place i h) [
    | inl x ↦ (start.0 * 2, rw (x.now, half_orders.0) start.1)
    | inr (inl x) ↦ (start.0 * 2 + 1, rw (x.now, half_orders.1) (omega (arith, start.1)))
    | inr (inr x) ↦ let (r, f) = l.aligned i h in (r, ground arith)
  ]

  split-small : (i : ℕ) → i < n → (md' (owner' i)).order ≤ buddy_max_order
  split-small i h = elim (place i h) [
    | inl x ↦ ground (arith, half_orders, l.small p in_pool)
    | inr (inl x) ↦ ground (arith, half_orders, l.small p in_pool)
    | inr (inr x) ↦ ground (arith, l.small i h)
  ]

  split-inner : (i : ℕ) → i < n → owner' i ≢ i → (md' i).allocated ≡ 0
  split-inner i h a = elim (place i h) [
    | inl x ↦ ground (arith, split-allocated md owner p o i, l.inner i h)
    | inr (inl x) ↦ ground (arith, split-allocated md owner p o i, l.inner i h, one-le-pow o 2)
    | inr (inr x) ↦ ground (arith, split-allocated md owner p o i, l.inner i h)
  ]

  pub split-Layout : Layout n (split_metadata md owner p o) (split_owner md owner p o)
  split-Layout = record {
    own = split-own;
    block = split-block;
    aligned = split-aligned;
    small = split-small;
    inner = split-inner;
  }

  -- The free blocks after the split: the two halves, and all others as they were.
  pub halves_free :
      FreeBlock n (split_metadata md owner p o) (split_owner md owner p o) p o
      × FreeBlock n (split_metadata md owner p o) (split_owner md owner p o) (p + 2 ^ o) o
  halves_free = ground (
    arith,
    half_orders,
    upper,
    halves p,
    halves (p + 2 ^ o),
    one-le-pow o 2,
    in_pool,
    free,
    split-allocated md owner p o p,
    split-allocated md owner p o (p + 2 ^ o),
  )

  pub split_keeps :
      (q i : ℕ)
      → FreeBlock n md owner q i
      → q ≢ p
      → FreeBlock n (split_metadata md owner p o) (split_owner md owner p o) q i × (q ≢ p + 2 ^ o)
  split_keeps q i f ne = elim (place q f.in_pool) [
    | inl x ↦ absurd (ne (ground (arith, f.first)))
    | inr (inl x) ↦ absurd (ne (ground (arith, f.first)))
    | inr (inr x) ↦ ground (arith, f, upper, split-allocated md owner p o q)
  ]

  pub split_adds :
      (q i : ℕ)
      → FreeBlock n (split_metadata md owner p o) (split_owner md owner p o) q i
      → q ≢ p
      → q ≢ p + 2 ^ o
      → FreeBlock n md owner q i
  split_adds q i f ne ne' = elim (place q f.in_pool) [
    | inl x ↦ absurd (ne (ground (arith, f.first)))
    | inr (inl x) ↦ absurd (ne' (ground (arith, f.first)))
    | inr (inr x) ↦ ground (arith, f, split-allocated md owner p o q)
  ]

  -- The same pages are handed out.
  pub split_same : (i : ℕ) → i < n → (md' (owner' i)).allocated ≡ (md (owner i)).allocated
  split_same i h = elim (place i h) [
    | inl x ↦ ground (arith, split-allocated md owner p o p)
    | inr (inl x) ↦ ground (arith, split-allocated md owner p o (p + 2 ^ o), upper)
    | inr (inr x) ↦ ground arith
  ]

  -- A block that is handed out stays as it is.
  pub split-Handed :
      (q i : ℕ)
      → Handed n md owner q i
      → Handed n (split_metadata md owner p o) (split_owner md owner p o) q i
  split-Handed q i f = elim (place q f.in_pool) [
    | inl x ↦ absurd (ground (arith, f))
    | inr (inl x) ↦ absurd (ground (arith, f))
    | inr (inr x) ↦ ground (arith, f, split-allocated md owner p o q)
  ]
