-- ===== src/Mm/Buddy/Pairing.antt =====
-- The buddy that `merge_page` of src/mm/buddy.c looks at is the first page of its block, so that what the
-- metadata says of it is true of that block.
use native.Mathlib.Decide.{dec_le}
use native.Mathlib.Nat.{two-pow-succ, one-le-pow}
use lkc.Base.{ℕ, suc, ◌+◌, ◌*◌, ◌^◌, ◌≤◌, ◌<◌, ◌≡◌, ap, ◌⊎◌, inl, inr, arith}
use lkc.Base.Powers.{two-pow-multiple, multiple_eq, multiple_covers}
use lkc.Mm.Buddy.Layout.{Metadata, Layout, FreeBlock}

module _ {n : ℕ} {md : Metadata} {owner : ℕ → ℕ} (l : Layout n md owner) (p b low o q : ℕ)
    (block : FreeBlock n md owner p o) (even : low ≡ q * 2 * 2 ^ o)
    (sides : ((p ≡ low) × (b ≡ low + 2 ^ o)) ⊎ ((b ≡ low) × (p ≡ low + 2 ^ o)))
    (in_pool : b < n) where
  buddy_multiple : (s : ℕ) × (b ≡ s * 2 ^ o)
  buddy_multiple = elim sides [ inl x ↦ (q * 2 + 1, omega arith) | inr x ↦ (q * 2, omega arith) ]

  abbrev k : ℕ
  k = (md (owner b)).order

  -- The buddy's block is no larger: it starts at the buddy.
  small_block : k ≤ o → owner b ≡ b
  small_block h =
      let (c, e) = two-pow-multiple k o h in
      let (r, f) = l.aligned b in_pool in
      let (s, g) = buddy_multiple in
      let g' : b ≡ s * c * 2 ^ k = omega (arith, ap (λ (t : ℕ). s * t) e) in
      omega (
        arith,
        g',
        multiple_eq r (s * c) (2 ^ k) (omega (arith, l.own b in_pool))
            (omega (arith, l.own b in_pool)),
      )

  -- A larger one would hold `p` too, and start there.
  large_holds : suc o ≤ k → owner p ≡ owner b
  large_holds h =
      let (c, e) = two-pow-multiple (suc o) k h in
      let (r, f) = l.aligned b in_pool in
      let f' : owner b ≡ r * c * 2 ^ suc o = omega (arith, f, ap (λ (t : ℕ). r * t) e) in
      let w : 2 ^ suc o ≡ 2 ^ o + 2 ^ o = two-pow-succ o in
      let even' : low ≡ q * 2 ^ suc o = omega (arith, even, ap (λ (t : ℕ). q * t) w) in
      let within : (owner b ≤ b) × (b < owner b + 2 ^ k) = l.own b in_pool in
      let pair : (low ≤ b) × (b < low + 2 ^ suc o) = ground (arith, w, one-le-pow o 2) in
      let covers =
        multiple_covers (r * c) q (r * c + c) (2 ^ suc o) b (omega (arith, even', pair))
          (omega (arith, even', pair)) (omega (arith, f', within)) (omega (arith, f', e, within)) in
      (l.block b p in_pool (ground (arith, covers, even', f', e, w, one-le-pow o 2))).1

  large_block : suc o ≤ k → owner b ≡ b
  large_block h = absurd (ground (arith, large_holds h, block))

  pub buddy_first : owner b ≡ b
  buddy_first = elim (dec_le k o) [ yes h ↦ small_block h | no h ↦ large_block (omega arith) ]
