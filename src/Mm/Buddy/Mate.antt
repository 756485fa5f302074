-- ===== src/Mm/Buddy/Mate.antt =====
-- `get_buddy` of src/mm/buddy.c: the buddy of an aligned page.
use Prim.Native.Nat.{bit_xor}
use native.Mathlib.Numerals.{towards_suc}
use native.Mathlib.Nat.{mul_assoc}
use lkc.Base.{ℕ, ◌+◌, ◌*◌, ◌^◌, ◌<◌, ◌≡◌, ◌∙◌, ap, none, some, arith, leb, if◌then◌else◌}
use lkc.Base.Bits.{bit_xor_even, bit_xor_odd}
use lkc.Mm.{pgsize}
use lkc.Mm.Buddy.{PhysMemPool, buddy_max_order, get_buddy}

two-pow-add_twelve : (o : ℕ) → 2 ^ (o + 12) ≡ 2 ^ o * pgsize
two-pow-add_twelve o = ap (λ (k : ℕ). 2 ^ k) split ∙ (simp towards_suc (omega arith))
  where
    split : o + 12 ≡ o + 6 + 6
    split = omega arith

scale : (a o : ℕ) → a * 2 ^ o * pgsize ≡ a * 2 ^ (o + 12)
scale a o = rw (mul_assoc, two-pow-add_twelve)

-- The buddy of a page of order `o` at an even and at an odd multiple of `2 ^ o`.
mask_even :
    (q o : ℕ) → bit_xor (q * 2 * 2 ^ o * pgsize) (2 ^ (o + 12)) ≡ (q * 2 + 1) * 2 ^ o * pgsize
mask_even q o = rw (scale (q * 2) o, scale (q * 2 + 1) o) (bit_xor_even q (o + 12))

mask_odd :
    (q o : ℕ) → bit_xor ((q * 2 + 1) * 2 ^ o * pgsize) (2 ^ (o + 12)) ≡ q * 2 * 2 ^ o * pgsize
mask_odd q o = rw (scale (q * 2) o, scale (q * 2 + 1) o) (bit_xor_odd q (o + 12))

-- What `get_buddy` makes of the offset, in a pool of `n` pages.
get_buddy_at :
    (pool : PhysMemPool) (n p b : ℕ)
    → pool.mem_size ≡ n * pgsize
    → (pool.page_metadata p).order < buddy_max_order
    → bit_xor (p * pgsize) (2 ^ ((pool.page_metadata p).order + 12)) ≡ b * pgsize
    → get_buddy pool p ≡ (if leb n b then some none else some (some b))
unfolding get_buddy
get_buddy_at pool n p b hn ho e = ground arith

module _ (pool : PhysMemPool) (n p o q : ℕ) (size : pool.mem_size ≡ n * pgsize)
    (order : (pool.page_metadata p).order ≡ o) (room : o < buddy_max_order) where
  -- The buddy of the lower page of a pair is the upper one, and the other way round.
  pub get_buddy_low :
      p ≡ q * 2 * 2 ^ o
      → get_buddy pool p ≡ (if leb n (p + 2 ^ o) then some none else some (some (p + 2 ^ o)))
  get_buddy_low e = get_buddy_at pool n p (p + 2 ^ o) size (omega arith) mask
    where
      mask : bit_xor (p * pgsize) (2 ^ ((pool.page_metadata p).order + 12)) ≡ (p + 2 ^ o) * pgsize
      mask = rw (order, e) (mask_even q o ∙ omega arith)

  pub get_buddy_high :
      p ≡ (q * 2 + 1) * 2 ^ o
      → get_buddy pool p
        ≡ (if leb n (q * 2 * 2 ^ o) then some none else some (some (q * 2 * 2 ^ o)))
  get_buddy_high e = get_buddy_at pool n p (q * 2 * 2 ^ o) size (omega arith) mask
    where
      mask : bit_xor (p * pgsize) (2 ^ ((pool.page_metadata p).order + 12)) ≡ q * 2 * 2 ^ o * pgsize
      mask = rw (order, e) (mask_odd q o)
