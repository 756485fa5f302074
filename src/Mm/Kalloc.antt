-- ===== src/Mm/Kalloc.antt =====
-- The size classes of the allocator's front end: `size_to_page_order` of src/mm/kalloc.c.
--
-- `1 << order` is an int: it stands for 2 ^ order up to order 30.
pub mod Pages
pub mod Live
pub mod Counts
pub mod Free
pub mod Life
mod Tests
use native.Mathlib.Nat.{two-pow-succ, pow-le-pow_right, one-le-pow}
use lkc.Base.{
  ℕ, zero, suc, ◌+◌, ◌-◌, ◌*◌, ◌/◌, ◌%◌, ◌^◌, ◌≤◌, ◌<◌, ◌≡◌, refl, true, false, ltb, if◌then◌else◌,
  arith, Bool-cases, ◌⊎◌, inl, inr,
}
use lkc.Mm.{pgsize}

-- The loop that halves `tmp`; each round makes it smaller, so that its first value is fuel enough.
pub order_loop : ℕ → ℕ → ℕ → ℕ
order_loop zero tmp order = order
order_loop (suc fuel) tmp order = elim (ltb 1 tmp) [
  | true ↦ order_loop fuel (tmp / 2) (order + 1)
  | false ↦ order
]

-- ROUND_UP(size, PGSIZE) / PGSIZE, where the sum wraps at 2 ^ 64
abbrev pub page_count : ℕ → ℕ
page_count size = (size + 4095) % 2 ^ 64 / pgsize

unfoldable pub size_to_page_order : ℕ → ℕ
size_to_page_order size =
    let page_num = page_count size in
    let order = order_loop page_num page_num 0 in
    if ltb (2 ^ order) page_num then order + 1 else order

-- The loop adds the position of the highest bit.
order_loop_lem :
    (fuel tmp order : ℕ)
    → tmp ≤ fuel
    → 0 < tmp
    → (d : ℕ) × (order_loop fuel tmp order ≡ order + d) × (2 ^ d ≤ tmp) × (tmp < 2 ^ suc d)
unfolding order_loop
order_loop_lem zero tmp order h k = absurd (omega arith)
order_loop_lem (suc fuel) tmp order h k = elim (Bool-cases (ltb 1 tmp)) [
  | inl e ↦
      let (d, f, l, u) = order_loop_lem fuel (tmp / 2) (order + 1) (ground arith) (ground arith) in
      (
        suc d,
        ground (arith, f),
        omega (arith, l, two-pow-succ d),
        omega (arith, u, two-pow-succ (suc d)),
      )
  | inr e ↦ (0, ground arith, omega arith, ground arith)
]

-- From pages to bytes: `n` pages hold the size, and one less does not.
least_order :
    (size n r : ℕ)
    → size ≤ n * pgsize
    → n * pgsize < size + pgsize
    → n ≤ 2 ^ r
    → ((o : ℕ) → o < r → 2 ^ o < n)
    → (size ≤ 2 ^ r * pgsize) × ((o : ℕ) → o < r → 2 ^ o * pgsize < size)
least_order size n r h k l f = (omega arith, λ o m. omega (arith, f o m))

order_is :
    (size n d : ℕ)
    → page_count size ≡ n
    → order_loop n n 0 ≡ d
    → size_to_page_order size ≡ (if ltb (2 ^ d) n then d + 1 else d)
unfolding size_to_page_order
order_is size n d e f = rw (size_to_page_order, e, f) refl

-- For a size that is not 0, of at most 2 ^ 42 bytes, `size_to_page_order` returns the smallest
-- order whose block holds the size.
pub size_to_page_order_lem :
    (size : ℕ)
    → 0 < size
    → size ≤ 2 ^ 42
    → (size ≤ 2 ^ size_to_page_order size * pgsize)
      × ((o : ℕ) → o < size_to_page_order size → 2 ^ o * pgsize < size)
size_to_page_order_lem size h k =
    let n = page_count size in
    let (d, f, l, u) = order_loop_lem n n 0 (omega arith) (omega arith) in
    let r = order_is size n d refl (omega (arith, f)) in
    elim (Bool-cases (ltb (2 ^ d) n)) [
      | inl e ↦
          let r' : size_to_page_order size ≡ suc d = ground (arith, r) in
          rw (r') (
            least_order size n (suc d) (omega arith) (omega arith) (omega (arith, u)) (λ o m.
              ground (arith, pow-le-pow_right {n = 2} (omega arith) {i = o} {j = d} (omega arith))))
      | inr e ↦
          let r' : size_to_page_order size ≡ d = ground (arith, r) in
          rw (r') (
            least_order size n d (omega arith) (omega arith) (ground arith) (λ o m. omega (
              arith,
              l,
              two-pow-succ o,
              one-le-pow o 2 (omega arith),
              pow-le-pow_right {n = 2} (omega arith) {i = suc o} {j = d} (omega arith),
            )))
    ]
