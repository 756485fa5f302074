-- ===== src/Mm/Buddy/Counting.antt =====
-- The pages on the free lists of src/mm/buddy.c, counted through `num`.
use native.Mathlib.Decide.{ℕ_discrete}
use lkc.Base.{ℕ, zero, suc, ◌+◌, ◌-◌, ◌*◌, ◌%◌, ◌^◌, ◌≤◌, ◌<◌, ◌≡◌, refl, arith, update, ap}
use lkc.Mm.{pgsize}
use lkc.Mm.Buddy.{PhysMemPool, buddy_max_order, memsize_loop, blank_pool, int_to_uint64}

-- The pages on the lists of order `i` up to `i + rounds - 1`.
pub pages_from : (ℕ → ℕ) → ℕ → ℕ → ℕ
pages_from num zero i = 0
pages_from num (suc rounds) i = num i * 2 ^ i + pages_from num rounds (i + 1)

pages_from-update_below :
    (num : ℕ → ℕ) (rounds i o x : ℕ)
    → o < i
    → pages_from (update num o x) rounds i ≡ pages_from num rounds i
unfolding pages_from
pages_from-update_below num zero i o x h = refl
pages_from-update_below num (suc rounds) i o x h =
    ground (arith, pages_from-update_below num rounds (i + 1) o x)

-- Writing one counter changes the sum by the difference, weighted.
pages_from-update :
    (num : ℕ → ℕ) (rounds i o x : ℕ)
    → i ≤ o
    → o < i + rounds
    → pages_from (update num o x) rounds i + num o * 2 ^ o ≡ pages_from num rounds i + x * 2 ^ o
unfolding pages_from
pages_from-update num zero i o x h k = absurd (omega arith)
pages_from-update num (suc rounds) i o x h k = elim (ℕ_discrete o i) [
  | yes e ↦ ground (arith, pages_from-update_below num rounds (i + 1) o x)
  | no ne ↦ ground (arith, pages_from-update num rounds (i + 1) o x)
]

pub free_pages : PhysMemPool → ℕ
free_pages pool = pages_from pool.num (buddy_max_order + 1) 0

-- Only the counters matter.
pub free_pages_of_num :
    (pool pool' : PhysMemPool) → pool'.num ≡ pool.num → free_pages pool' ≡ free_pages pool
unfolding free_pages
free_pages_of_num pool pool' e = rw e

-- One page more, or one less, on the list of order `o`.
pub free_pages-inc :
    (pool pool' : PhysMemPool) (o : ℕ)
    → o ≤ buddy_max_order
    → pool'.num ≡ update pool.num o (pool.num o + 1)
    → free_pages pool' ≡ free_pages pool + 2 ^ o
unfolding free_pages
free_pages-inc pool pool' o h e =
    rw e (omega (arith, pages_from-update pool.num (buddy_max_order + 1) 0 o (pool.num o + 1)))

pub free_pages-dec :
    (pool pool' : PhysMemPool) (o : ℕ)
    → o ≤ buddy_max_order
    → 0 < pool.num o
    → pool'.num ≡ update pool.num o (pool.num o - 1)
    → free_pages pool' + 2 ^ o ≡ free_pages pool
unfolding free_pages
free_pages-dec pool pool' o h pos e = rw e (
    omega (
      arith,
      pages_from-update pool.num (buddy_max_order + 1) 0 o (pool.num o - 1),
      ap (λ (t : ℕ). t * 2 ^ o) step,
    ))
  where
    step : pool.num o ≡ pool.num o - 1 + 1
    step = omega arith

int_to_uint64_small : (x : ℕ) → x < 2 ^ 31 → int_to_uint64 x ≡ x
int_to_uint64_small x h = ground arith

-- The loop in the code sums up the same pages, in bytes, as long as no product overflows.
memsize_loop-eq :
    (pool : PhysMemPool) (rounds i memsize : ℕ)
    → memsize < 2 ^ 64
    → pages_from pool.num rounds i * pgsize < 2 ^ 31
    → memsize_loop pool rounds i memsize
      ≡ (memsize + pages_from pool.num rounds i * pgsize) % 2 ^ 64
unfolding memsize_loop pages_from
memsize_loop-eq pool zero i memsize h k = omega arith
memsize_loop-eq pool (suc rounds) i memsize h k =
    let small : pool.num i * pgsize * 2 ^ i < 2 ^ 31 = omega arith in
    let exact : int_to_uint64 (pool.num i * pgsize * 2 ^ i) ≡ pool.num i * pgsize * 2 ^ i =
      int_to_uint64_small (pool.num i * pgsize * 2 ^ i) small in
    let start = (memsize + int_to_uint64 (pool.num i * pgsize * 2 ^ i)) % 2 ^ 64 in
    omega (arith, exact, memsize_loop-eq pool rounds (i + 1) start (omega arith) (omega arith))

pub memsize-free_pages :
    (pool : PhysMemPool) (memsize : ℕ)
    → memsize < 2 ^ 64
    → free_pages pool * pgsize < 2 ^ 31
    → memsize_loop pool (buddy_max_order + 1) 0 memsize
      ≡ (memsize + free_pages pool * pgsize) % 2 ^ 64
unfolding free_pages
memsize-free_pages pool memsize h k = memsize_loop-eq pool (buddy_max_order + 1) 0 memsize h k

pub free_pages-blank :
    (start_page start_addr n : ℕ) → free_pages (blank_pool start_page start_addr n) ≡ 0
unfolding free_pages pages_from
free_pages-blank start_page start_addr n = refl
