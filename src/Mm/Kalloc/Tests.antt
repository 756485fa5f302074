-- ===== src/Mm/Kalloc/Tests.antt =====
-- Sizes and pools of src/mm/kalloc.c.
use lkc.Base.{ℕ, ◌*◌, ◌^◌, ◌≤◌, ◌<◌, ◌≡◌, refl, false, Option, some, arith}
use lkc.Mm.Buddy.{PhysMemPool, start_mem, init_buddy}
use lkc.Mm.Buddy.Boot.{init_pages_lem}
use lkc.Mm.Kalloc.Pages.{Kmem, Taken, alloc_order}
use lkc.Mm.Kalloc.Life.{Reach, Counted, Answers, Reach-Counted, Reach-Answers}
use lkc.Mm.Kalloc.{order_loop, size_to_page_order, size_to_page_order_lem}

five_pages : size_to_page_order 20480 ≡ 3
unfolding size_to_page_order order_loop
five_pages = refl

size_to_page_order_lem_example :
    (20480 ≤ 2 ^ size_to_page_order 20480 * 4096)
    × ((o : ℕ) → o < size_to_page_order 20480 → 2 ^ o * 4096 < 20480)
size_to_page_order_lem_example = size_to_page_order_lem 20480 (omega arith) (omega arith)

-- Two processors with five pages each, and a block of two pages that the first one takes
booted : (pool : PhysMemPool) × (init_buddy 2152726528 start_mem 5 ≡ some pool)
unfolding init_buddy
booted = let (pool, e, r) = init_pages_lem 2152726528 start_mem 5 (omega arith) in (pool, e)

abbrev two_pools : Kmem
two_pools = record { pools = λ i. booted.0; refcnt = λ g. 0; pages_cnt = 10 }

two_pools-Reach : Reach 2 5 two_pools
two_pools-Reach =
    Reach.start two_pools (λ i. 2152726528) (λ i. start_mem) (λ i c. booted.1) (λ g. refl)

Reach-Answers_example : Answers 2 5 two_pools
Reach-Answers_example = Reach-Answers (omega arith) two_pools-Reach

two_pools-Answers : Answers 2 5 two_pools
two_pools-Answers = Reach-Answers (omega arith) two_pools-Reach

one_taken : (r : Kmem × Option Taken) × (alloc_order 2 5 0 false 1 two_pools ≡ some r)
one_taken = let (r, e, n) = two_pools-Answers.alloc 0 false 1 (omega arith) (omega arith) in (r, e)

one_taken-Reach : Reach 2 5 one_taken.0.0
one_taken-Reach = Reach.alloc 0 false 1 two_pools-Reach (omega arith) (omega arith) one_taken.1

Reach-Counted_example : Counted 2 5 one_taken.0.0
Reach-Counted_example = Reach-Counted (omega arith) one_taken-Reach
