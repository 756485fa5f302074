-- ===== src/Mm/Buddy/Tests.antt =====
-- Runs of src/mm/buddy.c on a pool of five pages, and the theorems at them.
use lkc.Base.{ℕ, ◌+◌, ◌-◌, ◌*◌, ◌%◌, ◌^◌, ◌≤◌, ◌≡◌, refl, ◌⊎◌, [], ◌∷◌, Option, none, some, arith}
use lkc.Mm.Buddy.{
  PhysMemPool, buddy_max_order, start_mem, init_pages, init_buddy, buddy_get_pages,
  buddy_free_pages, blank_pool, get_buddy, split_once, split_loop, split_page, merge_once,
  merge_page, first_free, memsize_loop, free_loop, get_free_mem,
}
use lkc.Mm.Buddy.Pages.{Got, Freed, buddy_get_pages_lem, buddy_free_pages_lem}
use lkc.Mm.Buddy.Boot.{Boots, init_buddy_lem}
use lkc.Mm.Buddy.Trace.{here, there, Reach, boot, get, free}
use lkc.Mm.Buddy.FreeMem.{Pools, more, get_free_mem_lem}
use lkc.Mm.Buddy.Safety.{
  Sound, PairwiseDisjoint, Reach-Sound, Reach-PairwiseDisjoint, Frees, Reach-total,
}

-- An address below the memory of the pools
abbrev metadata : ℕ
metadata = 2152726528

abbrev or_blank : Option PhysMemPool → PhysMemPool
or_blank none = blank_pool metadata start_mem 5
or_blank (some pool) = pool

abbrev or_none : Option (PhysMemPool × Option ℕ) → PhysMemPool
or_none none = blank_pool metadata start_mem 5
or_none (some (pool, p)) = pool

-- Five pages make a block of four and a block of one.
abbrev booted : PhysMemPool
booted = or_blank (init_buddy metadata start_mem 5)

-- What a run computes with, for the `unfolding` lines below.
code : Unit {0}
unfolding init_buddy init_pages buddy_get_pages buddy_free_pages first_free free_loop merge_page
    get_buddy merge_once memsize_loop split_page split_loop split_once
code = tt

booted_lists :
    (booted.lists 2 ≡ 0 ∷ [])
    × (booted.lists 0 ≡ 4 ∷ [])
    × (booted.lists 1 ≡ [])
    × (booted.num 2 ≡ 1)
unfolding code
booted_lists = (refl, refl, refl, refl)

boot_run : init_buddy metadata start_mem 5 ≡ some booted
unfolding code
boot_run = refl

-- A block of two pages is cut from the block of four.
abbrev cut : PhysMemPool
cut = or_none (buddy_get_pages booted 1)

get_run : buddy_get_pages booted 1 ≡ some (cut, some 0)
unfolding code
get_run = refl

cut_lists : (cut.lists 2 ≡ []) × (cut.lists 1 ≡ 2 ∷ []) × (cut.lists 0 ≡ 4 ∷ [])
unfolding code
cut_lists = (refl, refl, refl)

abbrev cut_again : PhysMemPool
cut_again = or_none (buddy_get_pages cut 0)

get_run_again : buddy_get_pages cut 0 ≡ some (cut_again, some 4)
unfolding code
get_run_again = refl

-- Freeing the block of two pages makes the block of four again.
abbrev joined : PhysMemPool
joined = or_blank (buddy_free_pages cut_again 0)

free_run : buddy_free_pages cut_again 0 ≡ some joined
unfolding code
free_run = refl

joined_lists : (joined.lists 2 ≡ 0 ∷ []) × (joined.lists 1 ≡ []) × (joined.lists 0 ≡ [])
unfolding code
joined_lists = (refl, refl, refl)

two_held : Reach 5 cut_again ((4, 0) ∷ (0, 1) ∷ [])
two_held =
    get 4 0 (get 0 1 (boot metadata start_mem boot_run) (omega arith) get_run) (omega arith)
      get_run_again

one_left : Reach 5 joined ((4, 0) ∷ [])
one_left = free 0 1 two_held (there (4, 0) (here 0 1 [])) free_run

booted_sound : Sound 5 booted []
booted_sound = Reach-Sound (omega arith) (boot metadata start_mem boot_run)

Reach-Sound_example : Sound 5 joined ((4, 0) ∷ [])
Reach-Sound_example = Reach-Sound (omega arith) one_left

Reach-PairwiseDisjoint_example : PairwiseDisjoint ((4, 0) ∷ (0, 1) ∷ [])
Reach-PairwiseDisjoint_example = Reach-PairwiseDisjoint (omega arith) two_held

Reach-total_example :
    ((r : PhysMemPool × Option ℕ) × (buddy_get_pages cut_again 2 ≡ some r))
    × Frees cut_again ((4, 0) ∷ (0, 1) ∷ [])
Reach-total_example = Reach-total 2 (omega arith) two_held (omega arith)

buddy_get_pages_lem_example :
    ((buddy_get_pages booted 1 ≡ some (booted, none))
      × ((o : ℕ) → 1 ≤ o → o ≤ buddy_max_order → booted.lists o ≡ []))
    ⊎ ((pool' : PhysMemPool) × (p : ℕ) × (buddy_get_pages booted 1 ≡ some (pool', some p))
        × Got 5 1 booted booted_sound.owner pool' p)
buddy_get_pages_lem_example = buddy_get_pages_lem 1 booted_sound.valid (omega arith)

cut_sound : Sound 5 cut ((0, 1) ∷ [])
cut_sound =
    Reach-Sound (omega arith) (get 0 1 (boot metadata start_mem boot_run) (omega arith) get_run)

buddy_free_pages_lem_example :
    (pool' : PhysMemPool) × (buddy_free_pages cut 0 ≡ some pool')
    × Freed 5 1 cut cut_sound.owner 0 pool'
buddy_free_pages_lem_example = buddy_free_pages_lem 0 cut_sound.valid cut_sound.handed.0

init_buddy_lem_example : Boots metadata start_mem 11264 (init_buddy metadata start_mem 11264)
init_buddy_lem_example = init_buddy_lem metadata start_mem 11264 (omega arith)

get_free_mem_lem_example :
    (3 + 0 ≤ 5 + 5) × (get_free_mem (cut_again ∷ booted ∷ []) 0 ≡ (5 + 5 - (3 + 0)) * 4096 % 2 ^ 64)
get_free_mem_lem_example =
    get_free_mem_lem (
      more (omega arith) two_held
        (more (omega arith) (boot metadata start_mem boot_run) Pools.none))
