-- ===== src/Mm/Buddy/FreeMem.antt =====
-- `get_free_mem` of src/mm/buddy.c against the blocks that are held.
use lkc.Base.{ℕ, ◌+◌, ◌-◌, ◌*◌, ◌%◌, ◌^◌, ◌≤◌, ◌<◌, ◌≡◌, List, [], ◌∷◌, arith}
use lkc.Mm.{pgsize}
use lkc.Mm.Buddy.{PhysMemPool, buddy_max_order, memsize_loop, get_free_mem}
use lkc.Mm.Buddy.Counting.{memsize-free_pages}
use lkc.Mm.Buddy.Trace.{Held, Reach, held_pages}
use lkc.Mm.Buddy.Safety.{Reach-Sound}

-- Pools after any calls, with the number of pages in all of them and of those that are held
pub data Pools : List PhysMemPool → ℕ → ℕ → Type 0 where
  none : Pools [] 0 0
  more :
      {n pages held_all : ℕ} {pool : PhysMemPool} {pools : List PhysMemPool} {held : Held}
      → n * pgsize < 2 ^ 31
      → Reach n pool held
      → Pools pools pages held_all
      → Pools (pool ∷ pools) (n + pages) (held_pages held + held_all)

get_free_mem-from :
    {pools : List PhysMemPool} {pages held_all : ℕ} (memsize : ℕ)
    → memsize < 2 ^ 64
    → Pools pools pages held_all
    → (held_all ≤ pages)
      × (get_free_mem pools memsize ≡ (memsize + (pages - held_all) * pgsize) % 2 ^ 64)
unfolding get_free_mem
get_free_mem-from memsize h none = (omega arith, omega arith)
get_free_mem-from memsize h (more {pool = pool} k r rest) =
    let s = Reach-Sound k r in
    let here = memsize-free_pages pool memsize h (omega (arith, s.balance)) in
    let next = memsize_loop pool (buddy_max_order + 1) 0 memsize in
    let (f, g) = get_free_mem-from next (omega (arith, here)) rest in
    (omega (arith, f, s.balance), omega (arith, here, f, g, s.balance))

-- For pools of less than 2 ^ 31 bytes each, after any calls on them, `get_free_mem` is the size in
-- bytes of all pages but those of the held blocks, modulo 2 ^ 64.
pub get_free_mem_lem :
    {pools : List PhysMemPool} {pages held_all : ℕ}
    → Pools pools pages held_all
    → (held_all ≤ pages) × (get_free_mem pools 0 ≡ (pages - held_all) * pgsize % 2 ^ 64)
get_free_mem_lem r = let (f, g) = get_free_mem-from 0 (omega arith) r in (f, omega (arith, g))
