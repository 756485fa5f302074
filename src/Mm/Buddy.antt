-- ===== src/Mm/Buddy.antt =====
-- The buddy allocator: src/mm/buddy.c, with `struct page`, `struct free_list` and `struct
-- phys_mem_pool` of include/memory/buddy.h.
--
-- A `struct page *` is its index in the pool's `page_metadata`. An intrusive list is the list of the
-- indices on it, front first; a node stands on one list at most, and `list_del` takes it off the list
-- that it stands on. `none` is a panic: an ASSERT that fails, or a null pointer that is followed.
-- The pool's spinlock makes each function one step; the interrupt depth (`pop_off`) is not modelled,
-- nor is `max` in `merge_page`, which nothing reads.
pub mod Mate
pub mod Layout
pub mod Counting
pub mod Splitting
pub mod Merging
pub mod Invariant
pub mod SplitStep
pub mod SplitLoop
pub mod MergeStep
pub mod Pairing
pub mod MergeLoop
pub mod Marking
pub mod Pages
pub mod Boot
pub mod Trace
pub mod Safety
pub mod FreeMem
mod Tests
use mathlib.Core.Option
use lkc.Base.{
  ℕ, zero, suc, ◌+◌, ◌-◌, ◌*◌, ◌/◌, ◌%◌, ◌^◌, Bool, true, false, ◌&&◌, List, [], ◌∷◌, Option, none,
  some, ltb, leb, ◌==◌, if◌then◌else◌, update, erase,
}
use Prim.Native.Nat.{bit_xor}
use lkc.Base.Panic.{◌>>=◌, ◌>>◌, assert}
use lkc.Mm.{pgsize}

abbrev pub buddy_max_order : ℕ
buddy_max_order = 13

-- The fields of `struct page` that the allocator reads or writes.
pub record Page : Type 0 where
  pub allocated : ℕ
  pub order : ℕ

-- `start_page` is the address of the metadata, `lists o` and `num o` are `freelists[o]`. A `num` that goes below 0 would stop at 0 here;
-- `Invariant.counted` rules that out.
pub record PhysMemPool : Type 0 where
  pub start_addr : ℕ
  pub mem_size : ℕ
  pub start_page : ℕ
  pub page_metadata : ℕ → Page
  pub lists : ℕ → List ℕ
  pub num : ℕ → ℕ

abbrev pub set_order : PhysMemPool → ℕ → ℕ → PhysMemPool
set_order pool p o = record pool {
  page_metadata = update pool.page_metadata p (record (pool.page_metadata p) { order = o });
}

abbrev pub set_allocated : PhysMemPool → ℕ → ℕ → PhysMemPool
set_allocated pool p a = record pool {
  page_metadata = update pool.page_metadata p (record (pool.page_metadata p) { allocated = a });
}

-- `list_add(&page->list, &pool->freelists[o].lists); pool->freelists[o].num++;`
abbrev pub push_page : PhysMemPool → ℕ → ℕ → PhysMemPool
push_page pool p o = record pool {
  lists = update pool.lists o (p ∷ pool.lists o);
  num = update pool.num o (pool.num o + 1);
}

-- `list_del(&page->list); pool->freelists[page->order].num--;`
abbrev pub unlink_page : PhysMemPool → ℕ → PhysMemPool
unlink_page pool p =
    let o = (pool.page_metadata p).order in
    record pool { lists = λ i. erase p (pool.lists i); num = update pool.num o (pool.num o - 1) }

page_to_offset : ℕ → ℕ
page_to_offset p = p * pgsize

offset_to_page : ℕ → Option ℕ
offset_to_page offset = do assert (offset % pgsize == 0); some (offset / pgsize)

-- The inner `none` is the null pointer for a page with no buddy in the pool.
pub get_buddy : PhysMemPool → ℕ → Option (Option ℕ)
unfolding page_to_offset offset_to_page
get_buddy pool p = do
  assert (ltb (pool.page_metadata p).order buddy_max_order)
  let buddy_off = bit_xor (page_to_offset p) (2 ^ ((pool.page_metadata p).order + 12))
  if leb pool.mem_size buddy_off then some none else Option.map some (offset_to_page buddy_off)

-- `*p` of a pointer that may be null.
abbrev pub deref : Option ℕ → Option ℕ
deref p = p

-- One round of the loop of `split_page`: the upper half goes to the free lists.
pub split_once : PhysMemPool → ℕ → Option PhysMemPool
split_once pool p = do
  let o = (pool.page_metadata p).order - 1
  let pool' = set_order pool p o
  found ← get_buddy pool' p
  buddy ← deref found
  assert ((pool'.page_metadata buddy).allocated == 0)
  some (push_page (set_order pool' buddy o) buddy o)

-- The loop `while (page->order > order)`. Each round lowers the order, so that the first order is
-- fuel enough.
pub split_loop : ℕ → PhysMemPool → ℕ → ℕ → Option PhysMemPool
split_loop zero pool order p = if ltb order (pool.page_metadata p).order then none else some pool
split_loop (suc fuel) pool order p = elim (ltb order (pool.page_metadata p).order) [
  | false ↦ some pool
  | true ↦ split_once pool p >>= λ pool'. split_loop fuel pool' order p
]

pub split_page : PhysMemPool → ℕ → ℕ → Option PhysMemPool
split_page pool order p = do
  assert (ltb order (pool.page_metadata p).order)
  split_loop (pool.page_metadata p).order pool order p

-- The merge of `p` with its free buddy: the lower of the two is the page of the next order.
pub merge_once : PhysMemPool → ℕ → ℕ → PhysMemPool × ℕ
merge_once pool p buddy =
    let pool' = unlink_page pool buddy in
    let merge = if ltb buddy p then buddy else p in
    (set_order pool' merge ((pool'.page_metadata merge).order + 1), merge)

-- Each call raises the order, which stops at `buddy_max_order`: that many calls are fuel enough.
pub merge_page : ℕ → PhysMemPool → ℕ → Option (PhysMemPool × ℕ)
merge_page zero pool p =
    if (pool.page_metadata p).order == buddy_max_order then some (pool, p) else none
merge_page (suc fuel) pool p =
    let page = pool.page_metadata p in
    elim (page.order == buddy_max_order) [
      | true ↦ some (pool, p)
      | false ↦ get_buddy pool p >>= elim [
        | none ↦ some (pool, p)
        | some buddy ↦
            let mate = pool.page_metadata buddy in
            elim (mate.allocated == 0 && mate.order == page.order) [
              | true ↦ let (pool', merge) = merge_once pool p buddy in merge_page fuel pool' merge
              | false ↦ some (pool, p)
            ]
      ]
    ]

-- The first page of the first list that is not empty, from `order` on: `rounds` lists are left.
pub first_free : PhysMemPool → ℕ → ℕ → Option ℕ
first_free pool zero i = none
first_free pool (suc rounds) i = elim (pool.lists i) [
  | [] ↦ first_free pool rounds (i + 1)
  | p ∷ ps ↦ some p
]

-- The page that is handed out, or the null pointer.
unfoldable pub buddy_get_pages : PhysMemPool → ℕ → Option (PhysMemPool × Option ℕ)
buddy_get_pages pool order = do
  assert (leb order buddy_max_order)
  elim (first_free pool (buddy_max_order + 1 - order) order) [
    | none ↦ some (pool, none)
    | some p ↦ do
      let pool' = unlink_page pool p
      split ←
          if ltb order (pool'.page_metadata p).order then split_page pool' order p else some pool'
      let taken = set_allocated split p 1
      assert ((taken.page_metadata p).order == order)
      some (taken, some p)
  ]

unfoldable pub buddy_free_pages : PhysMemPool → ℕ → Option PhysMemPool
buddy_free_pages pool p = do
  let freed = set_allocated pool p 0
  (merged, page) ←
      (if ltb (freed.page_metadata p).order buddy_max_order
        then merge_page buddy_max_order freed p
        else some (freed, p))
  some (push_page merged page (merged.page_metadata page).order)

-- An `int` that is computed modulo 2 ^ 32, converted to a uint64
abbrev pub int_to_uint64 : ℕ → ℕ
int_to_uint64 x = if ltb (x % 2 ^ 32) (2 ^ 31) then x % 2 ^ 32 else x % 2 ^ 32 + (2 ^ 64 - 2 ^ 32)

-- The loop that sums up the free lists of order `i` on, in `init_buddy` and `get_free_mem`.
-- `memsize` is a uint64, the product an int.
pub memsize_loop : PhysMemPool → ℕ → ℕ → ℕ → ℕ
memsize_loop pool zero i memsize = memsize
memsize_loop pool (suc rounds) i memsize =
    memsize_loop pool rounds (i + 1)
      ((memsize + int_to_uint64 (pool.num i * pgsize * 2 ^ i)) % 2 ^ 64)

-- `get_free_mem` over the pools of all CPUs.
unfoldable pub get_free_mem : List PhysMemPool → ℕ → ℕ
get_free_mem [] memsize = memsize
get_free_mem (pool ∷ pools) memsize =
    get_free_mem pools (memsize_loop pool (buddy_max_order + 1) 0 memsize)

-- The loop that frees the pages from `page_idx` on, in `init_buddy`.
pub free_loop : ℕ → ℕ → PhysMemPool → Option PhysMemPool
free_loop zero page_idx pool = some pool
free_loop (suc rounds) page_idx pool =
    buddy_free_pages pool page_idx >>= λ pool'. free_loop rounds (page_idx + 1) pool'

-- The pool before its pages are freed: each page is a block of its own that is handed out.
abbrev pub blank_pool : ℕ → ℕ → ℕ → PhysMemPool
blank_pool start_page start_addr page_num = record {
  start_addr = start_addr;
  mem_size = pgsize * page_num;
  start_page = start_page;
  page_metadata = λ i. record { allocated = 1; order = 0 };
  lists = λ i. [];
  num = λ i. 0;
}

abbrev pub start_mem : ℕ
start_mem = 2189426688

-- The size of `struct page`: two ints and a list, a spinlock of an int and two pointers, a count, and
-- three words, as the compiler lays them out without lock tracing
abbrev pub page_bytes : ℕ
page_bytes = 80

-- What `init_buddy` does after its assertion that the metadata end below the memory of the pools
unfoldable pub init_pages : ℕ → ℕ → ℕ → Option PhysMemPool
init_pages start_page start_addr page_num = do
  pool ← free_loop page_num 0 (blank_pool start_page start_addr page_num)
  assert (memsize_loop pool (buddy_max_order + 1) 0 0 == pool.mem_size)
  some pool

unfoldable pub init_buddy : ℕ → ℕ → ℕ → Option PhysMemPool
init_buddy start_page start_addr page_num = do
  assert (ltb ((start_page + page_num * page_bytes) % 2 ^ 64) start_mem)
  init_pages start_page start_addr page_num
