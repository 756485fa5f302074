-- ===== src/Mm/Kalloc/Pages.antt =====
-- The allocation of counted pages in src/mm/kalloc.c, on one pool of src/mm/buddy.c for each processor.
--
-- A page is its index over all pools, `i * per + p` for the page `p` of the pool `i`; page and physical
-- address determine each other. A panic and a failed ASSERT are `none`. `pages_cnt` is an int, seen
-- modulo 2 ^ 32. `reclaims` says that `alloc_fail` is called before the return; what it frees is its own
-- calls of `kfree`. The depth of disabled interrupts is not modelled.
use lkc.Base.{
  ℕ, zero, suc, ◌+◌, ◌-◌, ◌*◌, ◌/◌, ◌%◌, ◌^◌, Bool, true, false, not, ◌&&◌, ◌||◌, Option, none,
  some, ltb, leb, ◌==◌, if◌then◌else◌, update,
}
use lkc.Base.Panic.{◌>>=◌, ◌>>◌, assert}
use lkc.Klib.Bytes.{memset}
use lkc.Mm.{pgsize}
use lkc.Mm.Buddy.{PhysMemPool, buddy_get_pages, buddy_free_pages}
use lkc.Mm.Kalloc.{size_to_page_order}

abbrev pub pages_threshold : ℕ
pages_threshold = 500

pub record Kmem : Type 0 where
  pub pools : ℕ → PhysMemPool
  pub refcnt : ℕ → ℕ
  pub pages_cnt : ℕ

-- What an allocation returns: the page, and whether `alloc_fail` is called
pub record Taken : Type 0 where
  pub page : ℕ
  pub reclaims : Bool

-- `pages_cnt` below the threshold, as an int
abbrev pub is_low : ℕ → Bool
is_low cnt = ltb cnt pages_threshold || leb (2 ^ 31) cnt

module _ (ncpu per : ℕ) where
  abbrev pub page_at : ℕ → ℕ → ℕ
  page_at i p = i * per + p

  abbrev pub get_pages_cpu : ℕ → ℕ
  get_pages_cpu g = g / per

  -- The loop of `steal_mem` from the pool `i` on
  unfoldable pub steal_loop :
      ℕ → ℕ → ℕ → ℕ → (ℕ → PhysMemPool) → Option ((ℕ → PhysMemPool) × Option (ℕ × ℕ))
  steal_loop zero i cur_id order pools = some (pools, none)
  steal_loop (suc rounds) i cur_id order pools = elim (i == cur_id) [
    | true ↦ steal_loop rounds (suc i) cur_id order pools
    | false ↦ buddy_get_pages (pools i) order >>= λ r. elim r.1 [
      | some p ↦ some (update pools i r.0, some (i, p))
      | none ↦ steal_loop rounds (suc i) cur_id order (update pools i r.0)
    ]
  ]

  unfoldable pub steal_mem : ℕ → ℕ → (ℕ → PhysMemPool) → Option ((ℕ → PhysMemPool) × Option (ℕ × ℕ))
  steal_mem cur_id order pools = steal_loop ncpu 0 cur_id order pools

  -- A block from the own pool of the processor, or from another
  unfoldable pub get_or_steal :
      ℕ → ℕ → (ℕ → PhysMemPool) → Option ((ℕ → PhysMemPool) × Option (ℕ × ℕ))
  get_or_steal id order pools = buddy_get_pages (pools id) order >>= λ r. elim r.1 [
    | some p ↦ some (update pools id r.0, some (id, p))
    | none ↦ steal_mem id order (update pools id r.0)
  ]

  -- `1 << page->order`
  abbrev pub page_num : Kmem → ℕ → ℕ → ℕ
  page_num k i p = 2 ^ ((k.pools i).page_metadata p).order

  -- The reference count of the new page, and the count of free pages
  unfoldable pub hand_out : Bool → ℕ → ℕ → Kmem → Option (Kmem × Option Taken)
  hand_out recycling i p k =
      let cnt = (k.pages_cnt + 2 ^ 32 - page_num k i p) % 2 ^ 32 in
      assert (k.refcnt (page_at i p) == 0)
      >> some (
        record k { refcnt = update k.refcnt (page_at i p) 1; pages_cnt = cnt },
        some (record { page = page_at i p; reclaims = not recycling && is_low cnt }),
      )

  -- What `kmalloc` and `kalloc` share
  unfoldable pub alloc_order : ℕ → Bool → ℕ → Kmem → Option (Kmem × Option Taken)
  alloc_order id recycling order k = assert (ltb id ncpu) >> get_or_steal id order k.pools >>= λ r.
      elim r.1 [
        | none ↦ some (record k { pools = r.0 }, none)
        | some b ↦ hand_out recycling b.0 b.1 (record k { pools = r.0 })
      ]

  abbrev pub kmalloc_order : ℕ → ℕ
  kmalloc_order size = if leb size pgsize then 0 else size_to_page_order size

  abbrev pub kmalloc : ℕ → Bool → ℕ → Kmem → Option (Kmem × Option Taken)
  kmalloc id recycling size k = alloc_order id recycling (kmalloc_order size) k

  abbrev pub kalloc : ℕ → Bool → Kmem → Option (Kmem × Option Taken)
  kalloc id recycling k = alloc_order id recycling 0 k

  -- `kzalloc`, with the memory; `base` is the address of the first page
  unfoldable pub kzalloc :
      ℕ → ℕ → Bool → ℕ → Kmem → (ℕ → ℕ) → Option ((Kmem × Option Taken) × (ℕ → ℕ))
  kzalloc base id recycling size k m = kmalloc id recycling size k >>= λ r.
      some (r, elim r.1 [ none ↦ m | some t ↦ memset m (base + t.page * pgsize) 0 size ])

  unfoldable pub kfree : ℕ → Kmem → Option Kmem
  kfree g k = elim (k.refcnt g) [
    | zero ↦ none
    | suc rest ↦
        let k' : Kmem = record k { refcnt = update k.refcnt g rest } in
        elim (leb 1 rest) [
          | true ↦ some k'
          | false ↦
              assert (((k.pools (get_pages_cpu g)).page_metadata (g % per)).allocated == 1)
              >> assert (ltb (get_pages_cpu g) ncpu)
              >> buddy_free_pages (k.pools (get_pages_cpu g)) (g % per)
              >>= λ pool. some (record k' {
                pools = update k.pools (get_pages_cpu g) pool;
                pages_cnt = (k.pages_cnt + page_num k (get_pages_cpu g) (g % per)) % 2 ^ 32;
              })
        ]
  ]

  unfoldable pub share_page : ℕ → Kmem → Option Kmem
  share_page g k =
      assert (leb 1 (k.refcnt g)) >> some (record k { refcnt = update k.refcnt g (k.refcnt g + 1) })
