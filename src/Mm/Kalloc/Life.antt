-- ===== src/Mm/Kalloc/Life.antt =====
-- Any sequence of the calls of src/mm/kalloc.c on the pools of all processors.
use mathlib.Core.Path.{subst}
use lkc.Base.{
  ℕ, ◌+◌, ◌*◌, ◌^◌, ◌≤◌, ◌<◌, ◌≡◌, sym, ap, ◌∙◌, Bool, ltb, [], Option, none, some, arith, inl, inr,
  ◌⊎◌,
}
use lkc.Mm.{pgsize}
use lkc.Mm.Buddy.{buddy_max_order, init_buddy}
use lkc.Mm.Buddy.Trace.{Held, boot}
use lkc.Mm.Buddy.Safety.{PairwiseDisjoint, Reach-PairwiseDisjoint}
use lkc.Mm.Kalloc.Pages.{Kmem, Taken, page_at, alloc_order, kfree, share_page}
use lkc.Mm.Kalloc.Counts.{Alive, NewPage, alloc_order_lem, share_page_lem}
use lkc.Mm.Kalloc.Free.{kfree_lem}

-- The states of the allocator after `init_buddy` of each pool, with no page counted. `kmalloc` and
-- `kalloc` are calls of `alloc_order`; `kfree` and `share_page` are called with counted pages.
pub data Reach (ncpu per : ℕ) : Kmem → Type 0 where
  start :
      (k : Kmem) (start_page start_addr : ℕ → ℕ)
      → ((i : ℕ) → i < ncpu → init_buddy (start_page i) (start_addr i) per ≡ some (k.pools i))
      → ((g : ℕ) → k.refcnt g ≡ 0)
      → Reach ncpu per k
  alloc :
      {k k' : Kmem} {t : Option Taken} (id : ℕ) (recycling : Bool) (order : ℕ)
      → Reach ncpu per k
      → id < ncpu
      → order ≤ buddy_max_order
      → alloc_order ncpu per id recycling order k ≡ some (k', t)
      → Reach ncpu per k'
  release :
      {k k' : Kmem} (i p : ℕ)
      → Reach ncpu per k
      → i < ncpu
      → p < per
      → 0 < k.refcnt (page_at ncpu per i p)
      → kfree ncpu per (page_at ncpu per i p) k ≡ some k'
      → Reach ncpu per k'
  share :
      {k k' : Kmem} (i p : ℕ)
      → Reach ncpu per k
      → i < ncpu
      → p < per
      → 0 < k.refcnt (page_at ncpu per i p)
      → share_page ncpu per (page_at ncpu per i p) k ≡ some k'
      → Reach ncpu per k'

-- Some blocks of the pools are handed out, pairwise disjoint in each pool, and exactly their first pages
-- are counted.
pub record Counted (ncpu per : ℕ) (k : Kmem) : Type 0 where
  pub held : ℕ → Held
  pub alive : Alive ncpu per held k
  pub disjoint : (i : ℕ) → i < ncpu → PairwiseDisjoint (held i)

abbrev Live : ℕ → ℕ → Kmem → Type 0
Live ncpu per k = (h : ℕ → Held) × Alive ncpu per h k

got : (o : Option Kmem) (u v : Kmem) → o ≡ some u → o ≡ some v → u ≡ v
got o u v e f = cc

got_pair :
    (o : Option (Kmem × Option Taken)) (r : Kmem × Option Taken) (v : Kmem) (t : Option Taken)
    → o ≡ some r
    → o ≡ some (v, t)
    → r.0 ≡ v
got_pair o r v t e f = cc

-- The calls that return in a state, and what they do to the count of the page
pub record Answers (ncpu per : ℕ) (k : Kmem) : Type 0 where
  pub alloc :
      (id : ℕ) (recycling : Bool) (order : ℕ)
      → id < ncpu
      → order ≤ buddy_max_order
      → (r : Kmem × Option Taken) × (alloc_order ncpu per id recycling order k ≡ some r)
        × ((r ≡ (k, none))
            ⊎ ((t : Taken) × (r.1 ≡ some t) × (k.refcnt t.page ≡ 0) × (r.0.refcnt t.page ≡ 1)))
  pub free :
      (i p : ℕ)
      → i < ncpu
      → p < per
      → 0 < k.refcnt (page_at ncpu per i p)
      → (k' : Kmem) × (kfree ncpu per (page_at ncpu per i p) k ≡ some k')
        × (k'.refcnt (page_at ncpu per i p) + 1 ≡ k.refcnt (page_at ncpu per i p))
  pub share :
      (i p : ℕ)
      → i < ncpu
      → p < per
      → 0 < k.refcnt (page_at ncpu per i p)
      → (k' : Kmem) × (share_page ncpu per (page_at ncpu per i p) k ≡ some k')
        × (k'.refcnt (page_at ncpu per i p) ≡ k.refcnt (page_at ncpu per i p) + 1)

module _ {ncpu per : ℕ} (small : per * pgsize < 2 ^ 31) where
  Reach-Live : {k : Kmem} → Reach ncpu per k → Live ncpu per k
  Reach-Live (start k start_page start_addr b z) = (
    λ i. [],
    record {
      reach = λ i c. boot (start_page i) (start_addr i) (b i c);
      counts = λ i p c l. ap (ltb 0) (z (page_at ncpu per i p));
    },
  )
  Reach-Live (alloc {k} {k'} {t} id recycling order r c le e) =
      let (h, a) = Reach-Live r in
      let (s, f, n) = alloc_order_lem ncpu per small h id recycling order k a c le in
      let same = got_pair (alloc_order ncpu per id recycling order k) s k' t f e in
      elim n [
        | inl x ↦ (h, subst (Alive ncpu per h) (sym (ap (λ y. y.0) x) ∙ same) a)
        | inr (i, p, y) ↦ (_, subst (Alive ncpu per _) same y.alive)
      ]
  Reach-Live (release {k} {k'} i p r c l z e) =
      let (h, a) = Reach-Live r in
      let (s, f, m, n) = kfree_lem ncpu per small h i p k a c l z in
      let same = got (kfree ncpu per (page_at ncpu per i p) k) s k' f e in
      elim n [
        | inl x ↦ (h, subst (Alive ncpu per h) same x.alive)
        | inr x ↦ (_, subst (Alive ncpu per _) same x.alive)
      ]
  Reach-Live (share {k} {k'} i p r c l z e) =
      let (h, a) = Reach-Live r in
      let (s, f, m, n) = share_page_lem ncpu per small h i p k a z in
      (h, subst (Alive ncpu per h) (got (share_page ncpu per (page_at ncpu per i p) k) s k' f e) m)

  -- For any number of processors, each with a pool of less than 2 ^ 31 bytes, after any sequence of
  -- allocations of orders up to the largest, and of kfree and `share_page` on counted pages, each
  -- pool is in a state of the buddy allocator with some blocks handed out, these are pairwise
  -- disjoint, and the pages with a count above 0 are exactly their first pages.
  pub Reach-Counted : {k : Kmem} → Reach ncpu per k → Counted ncpu per k
  Reach-Counted r =
      let (h, a) = Reach-Live r in
      record { held = h; alive = a; disjoint = λ i c. Reach-PairwiseDisjoint small (a.reach i c) }

  -- For any number of processors, each with a pool of less than 2 ^ 31 bytes, after any sequence of
  -- allocations of orders up to the largest, and of kfree and `share_page` on counted pages: an
  -- allocation by a processor returns, with no panic: the null pointer with no change, or a page
  -- whose count was 0 and is 1; kfree of a counted page returns with its count one less, and
  -- `share_page` with its count one more.
  pub Reach-Answers : {k : Kmem} → Reach ncpu per k → Answers ncpu per k
  Reach-Answers {k} r =
      let (h, a) = Reach-Live r in
      record {
        alloc = λ id recycling order c le.
            let (s, f, n) = alloc_order_lem ncpu per small h id recycling order k a c le in
            (
              s,
              f,
              elim n [
                | inl x ↦ inl x
                | inr (i, p, y) ↦
                    let (t, e, g) = y.taken in
                    inr (t, e, ap k.refcnt g ∙ uncounted a i p y, ap s.0.refcnt g ∙ y.once)
              ],
            );
        free =
            λ i p c l z. let (s, f, m, n) = kfree_lem ncpu per small h i p k a c l z in (s, f, m);
        share =
            λ i p c l z. let (s, f, m, n) = share_page_lem ncpu per small h i p k a z in (s, f, n);
      }
    where
      uncounted :
          {h : ℕ → Held} {order : ℕ} {s : Kmem × Option Taken}
          → Alive ncpu per h k
          → (i p : ℕ) → NewPage ncpu per h order i p s
          → k.refcnt (page_at ncpu per i p) ≡ 0
      uncounted a i p y = ground (arith, a.counts i p y.cpu y.in_pool, y.new)
