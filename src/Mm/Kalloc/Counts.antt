-- ===== src/Mm/Kalloc/Counts.antt =====
-- The reference counts of src/mm/kalloc.c: a page is counted exactly while it starts a block that is
-- handed out.
use mathlib.Core.Path.{subst}
use native.Mathlib.Decide.{ℕ_discrete}
use native.Mathlib.Nat.{
  add-mul-div_right, add-mul-mod_self_right, mod-eq_of_lt, div-eq_of_lt, add_comm,
}
use lkc.Base.{
  ℕ, ◌+◌, ◌-◌, ◌*◌, ◌/◌, ◌%◌, ◌^◌, ◌≤◌, ◌<◌, ◌≡◌, ◌≢◌, refl, sym, ap, ◌∙◌, Bool, true, false, not,
  ◌&&◌, ◌||◌, ◌∷◌, Option, none, some, ltb, leb, ◌==◌, update, update_self, update-ne, arith, inl,
  inr, ◌⊎◌,
}
use lkc.Mm.{pgsize}
use lkc.Mm.Buddy.{PhysMemPool, buddy_max_order}
use lkc.Mm.Buddy.Trace.{Held, Reach}
use lkc.Mm.Kalloc.Pages.{Kmem, Taken, page_at, hand_out, alloc_order, share_page, is_low, page_num}
use lkc.Mm.Kalloc.Live.{starts, Found, get_or_steal_lem}

-- `h i` is the list of the blocks of the pool `i` that are handed out.
pub record Alive (ncpu per : ℕ) (h : ℕ → Held) (k : Kmem) : Type 0 where
  pub reach : (i : ℕ) → i < ncpu → Reach per (k.pools i) (h i)
  pub counts :
      (i p : ℕ) → i < ncpu → p < per → ltb 0 (k.refcnt (page_at ncpu per i p)) ≡ starts p (h i)

module _ (ncpu per : ℕ) where
  pub cpu_of : (i p : ℕ) → p < per → page_at ncpu per i p / per ≡ i
  cpu_of i p l =
      ap (λ x. x / per) (add_comm (i * per) p)
      ∙ add-mul-div_right p i (omega arith)
      ∙ omega (arith, div-eq_of_lt l)

  pub offset_of : (i p : ℕ) → p < per → page_at ncpu per i p % per ≡ p
  offset_of i p l =
      ap (λ x. x % per) (add_comm (i * per) p) ∙ add-mul-mod_self_right p i per ∙ mod-eq_of_lt l

  -- Different pages have different numbers.
  pub page_at_ne :
      (i p j q : ℕ)
      → p < per
      → q < per
      → (i ≢ j) ⊎ (p ≢ q)
      → page_at ncpu per i p ≢ page_at ncpu per j q
  page_at_ne i p j q l m (inl n) = λ e. n (sym (cpu_of i p l) ∙ ap (λ g. g / per) e ∙ cpu_of j q m)
  page_at_ne i p j q l m (inr n) =
      λ e. n (sym (offset_of i p l) ∙ ap (λ g. g % per) e ∙ offset_of j q m)

  -- A new block, with its page counted once
  pub record NewPage (h : ℕ → Held) (order i p : ℕ) (r : Kmem × Option Taken) : Type 0 where
    pub cpu : i < ncpu
    pub in_pool : p < per
    pub new : starts p (h i) ≡ false
    pub taken : (t : Taken) × (r.1 ≡ some t) × (t.page ≡ page_at ncpu per i p)
    pub alive : Alive ncpu per (update h i ((p, order) ∷ h i)) r.0
    pub once : r.0.refcnt (page_at ncpu per i p) ≡ 1

  module _ (small : per * pgsize < 2 ^ 31) (h : ℕ → Held) where
    Alive_new :
        (order i p cnt : ℕ) (k : Kmem) (pools' : ℕ → PhysMemPool)
        → Alive ncpu per h k
        → Found ncpu per order k.pools h pools' i p
        → Alive ncpu per (update h i ((p, order) ∷ h i)) (record {
          pools = pools';
          refcnt = update k.refcnt (page_at ncpu per i p) 1;
          pages_cnt = cnt;
        })
    Alive_new order i p cnt k pools' a f = record {
      reach = λ j c. elim (ℕ_discrete j i) [
        | yes e ↦
            rw (update_self h i j ((p, order) ∷ h i) e)
              (subst (λ x. Reach per (pools' x) ((p, order) ∷ h i)) (sym e) f.got.reach)
        | no ne ↦ rw (update-ne h i j ((p, order) ∷ h i) ne, f.others j ne) (a.reach j c)
      ];
      counts = λ j q c l. elim (ℕ_discrete j i) [
        | no ne ↦
            rw
              (
                update-ne h i j ((p, order) ∷ h i) ne,
                update-ne k.refcnt (page_at ncpu per i p) (page_at ncpu per j q) 1
                    (page_at_ne j q i p l f.got.in_pool (inl ne)),
              )
              (a.counts j q c l)
        | yes e ↦ rw (update_self h i j ((p, order) ∷ h i) e) (
            subst
              (λ x.
                ltb 0 (update k.refcnt (page_at ncpu per i p) 1 (page_at ncpu per x q))
                ≡ (p == q || starts q (h i)))
              (sym e)
              (elim (ℕ_discrete p q) [
                | yes d ↦ ground (arith, ap (page_at ncpu per i) d)
                | no d ↦
                    rw
                      (update-ne k.refcnt (page_at ncpu per i p) (page_at ncpu per i q) 1
                        (page_at_ne i q i p l f.got.in_pool (inr (λ z. d (sym z)))))
                      (ground (arith, a.counts i q f.cpu l))
              ]))
      ];
    }

    abbrev handed : Bool → ℕ → ℕ → Kmem → (ℕ → PhysMemPool) → ℕ → Kmem × Option Taken
    handed recycling i p k pools' cnt = (
      record { pools = pools'; refcnt = update k.refcnt (page_at ncpu per i p) 1; pages_cnt = cnt },
      some (record { page = page_at ncpu per i p; reclaims = not recycling && is_low cnt }),
    )

    hand_out_lem :
        (recycling : Bool) (order i p : ℕ) (k : Kmem) (pools' : ℕ → PhysMemPool)
        → Alive ncpu per h k
        → Found ncpu per order k.pools h pools' i p
        → (r : Kmem × Option Taken) × (hand_out ncpu per recycling i p (record k { pools = pools' })
            ≡ some r)
          × NewPage h order i p r
    unfolding hand_out
    hand_out_lem recycling order i p k pools' a f =
        let g = page_at ncpu per i p in
        let z : k.refcnt g ≡ 0 = ground (arith, a.counts i p f.cpu f.got.in_pool, f.got.new) in
        let cnt : ℕ =
          (k.pages_cnt + 2 ^ 32 - page_num ncpu per (record k { pools = pools' }) i p) % 2 ^ 32 in
        (
          handed recycling i p k pools' cnt,
          rw (hand_out, z) refl,
          record {
            cpu = f.cpu;
            in_pool = f.got.in_pool;
            new = f.got.new;
            taken = (_, refl, refl);
            alive = Alive_new order i p cnt k pools' a f;
            once = update_self k.refcnt g g 1 refl;
          },
        )

    -- An allocation finds no block and changes nothing, or hands out a new one.
    pub alloc_order_lem :
        (id : ℕ) (recycling : Bool) (order : ℕ) (k : Kmem)
        → Alive ncpu per h k
        → id < ncpu
        → order ≤ buddy_max_order
        → (r : Kmem × Option Taken) × (alloc_order ncpu per id recycling order k ≡ some r)
          × ((r ≡ (k, none)) ⊎ ((i : ℕ) × (p : ℕ) × NewPage h order i p r))
    unfolding alloc_order
    alloc_order_lem id recycling order k a c le =
        let b : ltb id ncpu ≡ true = ground arith in
        elim (get_or_steal_lem ncpu per small h order le id k.pools c a.reach) [
          | inl e ↦ ((k, none), rw (alloc_order, b, e) refl, inl refl)
          | inr (pools', i, p, e, f) ↦
              let (r, d, n) = hand_out_lem recycling order i p k pools' a f in
              (r, rw (alloc_order, b, e) d, inr (i, p, n))
        ]

    -- share_page of a counted page adds one to its count.
    pub share_page_lem :
        (i p : ℕ) (k : Kmem)
        → Alive ncpu per h k
        → 0 < k.refcnt (page_at ncpu per i p)
        → (k' : Kmem) × (share_page ncpu per (page_at ncpu per i p) k ≡ some k')
          × Alive ncpu per h k'
          × (k'.refcnt (page_at ncpu per i p) ≡ k.refcnt (page_at ncpu per i p) + 1)
    unfolding share_page
    share_page_lem i p k a z =
        let g = page_at ncpu per i p in
        let b : leb 1 (k.refcnt g) ≡ true = ground arith in
        (
          record k { refcnt = update k.refcnt g (k.refcnt g + 1) },
          rw (share_page, b) refl,
          record {
            reach = a.reach;
            counts = λ j q c l. elim (ℕ_discrete (page_at ncpu per j q) g) [
              | yes e ↦
                  ap (ltb 0) (update_self k.refcnt g (page_at ncpu per j q) (k.refcnt g + 1) e)
                  ∙ still (k.refcnt g) z
                  ∙ sym (ap (λ x. ltb 0 (k.refcnt x)) e)
                  ∙ a.counts j q c l
              | no ne ↦
                  ap (ltb 0) (update-ne k.refcnt g (page_at ncpu per j q) (k.refcnt g + 1) ne)
                  ∙ a.counts j q c l
            ];
          },
          update_self k.refcnt g g (k.refcnt g + 1) refl,
        )
      where
        still : (n : ℕ) → 0 < n → ltb 0 (n + 1) ≡ ltb 0 n
        still n z = ground arith
