-- ===== src/Mm/Kalloc/Free.antt =====
-- `kfree` of src/mm/kalloc.c on counted pages.
use mathlib.Core.Path.{subst}
use native.Mathlib.Decide.{ℕ_discrete}
use lkc.Base.{
  ℕ, suc, ◌+◌, ◌-◌, ◌*◌, ◌%◌, ◌^◌, ◌<◌, ◌≡◌, refl, sym, ap, ◌∙◌, true, false, some, ltb, leb,
  update, update_self, update-ne, arith, inl, inr, ◌⊎◌,
}
use lkc.Mm.{pgsize}
use lkc.Mm.Buddy.{PhysMemPool}
use lkc.Mm.Buddy.Trace.{Held, Pick, Reach}
use lkc.Mm.Kalloc.Pages.{Kmem, page_at, kfree, page_num}
use lkc.Mm.Kalloc.Live.{starts, Pick-starts, starts-Pick, pool_free}
use lkc.Mm.Kalloc.Counts.{Alive, cpu_of, offset_of, page_at_ne}

module _ (ncpu per : ℕ) (small : per * pgsize < 2 ^ 31) (h : ℕ → Held) where
  -- A page with other references stays.
  pub record Dropped (i p : ℕ) (k k' : Kmem) : Type 0 where
    pub shared : 1 < k.refcnt (page_at ncpu per i p)
    pub pools : k'.pools ≡ k.pools
    pub alive : Alive ncpu per h k'

  -- The last reference gives the block back.
  pub record Returned (i p : ℕ) (k k' : Kmem) : Type 0 where
    pub last : k.refcnt (page_at ncpu per i p) ≡ 1
    pub order : ℕ
    pub held' : Held
    pub pick : Pick (h i) p order held'
    pub alive : Alive ncpu per (update h i held') k'

  dropped :
      (i p rest : ℕ) (k : Kmem)
      → Alive ncpu per h k
      → k.refcnt (page_at ncpu per i p) ≡ suc rest
      → leb 1 rest ≡ true
      → (k' : Kmem) × (kfree ncpu per (page_at ncpu per i p) k ≡ some k')
        × Dropped i p k k'
        × (k'.refcnt (page_at ncpu per i p) ≡ rest)
  unfolding kfree
  dropped i p rest k a e b =
      let g = page_at ncpu per i p in
      (
        record k { refcnt = update k.refcnt g rest },
        rw (kfree, e, b) refl,
        record {
          shared = ground (arith, e);
          pools = refl;
          alive = record {
            reach = a.reach;
            counts = λ j q c l. elim (ℕ_discrete (page_at ncpu per j q) g) [
              | yes d ↦
                  ap (ltb 0) (update_self k.refcnt g (page_at ncpu per j q) rest d)
                  ∙ still rest b
                  ∙ sym (ap (ltb 0) e)
                  ∙ sym (ap (λ x. ltb 0 (k.refcnt x)) d)
                  ∙ a.counts j q c l
              | no ne ↦
                  ap (ltb 0) (update-ne k.refcnt g (page_at ncpu per j q) rest ne)
                  ∙ a.counts j q c l
            ];
          };
        },
        update_self k.refcnt g g rest refl,
      )
    where
      still : (n : ℕ) → leb 1 n ≡ true → ltb 0 n ≡ ltb 0 (suc n)
      still n z = ground arith

  Alive_free :
      (i p order cnt : ℕ) (held' : Held) (pool' : PhysMemPool) (k : Kmem)
      → Alive ncpu per h k
      → i < ncpu
      → p < per
      → Pick (h i) p order held'
      → Reach per pool' held'
      → starts p held' ≡ false
      → Alive ncpu per (update h i held') (record {
        pools = update k.pools i pool';
        refcnt = update k.refcnt (page_at ncpu per i p) 0;
        pages_cnt = cnt;
      })
  Alive_free i p order cnt held' pool' k a ci lp pick r gone = record {
    reach = λ j c. elim (ℕ_discrete j i) [
      | yes e ↦ rw (update_self h i j held' e, update_self k.pools i j pool' e) r
      | no ne ↦ rw (update-ne h i j held' ne, update-ne k.pools i j pool' ne) (a.reach j c)
    ];
    counts = λ j q c l. elim (ℕ_discrete j i) [
      | no ne ↦
          rw
            (
              update-ne h i j held' ne,
              update-ne k.refcnt (page_at ncpu per i p) (page_at ncpu per j q) 0
                  (page_at_ne ncpu per j q i p l lp (inl ne)),
            )
            (a.counts j q c l)
      | yes e ↦ rw (update_self h i j held' e) (
          subst
            (λ x.
              ltb 0 (update k.refcnt (page_at ncpu per i p) 0 (page_at ncpu per x q))
              ≡ starts q held')
            (sym e)
            (elim (ℕ_discrete q p) [
              | yes d ↦ ground (arith, ap (page_at ncpu per i) d, gone)
              | no d ↦
                  rw
                    (update-ne k.refcnt (page_at ncpu per i p) (page_at ncpu per i q) 0
                      (page_at_ne ncpu per i q i p l lp (inr d)))
                    (ground (arith, a.counts i q ci l, starts-Pick q pick))
            ]))
    ];
  }

  returned :
      (i p : ℕ) (k : Kmem)
      → Alive ncpu per h k
      → i < ncpu
      → p < per
      → k.refcnt (page_at ncpu per i p) ≡ 1
      → (k' : Kmem) × (kfree ncpu per (page_at ncpu per i p) k ≡ some k')
        × Returned i p k k'
        × (k'.refcnt (page_at ncpu per i p) ≡ 0)
  unfolding kfree
  returned i p k a c l e =
      let g = page_at ncpu per i p in
      let (order, held', pick) = Pick-starts p (h i) (sym (a.counts i p c l) ∙ ap (ltb 0) e) in
      let (pool', f, r, m, gone) = pool_free small (a.reach i c) pick in
      let b : ltb i ncpu ≡ true = ground arith in
      let cnt : ℕ = (k.pages_cnt + page_num ncpu per k i p) % 2 ^ 32 in
      (
        record { pools = update k.pools i pool'; refcnt = update k.refcnt g 0; pages_cnt = cnt },
        rw (kfree, e, cpu_of ncpu per i p l, offset_of ncpu per i p l, m, b, f) refl,
        record {
          last = e;
          order = order;
          held' = held';
          pick = pick;
          alive = Alive_free i p order cnt held' pool' k a c l pick r gone;
        },
        update_self k.refcnt g g 0 refl,
      )

  -- kfree of a counted page takes one from its count, and gives its block back with the last one.
  pub kfree_lem :
      (i p : ℕ) (k : Kmem)
      → Alive ncpu per h k
      → i < ncpu
      → p < per
      → 0 < k.refcnt (page_at ncpu per i p)
      → (k' : Kmem) × (kfree ncpu per (page_at ncpu per i p) k ≡ some k')
        × (k'.refcnt (page_at ncpu per i p) + 1 ≡ k.refcnt (page_at ncpu per i p))
        × (Dropped i p k k' ⊎ Returned i p k k')
  kfree_lem i p k a c l z =
      let g = page_at ncpu per i p in
      elim (ℕ_discrete (k.refcnt g) 1) [
        | yes e ↦ let (k', f, r, s) = returned i p k a c l e in (k', f, omega (arith, s, e), inr r)
        | no ne ↦
            let e : k.refcnt g ≡ suc (k.refcnt g - 1) = omega arith in
            let (k', f, r, s) = dropped i p (k.refcnt g - 1) k a e (ground arith) in
            (k', f, omega (arith, s, z), inl r)
      ]
