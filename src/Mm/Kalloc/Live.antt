-- ===== src/Mm/Kalloc/Live.antt =====
-- The counted pages of src/mm/kalloc.c and the blocks that the pools hand out.
use mathlib.Core.Path.{subst}
use native.Mathlib.Decide.{ℕ_discrete}
use lkc.Base.{
  ℕ, zero, suc, ◌+◌, ◌*◌, ◌^◌, ◌≤◌, ◌<◌, ◌≡◌, ◌≢◌, refl, sym, ap, ◌∙◌, fun_ext, Bool, true, false,
  ◌||◌, [], ◌∷◌, Option, none, some, ◌==◌, update, update_self, update-ne, arith, Bool-cases, inl,
  inr, ◌⊎◌,
}
use lkc.Mm.{pgsize}
use lkc.Mm.Buddy.{PhysMemPool, buddy_max_order, buddy_get_pages, buddy_free_pages}
use lkc.Mm.Buddy.Pages.{buddy_get_pages_lem, buddy_free_pages_lem}
use lkc.Mm.Buddy.Trace.{Held, Pick, here, there, Reach, get, free, Absent, AllHanded-Pick}
use lkc.Mm.Buddy.Safety.{Reach-Sound}
use lkc.Mm.Kalloc.Pages.{steal_loop, steal_mem, get_or_steal}

-- Whether a block of the list starts at a page
abbrev pub starts : ℕ → Held → Bool
starts p [] = false
starts p ((q, o) ∷ held) = q == p || starts p held

Absent-starts : (p : ℕ) (held : Held) → Absent p held → starts p held ≡ false
Absent-starts p [] a = refl
Absent-starts p ((q, o) ∷ held) (ne, a) = ground (arith, Absent-starts p held a, ne)

pub Pick-starts :
    (p : ℕ) (held : Held) → starts p held ≡ true → (o : ℕ) × (held' : Held) × Pick held p o held'
Pick-starts p [] h = absurd (ground arith)
Pick-starts p ((q, o) ∷ held) h = elim (ℕ_discrete q p) [
  | yes e ↦
      subst (λ x. (o' : ℕ) × (held' : Held) × Pick ((x, o) ∷ held) p o' held') (sym e)
        (o, held, here p o held)
  | no ne ↦
      let (o', held', k) = Pick-starts p held (ground arith) in (o', (q, o) ∷ held', there (q, o) k)
]

pub starts-Pick :
    (r : ℕ) {held held' : Held} {p o : ℕ}
    → Pick held p o held'
    → starts r held ≡ (p == r || starts r held')
starts-Pick r (here p o held) = refl
starts-Pick r (there (q, s) k) = ground (arith, starts-Pick r k)

-- The steps of one pool, with the list of its blocks
pub record PoolGot (per order p : ℕ) (held : Held) (pool' : PhysMemPool) : Type 0 where
  pub reach : Reach per pool' ((p, order) ∷ held)
  pub in_pool : p < per
  pub new : starts p held ≡ false

module _ {per : ℕ} (small : per * pgsize < 2 ^ 31) where
  pub pool_get :
      {pool : PhysMemPool} {held : Held} (order : ℕ)
      → Reach per pool held
      → order ≤ buddy_max_order
      → (buddy_get_pages pool order ≡ some (pool, none))
        ⊎ ((pool' : PhysMemPool) × (p : ℕ) × (buddy_get_pages pool order ≡ some (pool', some p))
            × PoolGot per order p held pool')
  pool_get {pool} {held} order r le =
      elim (buddy_get_pages_lem order (Reach-Sound small r).valid le) [
        | inl (e, f) ↦ inl e
        | inr (pool', p, e, g) ↦
            let r' = get p order r le e in
            let (h, a, rest) = (Reach-Sound small r').handed in
            inr (
              pool',
              p,
              e,
              record { reach = r'; in_pool = h.in_pool; new = Absent-starts p held a },
            )
      ]

  pub pool_free :
      {pool : PhysMemPool} {held held' : Held} {p o : ℕ}
      → Reach per pool held
      → Pick held p o held'
      → (pool' : PhysMemPool) × (buddy_free_pages pool p ≡ some pool')
        × Reach per pool' held'
        × ((pool.page_metadata p).allocated ≡ 1)
        × (starts p held' ≡ false)
  pool_free {pool} {held} {held'} {p} {o} r k =
      let s = Reach-Sound small r in
      let m = AllHanded-Pick k s.handed in
      let (pool', e, f) = buddy_free_pages_lem p s.valid m.block in
      (pool', e, free p o r k e, m.block.marked, Absent-starts p held' m.absent)

-- A block `(j, p)` comes from one pool; the others stay.
pub record Found (ncpu per order : ℕ) (pools : ℕ → PhysMemPool) (h : ℕ → Held)
    (pools' : ℕ → PhysMemPool) (j p : ℕ) : Type 0 where
  pub cpu : j < ncpu
  pub got : PoolGot per order p (h j) (pools' j)
  pub others : (m : ℕ) → m ≢ j → pools' m ≡ pools m

pub update_same : (f : ℕ → PhysMemPool) (i : ℕ) → update f i (f i) ≡ f
update_same f i = fun_ext (λ j. elim (ℕ_discrete j i) [
  | yes e ↦ update_self f i j (f i) e ∙ ap f (sym e)
  | no ne ↦ update-ne f i j (f i) ne
])

module _ (ncpu per : ℕ) (small : per * pgsize < 2 ^ 31) (h : ℕ → Held) (order : ℕ)
    (le : order ≤ buddy_max_order) where
  Found_here :
      (pools : ℕ → PhysMemPool) (i p : ℕ) (pool' : PhysMemPool)
      → i < ncpu
      → PoolGot per order p (h i) pool'
      → Found ncpu per order pools h (update pools i pool') i p
  Found_here pools i p pool' c g = record {
    cpu = c;
    got = subst (PoolGot per order p (h i)) (sym (update_self pools i i pool' refl)) g;
    others = λ m ne. update-ne pools i m pool' ne;
  }

  abbrev pub FindResult : (ℕ → PhysMemPool) → Option ((ℕ → PhysMemPool) × Option (ℕ × ℕ)) → Type 0
  FindResult pools o =
      (o ≡ some (pools, none))
      ⊎ ((pools' : ℕ → PhysMemPool) × (j : ℕ) × (p : ℕ) × (o ≡ some (pools', some (j, p)))
          × Found ncpu per order pools h pools' j p)

  steal_loop_lem :
      (rounds i cur_id : ℕ) (pools : ℕ → PhysMemPool)
      → ((m : ℕ) → m < ncpu → Reach per (pools m) (h m))
      → i + rounds ≤ ncpu
      → FindResult pools (steal_loop ncpu per rounds i cur_id order pools)
  unfolding steal_loop
  steal_loop_lem zero i cur_id pools r b = inl refl
  steal_loop_lem (suc rounds) i cur_id pools r b = elim (Bool-cases (i == cur_id)) [
    | inl e ↦
        subst (FindResult pools) (sym (skip e))
          (steal_loop_lem rounds (suc i) cur_id pools r (omega arith))
    | inr e ↦ elim (pool_get small order (r i (omega arith)) le) [
      | inl n ↦
          subst (FindResult pools) (sym (next e n))
            (steal_loop_lem rounds (suc i) cur_id pools r (omega arith))
      | inr (pool', p, s, g) ↦ inr (
        update pools i pool',
        i,
        p,
        rw (steal_loop, e, s) refl,
        Found_here pools i p pool' (omega arith) g,
      )
    ]
  ]
    where
      skip :
          (i == cur_id) ≡ true
          → steal_loop ncpu per (suc rounds) i cur_id order pools
            ≡ steal_loop ncpu per rounds (suc i) cur_id order pools
      skip e = rw (steal_loop, e) refl

      next :
          (i == cur_id) ≡ false
          → buddy_get_pages (pools i) order ≡ some (pools i, none)
          → steal_loop ncpu per (suc rounds) i cur_id order pools
            ≡ steal_loop ncpu per rounds (suc i) cur_id order pools
      next e n = rw (steal_loop, e, n, update_same pools i) refl

  pub get_or_steal_lem :
      (id : ℕ) (pools : ℕ → PhysMemPool)
      → id < ncpu
      → ((m : ℕ) → m < ncpu → Reach per (pools m) (h m))
      → FindResult pools (get_or_steal ncpu per id order pools)
  unfolding get_or_steal steal_mem
  get_or_steal_lem id pools c r = elim (pool_get small order (r id c) le) [
    | inl n ↦
        subst (FindResult pools) (sym (next n)) (steal_loop_lem ncpu 0 id pools r (omega arith))
    | inr (pool', p, s, g) ↦
        inr
          (update pools id pool', id, p, rw (get_or_steal, s) refl, Found_here pools id p pool' c g)
  ]
    where
      next :
          buddy_get_pages (pools id) order ≡ some (pools id, none)
          → get_or_steal ncpu per id order pools ≡ steal_loop ncpu per ncpu 0 id order pools
      next n = rw (get_or_steal, n, update_same pools id) refl
