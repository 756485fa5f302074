-- ===== src/Mm/Buddy/Boot.antt =====
-- `init_buddy` of src/mm/buddy.c, which frees the pages of a pool one after the other.
use mathlib.Core.Path.{subst}
use lkc.Base.{
  ℕ, zero, suc, ◌+◌, ◌*◌, ◌^◌, ◌≤◌, ◌<◌, ◌≡◌, refl, ◌%◌, inl, inr, Bool-cases, ltb, Option, none,
  some, arith,
}
use lkc.Mm.{pgsize}
use lkc.Base.Panic.{◌>>=◌}
use lkc.Mm.Buddy.{PhysMemPool, blank_pool, free_loop, start_mem, page_bytes, init_pages, init_buddy}
use lkc.Mm.Buddy.Layout.{Layout, Handed}
use lkc.Mm.Buddy.Invariant.{Inv, taken}
use lkc.Mm.Buddy.Counting.{free_pages, free_pages-blank, memsize-free_pages}
use lkc.Mm.Buddy.Pages.{Freed, buddy_free_pages_lem}

blank-Layout : (sp sa n : ℕ) → Layout n (blank_pool sp sa n).page_metadata (λ i. i)
blank-Layout sp sa n = record {
  own = λ i h. omega arith;
  block = λ i j h w. let e : j ≡ i = omega arith in (omega arith, e);
  aligned = λ i h. (i, omega arith);
  small = λ i h. omega arith;
  inner = λ i h ne. absurd (ne refl);
}

blank-Inv : (sp sa n : ℕ) → Inv n (blank_pool sp sa n) (λ i. i) n
blank-Inv sp sa n = record {
  size = omega arith;
  layout = blank-Layout sp sa n;
  listed = λ o p e. ground arith;
  complete = λ o p b ne. absurd (omega (arith, b.free));
  distinct = λ o. tt;
  counted = λ o. refl;
}

-- The first `i` pages are free, the others are handed out one by one.
record Freeing (n i : ℕ) (pool : PhysMemPool) : Type 0 where
  owner : ℕ → ℕ
  valid : Inv n pool owner n
  rest : (q : ℕ) → i ≤ q → q < n → Handed n pool.page_metadata owner q 0
  done : (j : ℕ) → j < n → j < i → taken pool owner j ≡ 0
  count : free_pages pool ≡ i

Freeing-start : (sp sa n : ℕ) → Freeing n 0 (blank_pool sp sa n)
Freeing-start sp sa n = record {
  owner = λ i. i;
  valid = blank-Inv sp sa n;
  rest = λ q h k. record { in_pool = k; first = refl; order = refl; marked = refl };
  done = λ j h k. absurd (omega arith);
  count = free_pages-blank sp sa n;
}

Freeing-next :
    {n i : ℕ} {pool pool' : PhysMemPool} (f : Freeing n i pool)
    → Freed n 0 pool f.owner i pool'
    → Freeing n (i + 1) pool'
Freeing-next {i} f s = record {
  owner = s.owner';
  valid = s.valid;
  rest = λ q h k. s.kept q 0 (f.rest q (omega arith) k) (omega arith);
  done = λ j h k. ground (arith, s.view j h, f.done j h);
  count = omega (arith, s.balance, f.count);
}

free_loop_lem :
    {n : ℕ} (rounds i : ℕ) {pool : PhysMemPool}
    → i + rounds ≡ n
    → Freeing n i pool
    → (pool' : PhysMemPool) × (free_loop rounds i pool ≡ some pool') × Freeing n n pool'
unfolding free_loop
free_loop_lem {n} zero i {pool} e f = let e' : i ≡ n = omega arith in (pool, refl, rw e' at f)
free_loop_lem (suc rounds) i e f =
    let (pool', g, s) = buddy_free_pages_lem i f.valid (f.rest i (omega arith) (omega arith)) in
    let (pool'', g', f') = free_loop_lem rounds (i + 1) (omega arith) (Freeing-next f s) in
    (pool'', rw (g, ◌>>=◌) g', f')

-- What a pool of `n` pages is after `init_buddy`.
pub record Ready (n : ℕ) (pool : PhysMemPool) : Type 0 where
  pub owner : ℕ → ℕ
  pub valid : Inv n pool owner n
  pub all_free : (i : ℕ) → i < n → taken pool owner i ≡ 0
  pub count : free_pages pool ≡ n

pub init_pages_lem :
    (start_page start_addr n : ℕ)
    → n * pgsize < 2 ^ 31
    → (pool : PhysMemPool) × (init_pages start_page start_addr n ≡ some pool) × Ready n pool
unfolding init_pages
init_pages_lem start_page start_addr n h =
    let (pool, e, f) = free_loop_lem n 0 (omega arith) (Freeing-start start_page start_addr n) in
    (
      pool,
      ground (
        arith,
        e,
        f.valid.size,
        memsize-free_pages pool 0 (omega arith) (omega (arith, f.count)),
        f.count,
      ),
      record { owner = f.owner; valid = f.valid; all_free = λ i k. f.done i k k; count = f.count },
    )

-- The two ends of `init_buddy`: its first assertion fails, or it returns
abbrev pub Boots : ℕ → ℕ → ℕ → Option PhysMemPool → Type 0
Boots start_page start_addr n none = start_mem ≤ (start_page + n * page_bytes) % 2 ^ 64
Boots start_page start_addr n (some pool) =
    ((start_page + n * page_bytes) % 2 ^ 64 < start_mem) × Ready n pool

-- For a pool of less than 2 ^ 31 bytes, `init_buddy` panics exactly where the metadata of its pages
-- do not end below the memory of the pools, modulo 2 ^ 64; otherwise it returns, its assertion on
-- the sum of the free lists included, with the invariant established and all pages free.
pub init_buddy_lem :
    (start_page start_addr n : ℕ)
    → n * pgsize < 2 ^ 31
    → Boots start_page start_addr n (init_buddy start_page start_addr n)
unfolding init_buddy
init_buddy_lem start_page start_addr n h =
    let (pool, e, r) = init_pages_lem start_page start_addr n h in
    elim (Bool-cases (ltb ((start_page + n * page_bytes) % 2 ^ 64) start_mem)) [
      | inl y ↦ rw (init_buddy, y, e) (ground arith, r)
      | inr y ↦ rw (init_buddy, y) (ground arith)
    ]

-- What `init_buddy` leaves where it returns
pub init_buddy-Ready :
    (start_page start_addr n : ℕ) (pool : PhysMemPool)
    → n * pgsize < 2 ^ 31
    → init_buddy start_page start_addr n ≡ some pool
    → Ready n pool
init_buddy-Ready start_page start_addr n pool h e =
    (subst (Boots start_page start_addr n) e (init_buddy_lem start_page start_addr n h)).1
