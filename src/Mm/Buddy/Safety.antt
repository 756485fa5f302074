-- ===== src/Mm/Buddy/Safety.antt =====
-- What holds of a pool of src/mm/buddy.c after any calls of its functions.
use mathlib.Core.Path.{subst, subst₂}
use lkc.Base.{
  ℕ, ◌+◌, ◌*◌, ◌^◌, ◌≤◌, ◌<◌, ◌≡◌, ◌≢◌, inl, inr, true, false, [], ◌∷◌, Option, none, some, arith,
}
use lkc.Mm.{pgsize}
use lkc.Mm.Buddy.{PhysMemPool, buddy_max_order, buddy_get_pages, buddy_free_pages}
use lkc.Mm.Buddy.Layout.{Metadata, Layout, Handed}
use lkc.Mm.Buddy.Invariant.{Inv}
use lkc.Mm.Buddy.Counting.{free_pages}
use lkc.Mm.Buddy.Marking.{in_block}
use lkc.Mm.Buddy.Pages.{Got, Freed, buddy_get_pages_lem, buddy_free_pages_lem}
use lkc.Mm.Buddy.Boot.{init_buddy-Ready}
use lkc.Mm.Buddy.Trace.{
  Held, Reach, boot, get, free, Absent, AllHanded, held_pages, Picked, AllHanded-get,
  AllHanded-free, AllHanded-Pick,
}

pub record Sound (n : ℕ) (pool : PhysMemPool) (held : Held) : Type 0 where
  pub owner : ℕ → ℕ
  pub valid : Inv n pool owner n
  pub handed : AllHanded n pool.page_metadata owner held
  pub balance : free_pages pool + held_pages held ≡ n

Sound-get :
    {n p order : ℕ} {pool pool' : PhysMemPool} {held : Held} (s : Sound n pool held)
    → Got n order pool s.owner pool' p
    → Sound n pool' ((p, order) ∷ held)
Sound-get {p} {held} s g =
    let (a, b) = AllHanded-get p g.kept held s.handed in
    record {
      owner = g.owner';
      valid = g.valid;
      handed = (g.handed, b, a);
      balance = omega (arith, g.balance, s.balance);
    }

Sound-free :
    {n p order : ℕ} {pool pool' : PhysMemPool} {held held' : Held} (s : Sound n pool held)
    → Picked n pool.page_metadata s.owner held p order held'
    → Freed n order pool s.owner p pool'
    → Sound n pool' held'
Sound-free {p} {held' = held'} s k f = record {
  owner = f.owner';
  valid = f.valid;
  handed = AllHanded-free p f.kept held' k.others k.absent;
  balance = omega (arith, f.balance, s.balance, k.pages);
}

-- For a pool of less than 2 ^ 31 bytes, after any sequence of calls the pool keeps its invariant,
-- the blocks held are blocks of the pool marked as allocated with their order, and the pages on the
-- free lists and in the held blocks make up the pool.
pub Reach-Sound :
    {n : ℕ} {pool : PhysMemPool} {held : Held}
    → n * pgsize < 2 ^ 31
    → Reach n pool held
    → Sound n pool held
Reach-Sound {n} {pool} h (boot start_page start_addr e) =
    let r = init_buddy-Ready start_page start_addr n pool h e in
    record { owner = r.owner; valid = r.valid; handed = tt; balance = omega (arith, r.count) }
Reach-Sound {n} {pool} h (get {held = held} p order r small e) =
    let s = Reach-Sound h r in
    elim (buddy_get_pages_lem order s.valid small) [
      | inl (f, _) ↦ absurd (ground (arith, e, f))
      | inr (pool', q, f, g) ↦
          let same : (pool' ≡ pool) × (q ≡ p) = ground (arith, e, f) in
          subst₂ (λ (t : PhysMemPool) (x : ℕ). Sound n t ((x, order) ∷ held)) same.0 same.1
            (Sound-get s g)
    ]
Reach-Sound {n} {pool} {held} h (free p order r k e) =
    let s = Reach-Sound h r in
    let m = AllHanded-Pick k s.handed in
    let (pool', f, d) = buddy_free_pages_lem p s.valid m.block in
    let same : pool' ≡ pool = ground (arith, e, f) in
    subst (λ (t : PhysMemPool). Sound n t held) same (Sound-free s m d)

-- Two pages that blocks of the pool start at, if they differ, belong to disjoint blocks.
Handed-disjoint :
    {n : ℕ} {md : Metadata} {owner : ℕ → ℕ} (p o q r i : ℕ)
    → Layout n md owner
    → Handed n md owner p o
    → Handed n md owner q r
    → q ≢ p
    → in_block p o i ≡ true
    → in_block q r i ≡ false
Handed-disjoint p o q r i l a b ne h = ground (arith, a, b, l.block p i, l.block q i)

-- Block by block, no page of the list lies in the block of order `o` at `p`.
abbrev pub Disjoint : ℕ → ℕ → Held → Type 0
Disjoint p o [] = Unit
Disjoint p o ((q, r) ∷ held) =
    ((i : ℕ) → in_block p o i ≡ true → in_block q r i ≡ false) × Disjoint p o held

abbrev pub PairwiseDisjoint : Held → Type 0
PairwiseDisjoint [] = Unit
PairwiseDisjoint ((p, o) ∷ held) = Disjoint p o held × PairwiseDisjoint held

module _ {n : ℕ} {md : Metadata} {owner : ℕ → ℕ} (l : Layout n md owner) where
  Handed-Disjoint :
      (p o : ℕ) (held : Held)
      → Handed n md owner p o
      → Absent p held
      → AllHanded n md owner held
      → Disjoint p o held
  Handed-Disjoint p o [] b f a = tt
  Handed-Disjoint p o ((q, r) ∷ held) b (ne, f) (c, g, a) =
      (λ i. Handed-disjoint p o q r i l b c ne, Handed-Disjoint p o held b f a)

  AllHanded-PairwiseDisjoint : (held : Held) → AllHanded n md owner held → PairwiseDisjoint held
  AllHanded-PairwiseDisjoint [] a = tt
  AllHanded-PairwiseDisjoint ((p, o) ∷ held) (b, f, a) =
      (Handed-Disjoint p o held b f a, AllHanded-PairwiseDisjoint held a)

-- For a pool of less than 2 ^ 31 bytes, after any sequence of `init_buddy`, `buddy_get_pages` and
-- `buddy_free_pages` on blocks that are held, the blocks held are pairwise disjoint: no page is
-- handed out twice.
pub Reach-PairwiseDisjoint :
    {n : ℕ} {pool : PhysMemPool} {held : Held}
    → n * pgsize < 2 ^ 31
    → Reach n pool held
    → PairwiseDisjoint held
Reach-PairwiseDisjoint {held} h r =
    let s = Reach-Sound h r in AllHanded-PairwiseDisjoint s.valid.layout held s.handed

-- `buddy_free_pages` returns for each block of the list.
abbrev pub Frees : PhysMemPool → Held → Type 0
Frees pool [] = Unit
Frees pool ((p, o) ∷ held) =
    ((pool' : PhysMemPool) × (buddy_free_pages pool p ≡ some pool')) × Frees pool held

AllHanded-Frees :
    {n : ℕ} {pool : PhysMemPool} {owner : ℕ → ℕ} (held : Held)
    → Inv n pool owner n
    → AllHanded n pool.page_metadata owner held
    → Frees pool held
AllHanded-Frees [] v a = tt
AllHanded-Frees ((p, o) ∷ held) v (b, f, a) =
    let (pool', e, _) = buddy_free_pages_lem p v b in ((pool', e), AllHanded-Frees held v a)

-- For a pool of less than 2 ^ 31 bytes, after any sequence of calls, whether blocks are held or
-- not, `buddy_get_pages` returns for every order up to the largest, and `buddy_free_pages` returns
-- for every held block: no assertion fails, no null pointer is followed, the loops end.
pub Reach-total :
    {n : ℕ} {pool : PhysMemPool} {held : Held} (order : ℕ)
    → n * pgsize < 2 ^ 31
    → Reach n pool held
    → order ≤ buddy_max_order
    → ((r : PhysMemPool × Option ℕ) × (buddy_get_pages pool order ≡ some r)) × Frees pool held
Reach-total {n} {pool} {held} order h r small = (got, AllHanded-Frees held s.valid s.handed)
  where
    s : Sound n pool held
    s = Reach-Sound h r

    got : (x : PhysMemPool × Option ℕ) × (buddy_get_pages pool order ≡ some x)
    got = elim (buddy_get_pages_lem order s.valid small) [
      | inl (e, _) ↦ ((pool, none), e)
      | inr (pool', q, e, _) ↦ ((pool', some q), e)
    ]
