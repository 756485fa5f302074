-- ===== src/Mm/Buddy/Invariant.antt =====
-- The invariant of a pool of src/mm/buddy.c, and the steps on its free lists that keep it.
use lkc.Base.{
  ℕ, ◌*◌, ◌<◌, ◌≡◌, refl, ◌∙◌, ◌≢◌, inl, inr, Bool-cases, true, false, arith, if◌then◌else◌, ◌==◌,
  elem, IsDistinct, elem-erase, erase-IsDistinct, length-erase, erase_of_not_elem, length,
}
use lkc.Mm.{pgsize}
use lkc.Mm.Buddy.{PhysMemPool, push_page, unlink_page}
use lkc.Mm.Buddy.Layout.{Layout, FreeBlock, Handed}

-- The free lists of a pool of `n` pages hold exactly the free blocks, each on the list of its order,
-- but for the block at `hand`, which an operation has taken off. `hand` is `n` between operations.
pub record Inv (n : ℕ) (pool : PhysMemPool) (owner : ℕ → ℕ) (hand : ℕ) : Type 0 where
  pub size : pool.mem_size ≡ n * pgsize
  pub layout : Layout n pool.page_metadata owner
  pub listed :
      (o p : ℕ)
      → elem p (pool.lists o) ≡ true
      → FreeBlock n pool.page_metadata owner p o × (p ≢ hand)
  pub complete :
      (o p : ℕ) → FreeBlock n pool.page_metadata owner p o → p ≢ hand → elem p (pool.lists o) ≡ true
  pub distinct : (o : ℕ) → IsDistinct (pool.lists o)
  pub counted : (o : ℕ) → pool.num o ≡ length (pool.lists o)

module _ {n : ℕ} {pool : PhysMemPool} {owner : ℕ → ℕ} {hand : ℕ} (v : Inv n pool owner hand) where
  -- A free block stands on the list of its order alone.
  elem_of_free :
      {p o : ℕ} (i : ℕ)
      → FreeBlock n pool.page_metadata owner p o
      → p ≢ hand
      → elem p (pool.lists i) ≡ (o == i)
  elem_of_free {p} {o} i b ne = elim (Bool-cases (elem p (pool.lists i))) [
    | inl y ↦ let f = (v.listed i p y).0 in ground (arith, f.order, b.order)
    | inr y ↦ ground (arith, v.complete o p b ne)
  ]

  elem_of_hand : (i : ℕ) → elem hand (pool.lists i) ≡ false
  elem_of_hand i = elim (Bool-cases (elem hand (pool.lists i))) [
    | inl y ↦ absurd ((v.listed i hand y).1 refl)
    | inr y ↦ y
  ]

  -- The lists after `list_del` of a listed page, and their counter.
  pub elem-unlink :
      (i p q : ℕ)
      → elem q ((unlink_page pool p).lists i) ≡ (if p == q then false else elem q (pool.lists i))
  elem-unlink i p q = elem-erase p q (pool.lists i) (v.distinct i)

  pub counted-unlink :
      (i p o : ℕ)
      → FreeBlock n pool.page_metadata owner p o
      → p ≢ hand
      → (unlink_page pool p).num i ≡ length ((unlink_page pool p).lists i)
  counted-unlink i p o b ne = ground (
    arith,
    v.counted i,
    elem_of_free i b ne,
    length-erase p (pool.lists i),
    erase_of_not_elem p (pool.lists i),
  )

  -- A listed page is counted.
  pub num_pos : (p o : ℕ) → FreeBlock n pool.page_metadata owner p o → p ≢ hand → 0 < pool.num o
  num_pos p o b ne = ground (arith, v.counted o, length-erase p (pool.lists o), v.complete o p b ne)

module _ {n : ℕ} {pool : PhysMemPool} {owner : ℕ → ℕ} where
  -- A listed page is taken in hand.
  pub unlink_page-Inv :
      (p o : ℕ)
      → Inv n pool owner n
      → FreeBlock n pool.page_metadata owner p o
      → Inv n (unlink_page pool p) owner p
  unlink_page-Inv p o v b = record {
    size = v.size;
    layout = v.layout;
    listed = λ i q e. (
      (v.listed i q (ground (arith, elem-unlink v i p q))).0,
      ground (arith, elem-unlink v i p q),
    );
    complete = λ i q f ne.
        ground (arith, elem-unlink v i p q, v.complete i q f (ground (arith, f.in_pool)));
    distinct = λ i. erase-IsDistinct p (pool.lists i) (v.distinct i);
    counted = λ i. counted-unlink v i p o b (ground (arith, b.in_pool));
  }

  -- The page in hand goes on the list of its order.
  pub push_page-Inv :
      (p o : ℕ)
      → Inv n pool owner p
      → FreeBlock n pool.page_metadata owner p o
      → Inv n (push_page pool p o) owner n
  push_page-Inv p o v b = record {
    size = v.size;
    layout = v.layout;
    listed = λ i q e. ground (arith, b, v.listed i q, elem_of_hand v i);
    complete = λ i q f ne. ground (arith, f.order, b.order, v.complete i q f);
    distinct = λ i. ground (arith, v.distinct i, elem_of_hand v o);
    counted = λ i. ground (arith, v.counted i);
  }

-- A page is handed out if the first page of its block
-- is marked as allocated.
abbrev pub taken : PhysMemPool → (ℕ → ℕ) → ℕ → ℕ
taken pool owner i = (pool.page_metadata (owner i)).allocated

-- What goes on inside of the allocator leaves the pages that are handed out alone, and their blocks.
pub record Frame (n : ℕ) (pool : PhysMemPool) (owner : ℕ → ℕ) (pool' : PhysMemPool) (owner' : ℕ → ℕ)
    : Type 0 where
  pub same : (i : ℕ) → i < n → taken pool' owner' i ≡ taken pool owner i
  pub kept :
      (q o : ℕ) → Handed n pool.page_metadata owner q o → Handed n pool'.page_metadata owner' q o

pub Frame-refl : {n : ℕ} {pool : PhysMemPool} {owner : ℕ → ℕ} → Frame n pool owner pool owner
Frame-refl = record { same = λ i h. refl; kept = λ q o b. b }

pub Frame-trans :
    {n : ℕ} {pool pool' pool'' : PhysMemPool} {owner owner' owner'' : ℕ → ℕ}
    → Frame n pool owner pool' owner'
    → Frame n pool' owner' pool'' owner''
    → Frame n pool owner pool'' owner''
Frame-trans f g = record {
  same = λ i h. g.same i h ∙ f.same i h;
  kept = λ q o b. g.kept q o (f.kept q o b);
}
