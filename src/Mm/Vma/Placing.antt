-- ===== src/Mm/Vma/Placing.antt =====
-- The place for a new mapping: `find_mapping_space` of src/mm/vma.c.
use native.Mathlib.Decide.{ℕ_discrete}
use lkc.Base.{
  ℕ, ◌%◌, ◌≤◌, ◌<◌, ◌≡◌, ◌≢◌, ◌⊎◌, inl, inr, Bool-cases, refl, sym, ap, ◌∙◌, true, false, List, [],
  ◌∷◌, some, arith, ltb, ◌==◌, if◌then◌else◌, elem,
}
use lkc.Base.Panic.{◌>>=◌, ◌>>◌}
use lkc.Mm.{pgsize}
use lkc.Mm.Vm.{Tables, maxva, missing, entry, walk, Unmapped, walk-Unmapped}
use lkc.Mm.Vma.{
  Vma, VmaType, vma_stack, vma_heap, vma_text, vma_file, vma_anon, vma_interp, Space, add64,
  mmap_start, is_skipped, max_end, find_mapping_space,
}
use lkc.Mm.Vma.Areas.{Whole, Apart, covers_iff}

-- The end of an area is at a page.
abbrev pub EndsAtPage : Vma → Type 0
EndsAtPage v = add64 v.startva v.size % pgsize ≡ 0

-- An area that is neither a stack nor the interpreter
abbrev pub Counted : Vma → Type 0
Counted v = (v.kind ≢ vma_stack) × (v.kind ≢ vma_interp)

-- The start of the mapping region, or the end of a counted area
abbrev pub Bound : (ℕ → Vma) → List ℕ → ℕ → ℕ → Type 0
Bound vmas ps low va =
    (va ≡ low)
    ⊎ ((p : ℕ) × (elem p ps ≡ true)
        × Counted (vmas p)
        × (add64 (vmas p).startva (vmas p).size ≡ va))

is_skipped-false : (kind : VmaType) → kind ≢ vma_stack → kind ≢ vma_interp → is_skipped kind ≡ false
is_skipped-false vma_stack a b = absurd (a refl)
is_skipped-false vma_heap a b = refl
is_skipped-false vma_text a b = refl
is_skipped-false vma_file a b = refl
is_skipped-false vma_anon a b = refl
is_skipped-false vma_interp a b = absurd (b refl)

not_skipped-Counted : (v : Vma) → is_skipped v.kind ≡ false → Counted v
not_skipped-Counted v h =
    (λ e. absurd (skips vma_stack e refl), λ e. absurd (skips vma_interp e refl))
  where
    skips : (k : VmaType) → v.kind ≡ k → is_skipped k ≡ true → ⊥
    skips k e s = let f : is_skipped v.kind ≡ true = ap is_skipped e ∙ s in ground arith

max_end_lem :
    (vmas : ℕ → Vma) (ps : List ℕ) (max : ℕ)
    → max % pgsize ≡ 0
    → ((p : ℕ) → elem p ps ≡ true → EndsAtPage (vmas p))
    → (max ≤ max_end vmas ps max)
      × (max_end vmas ps max % pgsize ≡ 0)
      × ((p : ℕ)
          → elem p ps ≡ true
          → is_skipped (vmas p).kind ≡ false
          → add64 (vmas p).startva (vmas p).size ≤ max_end vmas ps max)
unfolding max_end
max_end_lem vmas [] max a f = (omega arith, a, λ p m. absurd (ground arith))
max_end_lem vmas (q ∷ ps) max a f =
    let endva = add64 (vmas q).startva (vmas q).size in
    let next = if is_skipped (vmas q).kind then max else if ltb max endva then endva else max in
    let aligned : next % pgsize ≡ 0 = ground (arith, f q (ground arith)) in
    let (low, ends, above) = max_end_lem vmas ps next aligned (λ p m. f p (ground arith)) in
    (
      ground arith,
      ends,
      λ p m k. elim (ℕ_discrete p q) [
        | yes e ↦
            let k' : is_skipped (vmas q).kind ≡ false =
              ap (λ t. is_skipped (vmas t).kind) (sym e) ∙ k in
            let ends_at : add64 (vmas p).startva (vmas p).size ≡ endva =
              ap (λ t. add64 (vmas t).startva (vmas t).size) e in
            let reached : endva ≤ next = ground (arith, k') in omega (arith, ends_at, reached, low)
        | no ne ↦ above p (ground arith) k
      ],
    )

max_end-Bound : (vmas : ℕ → Vma) (ps : List ℕ) (max : ℕ) → Bound vmas ps max (max_end vmas ps max)
unfolding max_end
max_end-Bound vmas [] max = inl refl
max_end-Bound vmas (q ∷ ps) max =
    let endva = add64 (vmas q).startva (vmas q).size in
    elim (Bool-cases (is_skipped (vmas q).kind)) [
      | inl y ↦ rw (max_end, y) (more (max_end-Bound vmas ps max))
      | inr y ↦ elim (Bool-cases (ltb max endva)) [
        | inl z ↦
            rw (max_end, y, z) (here (not_skipped-Counted (vmas q) y) (max_end-Bound vmas ps endva))
        | inr z ↦ rw (max_end, y, z) (more (max_end-Bound vmas ps max))
      ]
    ]
  where
    more : {low va : ℕ} → Bound vmas ps low va → Bound vmas (q ∷ ps) low va
    more (inl e) = inl e
    more (inr (p, m, c, e)) = inr (p, ground arith, c, e)

    here :
        {va : ℕ}
        → Counted (vmas q)
        → Bound vmas ps (add64 (vmas q).startva (vmas q).size) va
        → Bound vmas (q ∷ ps) max va
    here c (inl e) = inr (q, ground arith, c, sym e)
    here c (inr (p, m, d, e)) = inr (p, ground arith, d, e)

-- For an address space whose areas end at pages, where the largest end of an area that is neither a
-- stack nor the interpreter, or the start of the mapping region if that is larger, is below MAXVA
-- and the page tables have no entry for it: `find_mapping_space` does not panic, and returns an
-- address at a page and not below the start of the mapping region, which is that start or the end
-- of a listed area that is neither a stack nor the interpreter; whatever area starts there, without
-- wrapping, is apart from every listed area that is neither a stack nor the interpreter.
pub find_mapping_space_lem :
    (space : Space) (tables : Tables) (pagetable : ℕ)
    → ((p : ℕ) → elem p space.head_vma ≡ true → EndsAtPage (space.vmas p))
    → max_end space.vmas space.head_vma mmap_start < maxva
    → Unmapped tables pagetable (max_end space.vmas space.head_vma mmap_start)
    → (va : ℕ) × (find_mapping_space space tables pagetable ≡ some va)
      × (mmap_start ≤ va)
      × (va % pgsize ≡ 0)
      × Bound space.vmas space.head_vma mmap_start va
      × ((v : Vma)
          → v.startva ≡ va
          → Whole v
          → (p : ℕ) → elem p space.head_vma ≡ true
          → Counted (space.vmas p)
          → Apart v (space.vmas p))
unfolding find_mapping_space
find_mapping_space_lem space tables pagetable f l g =
    let max = max_end space.vmas space.head_vma mmap_start in
    let (low, aligned, above) = max_end_lem space.vmas space.head_vma mmap_start refl f in
    let c : (max % pgsize == 0) ≡ true = ground arith in
    (
      max,
      found c (walk-Unmapped tables pagetable max l g),
      low,
      aligned,
      max_end-Bound space.vmas space.head_vma mmap_start,
      λ w e u p m k a x.
          ground
            (arith, above p m (is_skipped-false (space.vmas p).kind k.0 k.1), covers_iff w a u),
    )
  where
    found :
        (max_end space.vmas space.head_vma mmap_start % pgsize == 0) ≡ true
        → (walk tables pagetable (max_end space.vmas space.head_vma mmap_start) 0 ≡ some missing)
          ⊎ (walk tables pagetable (max_end space.vmas space.head_vma mmap_start) 0
              ≡ some (entry 0 0))
        → find_mapping_space space tables pagetable
          ≡ some (max_end space.vmas space.head_vma mmap_start)
    found c (inl e) = rw (find_mapping_space, c, e, ◌>>=◌, ◌>>◌) refl
    found c (inr e) = rw (find_mapping_space, c, e, ◌>>=◌, ◌>>◌) refl
