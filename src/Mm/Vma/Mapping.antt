-- ===== src/Mm/Vma/Mapping.antt =====
-- Mapping a new area: `vma_map_range` of src/mm/vma.c.
use native.Mathlib.Decide.{ℕ_discrete}
use lkc.Base.{
  ℕ, ◌+◌, ◌%◌, ◌^◌, ◌≤◌, ◌<◌, ◌≡◌, ◌≢◌, refl, ap, ◌∙◌, fun_ext, ◌⊎◌, inl, inr, true, false, ◌&&◌,
  ◌∷◌, Option, none, some, arith, ltb, leb, ◌==◌, if◌then◌else◌, elem, update_self, update-ne,
}
use lkc.Base.Panic.{◌>>=◌}
use lkc.Mm.{pgsize}
use lkc.Mm.Vma.{
  Vma, VmaType, Space, nvma, covers, check_vma_intersect, first_unused, alloc_vma,
  add_vma_to_vmspace, placed, vma_map_range, set_vma, pgroundup,
}
use lkc.Mm.Vma.Areas.{
  Whole, Apart, Inside, Valid, Overlap, check_vma_intersect_lem, unused_not_listed,
}
use lkc.Mm.Vma.Table.{first_unused_lem, check_unlisted, extended-Valid}

-- The size of the area for a request of `len` bytes
abbrev pub new_size : ℕ → ℕ
new_size len = pgroundup (if ltb len pgsize then pgsize else len)

pub record Mapped (space : Space) (va len perm : ℕ) (kind : VmaType) (space' : Space) (i : ℕ)
    : Type 0 where
  pub valid : Valid space'
  pub fresh : (space.vmas i).used ≡ false
  pub listed : space'.head_vma ≡ i ∷ space.head_vma
  pub enough : len ≤ new_size len
  pub area : (a : ℕ) → covers (space'.vmas i) a ≡ (leb va a && ltb a (va + new_size len))
  pub attributes : ((space'.vmas i).perm ≡ perm % 2 ^ 32) × ((space'.vmas i).kind ≡ kind)
  pub others : (p : ℕ) → p ≢ i → space'.vmas p ≡ space.vmas p

-- The three ends of `vma_map_range`: the table is full, the ASSERT in `add_vma_to_vmspace`, a new area
abbrev pub MapEnds : Space → ℕ → ℕ → ℕ → VmaType → Option (Space × Option ℕ) → Type 0
MapEnds space va len perm kind r =
    ((r ≡ some (space, none)) × ((p : ℕ) → p < nvma → (space.vmas p).used ≡ true))
    ⊎ (((r ≡ none)
          × (p : ℕ) × (a : ℕ) × (elem p space.head_vma ≡ true)
          × (va ≤ a)
          × (a < va + new_size len)
          × (covers (space.vmas p) a ≡ true))
        ⊎ ((space' : Space) × (i : ℕ) × (r ≡ some (space', some i))
            × Mapped space va len perm kind space' i))

module _ (space : Space) (va len perm : ℕ) (kind : VmaType) (v : Valid space)
    (aligned : va % pgsize ≡ 0) (room : va + len + 8192 ≤ 2 ^ 64)
    (clear : (p : ℕ)
      → elem p space.head_vma ≡ true
      → ((space.vmas p).startva ≤ va)
        ⊎ (va + new_size len ≤ (space.vmas p).startva + (space.vmas p).size)) where
  -- The entry that is filled in
  abbrev entry : ℕ → Vma
  entry i = placed (record (space.vmas i) { used = true }) va len perm kind

  entry_area :
      (i : ℕ)
      → ((entry i).startva ≡ va)
        × ((entry i).size ≡ new_size len)
        × (0 < new_size len)
        × Whole (entry i)
        × (len ≤ new_size len)
  entry_area i = ground arith

  -- The space after `alloc_vma`, and the one in which the overlap test runs
  abbrev allocated : ℕ → Space
  allocated i = set_vma space i (record (space.vmas i) { used = true })

  abbrev filled : ℕ → Space
  filled i = set_vma (allocated i) i (placed ((allocated i).vmas i) va len perm kind)

  abbrev target : ℕ → Space
  target i = set_vma space i (entry i)

  filled_is : (i : ℕ) → filled i ≡ target i
  filled_is i =
      ap (λ (t : ℕ → Vma). record space { vmas = t })
        (fun_ext (λ p. elim (ℕ_discrete p i) [ yes e ↦ ground arith | no ne ↦ ground arith ]))

  range_at :
      (i : ℕ)
      → first_unused space.vmas nvma 0 ≡ some i
      → vma_map_range space va len perm kind
        ≡ (add_vma_to_vmspace (target i) i >>= λ r. some (r, some i))
  unfolding vma_map_range alloc_vma
  range_at i e =
      let w : (va % pgsize == 0) ≡ true = ground arith in
      rw (vma_map_range, alloc_vma, e, w)
        (ap (λ t. add_vma_to_vmspace t i >>= λ r. some (r, some i)) (filled_is i))

  -- The test in `add_vma_to_vmspace`, at the new entry
  Overlap-at :
      (i : ℕ)
      → (space.vmas i).used ≡ false
      → Overlap
          (entry i)
          space.vmas
          space.head_vma
          (check_vma_intersect (target i).vmas space.head_vma ((target i).vmas i))
  Overlap-at i u =
      rw
        (
          check_unlisted space.vmas i (entry i) ((target i).vmas i) space.head_vma
              (unused_not_listed space i v u),
          update_self space.vmas i i (entry i) refl,
        )
        (check_vma_intersect_lem (entry i) space.vmas space.head_vma (entry_area i).3
          (omega (arith, (entry_area i).1, (entry_area i).2)) v.whole)

  add_overlap :
      (i : ℕ)
      → check_vma_intersect (target i).vmas space.head_vma ((target i).vmas i) ≡ true
      → add_vma_to_vmspace (target i) i ≡ none
  unfolding add_vma_to_vmspace
  add_overlap i e = rw (add_vma_to_vmspace, e) refl

  add_clear :
      (i : ℕ)
      → check_vma_intersect (target i).vmas space.head_vma ((target i).vmas i) ≡ false
      → add_vma_to_vmspace (target i) i ≡ some (record (target i) { head_vma = i ∷ space.head_vma })
  unfolding add_vma_to_vmspace
  add_clear i e = rw (add_vma_to_vmspace, e) refl

  range_full :
      first_unused space.vmas nvma 0 ≡ none
      → vma_map_range space va len perm kind ≡ some (space, none)
  unfolding vma_map_range alloc_vma
  range_full e = rw (vma_map_range, alloc_vma, e) refl

  covers-entry : (i a : ℕ) → covers (entry i) a ≡ (leb va a && ltb a (va + new_size len))
  covers-entry i a = ground (arith, entry_area i)

  Mapped-at :
      (i : ℕ)
      → (space.vmas i).used ≡ false
      → ((p : ℕ)
          → elem p space.head_vma ≡ true
          → Apart (entry i) (space.vmas p) ⊎ Inside (entry i) (space.vmas p))
      → Mapped space va len perm kind (record (target i) { head_vma = i ∷ space.head_vma }) i
  Mapped-at i u f = record {
    valid = extended-Valid space i (entry i) v u refl (entry_area i).3 apart;
    fresh = u;
    listed = refl;
    enough = (entry_area i).4;
    area = λ a. rw (update_self space.vmas i i (entry i) refl) (covers-entry i a);
    attributes = rw (update_self space.vmas i i (entry i) refl) (refl, refl);
    others = λ p ne. update-ne space.vmas i p (entry i) ne;
  }
    where
      apart : (p : ℕ) → elem p space.head_vma ≡ true → Apart (entry i) (space.vmas p)
      apart p m = elim (f p m) [
        | inl g ↦ g
        | inr g ↦ absurd (ground (arith, clear p m, entry_area i))
      ]

  -- In a valid address space, for a request that starts at a page, whose area does not reach the
  -- end of the addresses and in whose range no area lies, `vma_map_range` returns the null pointer
  -- and changes nothing where the table is full; panics only where some area shares an address with
  -- the range; otherwise adds one area that covers exactly the range of the rounded request, leaves
  -- all others as they are, and the space stays valid.
  pub vma_map_range_lem : MapEnds space va len perm kind (vma_map_range space va len perm kind)
  vma_map_range_lem = elim (first_unused_lem space.vmas nvma 0) [
    | inl (e, f) ↦ inl (range_full e, λ p h. f p (omega arith) (omega arith))
    | inr (i, e, u) ↦ elim (Overlap-at i u) [
      | inl (c, f) ↦ inr (
          inr (
            record (target i) { head_vma = i ∷ space.head_vma },
            i,
            range_at i e ∙ rw (add_clear i c) refl,
            Mapped-at i u f,
          ))
      | inr (c, p, m, a, g, k) ↦ inr (
          inl (
            range_at i e ∙ rw (add_overlap i c) refl,
            p,
            a,
            m,
            ground (arith, covers-entry i a),
            ground (arith, covers-entry i a),
            k,
          ))
    ]
  ]
