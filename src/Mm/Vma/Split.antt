-- ===== src/Mm/Vma/Split.antt =====
-- `split_vma` of src/mm/vma.c on an address space.
use native.Mathlib.Decide.{ℕ_discrete}
use lkc.Base.{
  ℕ, ◌+◌, ◌<◌, ◌≡◌, ◌≢◌, refl, sym, ap, ◌∙◌, ◌⊎◌, inl, inr, Bool, true, false, not, ◌&&◌, ◌∷◌,
  Option, none, some, arith, elem, update_self, update-ne, update_swap,
}
use lkc.Base.Int.{ℤ, pos, negsuc}
use lkc.Base.Panic.{◌>>=◌}
use lkc.Mm.Vma.{
  Vma, Space, nvma, covers, check_vma_intersect, first_unused, alloc_vma, add_vma_to_vmspace,
  set_vma, split_old, split_new, split_vma, filedup_of,
}
use lkc.Mm.Vma.Areas.{Whole, Apart, Valid, check_vma_intersect_lem, unused_not_listed}
use lkc.Mm.Vma.Cutting.{
  old_side, old_covers, new_covers, old_meaning, new_meaning, old_whole, new_whole, new_size_pos,
  new-Apart-old, old_used, new_used,
}
use lkc.Mm.Vma.Table.{
  first_unused_lem, extended-Valid, check_unlisted, shrunk-Valid, filedup_of-Valid, add_counted,
}
use lkc.Mm.Vma.Views.{view, Pieces, view_same}

pub record Split (space : Space) (i addr : ℕ) (below : Bool) (space' : Space) (j : ℕ) : Type 0 where
  pub valid : Valid space'
  pub fresh : (space.vmas j).used ≡ false
  pub listed : space'.head_vma ≡ j ∷ space.head_vma
  pub old_part :
      (a : ℕ) → covers (space'.vmas i) a ≡ (covers (space.vmas i) a && old_side below addr a)
  pub new_part :
      (a : ℕ) → covers (space'.vmas j) a ≡ (covers (space.vmas i) a && not (old_side below addr a))
  pub others : (p : ℕ) → p ≢ i → p ≢ j → space'.vmas p ≡ space.vmas p
  pub same_view : (a : ℕ) → view space' a ≡ view space a

-- The two ends of `split_vma`: the table is full, or the area is cut
abbrev pub SplitEnds : Space → ℕ → ℕ → Bool → Option (Space × ℤ) → Type 0
SplitEnds space i addr below r =
    ((r ≡ some (space, negsuc 0)) × ((p : ℕ) → p < nvma → (space.vmas p).used ≡ true))
    ⊎ ((space' : Space) × (j : ℕ) × (r ≡ some (space', pos 0)) × Split space i addr below space' j)

module _ (space : Space) (i addr : ℕ) (below : Bool) (h : Valid space)
    (m : elem i space.head_vma ≡ true) (low : (space.vmas i).startva < addr)
    (high : addr < (space.vmas i).startva + (space.vmas i).size) where
  abbrev v : Vma
  v = space.vmas i

  w : Whole v
  w = h.whole i m

  -- The space with the old entry cut, and the one with the new entry as well
  abbrev shrunk : Space
  shrunk = set_vma space i (split_old v addr below)

  shrunk-IsValid : Valid shrunk
  shrunk-IsValid =
      shrunk-Valid space i (split_old v addr below) h m (old_used v addr below ∙ h.live i m)
        (old_whole v addr w low high below)
        (λ a c. ground (arith, old_covers v addr w low high below a))

  module _ (j : ℕ) (u : (space.vmas j).used ≡ false) where
    out : elem j space.head_vma ≡ false
    out = unused_not_listed space j h u

    ne : j ≢ i
    ne e = ground (arith, out, m)

    abbrev joined : Space
    joined = record (set_vma shrunk j (split_new v addr below)) { head_vma = j ∷ space.head_vma }

    new-Apart :
        (p : ℕ) → elem p space.head_vma ≡ true → Apart (split_new v addr below) (shrunk.vmas p)
    new-Apart p k = elim (ℕ_discrete p i) [
      | yes e ↦
          rw (update_self space.vmas i p (split_old v addr below) e)
            (new-Apart-old v addr w low high below)
      | no d ↦ rw (update-ne space.vmas i p (split_old v addr below) d) (λ a c.
          h.apart i p m k (λ g. d (sym g)) a (ground (arith, new_covers v addr w low high below a)))
    ]

    joined-Valid : Valid joined
    joined-Valid =
        extended-Valid shrunk j (split_new v addr below) shrunk-IsValid
          (rw (update-ne space.vmas i j (split_old v addr below) ne) u)
          (new_used v addr below ∙ h.live i m) (new_whole v addr w low high below) new-Apart

    -- The overlap test of the new entry says no.
    no_overlap :
        check_vma_intersect
          (set_vma shrunk j (split_new v addr below)).vmas
          space.head_vma
          ((set_vma shrunk j (split_new v addr below)).vmas j)
        ≡ false
    no_overlap =
        rw
          (
            update_self shrunk.vmas j j (split_new v addr below) refl,
            check_unlisted shrunk.vmas j (split_new v addr below) (split_new v addr below)
                space.head_vma out,
          )
          (elim (check_vma_intersect_lem (split_new v addr below) shrunk.vmas space.head_vma
            (new_whole v addr w low high below) (new_size_pos v addr w low high below)
            shrunk-IsValid.whole) [
              | inl (e, _) ↦ e
              | inr (e, p, k, a, c, d) ↦ absurd (ground (arith, new-Apart p k a c))
            ])

    abbrev marked : Vma
    marked = record (space.vmas j) { used = true }

    cut_is :
        set_vma
          (set_vma (set_vma space j marked) j (split_new v addr below))
          i
          (split_old v addr below)
        ≡ set_vma shrunk j (split_new v addr below)
    cut_is =
        ap (λ (t : ℕ → Vma). record space { vmas = t })
          (update_swap space.vmas i j marked (split_new v addr below) (split_old v addr below) ne)

    run_at :
        first_unused space.vmas nvma 0 ≡ some j
        → split_vma space i addr below ≡ (
            add_vma_to_vmspace (filedup_of (set_vma shrunk j (split_new v addr below)) v.vm_file) j
            >>= λ r. some (r, pos 0))
    unfolding split_vma alloc_vma
    run_at e =
        rw (split_vma, alloc_vma, e, update-ne space.vmas j i marked (λ d. ne (sym d)))
          (ap (λ t. add_vma_to_vmspace (filedup_of t v.vm_file) j >>= λ r. some (r, pos 0)) cut_is)

    -- The areas of the two entries in the end, and of all others
    at_old : joined.vmas i ≡ split_old v addr below
    at_old =
        update-ne shrunk.vmas j i (split_new v addr below) (λ d. ne (sym d))
        ∙ update_self space.vmas i i (split_old v addr below) refl

    at_new : joined.vmas j ≡ split_new v addr below
    at_new = update_self shrunk.vmas j j (split_new v addr below) refl

    at_other : (p : ℕ) → p ≢ i → p ≢ j → joined.vmas p ≡ space.vmas p
    at_other p d d' =
        update-ne shrunk.vmas j p (split_new v addr below) d'
        ∙ update-ne space.vmas i p (split_old v addr below) d

    pieces : Pieces space joined i j (old_side below addr)
    pieces = record {
      before = h;
      after = joined-Valid;
      listed = m;
      added = refl;
      old_part = λ a. rw (at_old) (old_covers v addr w low high below a);
      new_part = λ a. rw (at_new) (new_covers v addr w low high below a);
      others = at_other;
      old_same = λ a c. rw (at_old) (old_meaning v addr w low high below a (rw at_old at c));
      new_same = λ a c. rw (at_new) (new_meaning v addr w low high below a (rw at_new at c));
    }

    Split-at : Split space i addr below joined j
    Split-at = record {
      valid = joined-Valid;
      fresh = u;
      listed = refl;
      old_part = pieces.old_part;
      new_part = pieces.new_part;
      others = at_other;
      same_view = view_same pieces;
    }

-- The split that the code makes also counts a reference to the file.
counted-Split :
    {space space' : Space} {i addr j : ℕ} {below : Bool} (f : Option ℕ)
    → Split space i addr below space' j
    → Split space i addr below (filedup_of space' f) j
counted-Split none s = s
counted-Split {space' = space'} (some f) s = record {
  valid = filedup_of-Valid space' (some f) s.valid;
  fresh = s.fresh;
  listed = s.listed;
  old_part = s.old_part;
  new_part = s.new_part;
  others = s.others;
  same_view = s.same_view;
}

-- In a valid address space, at an address strictly inside a listed area, `split_vma` never panics:
-- it returns -1 and changes nothing where the table of areas is full; otherwise it returns 0, the
-- old and the new entry cover the two parts on the sides asked for, all other areas are as they
-- were, every address keeps its kind, permissions, file and place in the file, and the space stays
-- valid.
pub split_vma_lem :
    (space : Space) (i addr : ℕ) (below : Bool)
    → Valid space
    → elem i space.head_vma ≡ true
    → (space.vmas i).startva < addr
    → addr < (space.vmas i).startva + (space.vmas i).size
    → SplitEnds space i addr below (split_vma space i addr below)
unfolding split_vma alloc_vma
split_vma_lem space i addr below h m low high = elim (first_unused_lem space.vmas nvma 0) [
  | inl (e, f) ↦ inl (rw (split_vma, alloc_vma, e) refl, λ p k. f p (omega arith) (omega arith))
  | inr (j, e, u) ↦ inr (
    filedup_of (joined space i addr below h m low high j u) (space.vmas i).vm_file,
    j,
    run_at space i addr below h m low high j u e
        ∙ rw
            (add_counted
              (set_vma (shrunk space i addr below h m low high) j
                (split_new (space.vmas i) addr below))
              (space.vmas i).vm_file j (no_overlap space i addr below h m low high j u))
            refl,
    counted-Split (space.vmas i).vm_file (Split-at space i addr below h m low high j u),
  )
]
