-- ===== src/Mm/Vma/Cutting.antt =====
-- The two parts of an area that `split_vma` of src/mm/vma.c cuts.
use lkc.Base.{ℕ, ◌+◌, ◌<◌, ◌≡◌, refl, ap, Bool, true, false, not, ◌&&◌, arith, ltb, leb}
use lkc.Mm.Vma.{Vma, covers, split_old, split_new}
use lkc.Mm.Vma.Areas.{Whole, Apart}
use lkc.Mm.Vma.Views.{meaning}

-- Whether an address falls to the old entry
abbrev pub old_side : Bool → ℕ → ℕ → Bool
old_side true addr a = leb addr a
old_side false addr a = ltb a addr

module _ (v : Vma) (addr : ℕ) (w : Whole v) (low : v.startva < addr)
    (high : addr < v.startva + v.size) where
  pub old_covers :
      (below : Bool) (a : ℕ)
      → covers (split_old v addr below) a ≡ (covers v a && old_side below addr a)
  old_covers true a = ground arith
  old_covers false a = ground arith

  pub new_covers :
      (below : Bool) (a : ℕ)
      → covers (split_new v addr below) a ≡ (covers v a && not (old_side below addr a))
  new_covers true a = ground arith
  new_covers false a = ground arith

  pub old_meaning :
      (below : Bool) (a : ℕ)
      → covers (split_old v addr below) a ≡ true
      → meaning (split_old v addr below) a ≡ meaning v a
  old_meaning true a c = ap (λ t. (v.kind, v.perm, v.vm_file, t)) (ground arith)
  old_meaning false a c = refl

  pub new_meaning :
      (below : Bool) (a : ℕ)
      → covers (split_new v addr below) a ≡ true
      → meaning (split_new v addr below) a ≡ meaning v a
  new_meaning true a c = refl
  new_meaning false a c = ap (λ t. (v.kind, v.perm, v.vm_file, t)) (ground arith)

  pub old_whole : (below : Bool) → Whole (split_old v addr below)
  old_whole true = omega arith
  old_whole false = omega arith

  pub new_whole : (below : Bool) → Whole (split_new v addr below)
  new_whole true = omega arith
  new_whole false = omega arith

  pub new_size_pos : (below : Bool) → 0 < (split_new v addr below).size
  new_size_pos true = omega arith
  new_size_pos false = omega arith

  pub new-Apart-old : (below : Bool) → Apart (split_new v addr below) (split_old v addr below)
  new-Apart-old below a c = ground (arith, old_covers below a, new_covers below a)

-- Both parts keep the mark.
pub old_used : (v : Vma) (addr : ℕ) (below : Bool) → (split_old v addr below).used ≡ v.used
old_used v addr true = refl
old_used v addr false = refl

pub new_used : (v : Vma) (addr : ℕ) (below : Bool) → (split_new v addr below).used ≡ v.used
new_used v addr true = refl
new_used v addr false = refl
