-- ===== src/Mm/Vma/Views.antt =====
-- What addresses mean to a process, before and after an area is cut (src/mm/vma.c).
use native.Mathlib.Decide.{ℕ_discrete}
use lkc.Base.{
  ℕ, ◌≡◌, ◌≢◌, sym, ap, ◌∙◌, inl, inr, Bool, true, false, not, ◌&&◌, ◌∷◌, Option, none, some, arith,
  elem, IsDistinct, Bool-cases, Option-cases,
}
use lkc.Mm.Vma.{Vma, VmaType, Space, covers, add64, sub64, find_vma_for_va}
use lkc.Mm.Vma.Areas.{Valid, find_vma_for_va-covers, find_vma_for_va-Covers}

-- What an address means to the process: the kind, permissions and file of its area, and its place in
-- the file
abbrev pub meaning : Vma → ℕ → VmaType × ℕ × Option ℕ × ℕ
meaning v a = (v.kind, v.perm, v.vm_file, add64 v.offset (sub64 a v.startva))

abbrev pub meaning_of : Space → ℕ → Option ℕ → Option (VmaType × ℕ × Option ℕ × ℕ)
meaning_of space a none = none
meaning_of space a (some p) = some (meaning (space.vmas p) a)

abbrev pub view : Space → ℕ → Option (VmaType × ℕ × Option ℕ × ℕ)
view space a = meaning_of space a (find_vma_for_va space.vmas space.head_vma a)

-- The areas `i` and `j` of the second space are the two sides of the area `i` of the first.
pub record Pieces (space space' : Space) (i j : ℕ) (side : ℕ → Bool) : Type 0 where
  pub before : Valid space
  pub after : Valid space'
  pub listed : elem i space.head_vma ≡ true
  pub added : space'.head_vma ≡ j ∷ space.head_vma
  pub old_part : (a : ℕ) → covers (space'.vmas i) a ≡ (covers (space.vmas i) a && side a)
  pub new_part : (a : ℕ) → covers (space'.vmas j) a ≡ (covers (space.vmas i) a && not (side a))
  pub others : (p : ℕ) → p ≢ i → p ≢ j → space'.vmas p ≡ space.vmas p
  pub old_same :
      (a : ℕ)
      → covers (space'.vmas i) a ≡ true
      → meaning (space'.vmas i) a ≡ meaning (space.vmas i) a
  pub new_same :
      (a : ℕ)
      → covers (space'.vmas j) a ≡ true
      → meaning (space'.vmas j) a ≡ meaning (space.vmas i) a

-- The lookup of an address in a known area
found :
    (space : Space) (a p : ℕ)
    → Valid space
    → elem p space.head_vma ≡ true
    → covers (space.vmas p) a ≡ true
    → view space a ≡ some (meaning (space.vmas p) a)
found space a p h k c = ap (meaning_of space a) ((find_vma_for_va-covers space a p h).1 (k, c))

module _ {space space' : Space} {i j : ℕ} {side : ℕ → Bool} (s : Pieces space space' i j side) where
  -- The new entry was on no list.
  out : elem j space.head_vma ≡ false
  out = let d : IsDistinct (j ∷ space.head_vma) = rw s.added at s.after.distinct in d.0

  listed_old : elem i space'.head_vma ≡ true
  listed_old = rw (s.added) (ground (arith, s.listed))

  listed_new : elem j space'.head_vma ≡ true
  listed_new = rw (s.added) (ground arith)

  view_inside : (a : ℕ) → covers (space.vmas i) a ≡ true → view space' a ≡ view space a
  view_inside a c = elim (Bool-cases (side a)) [
    | inl e ↦
        let c' : covers (space'.vmas i) a ≡ true = ground (arith, s.old_part a) in
        found space' a i s.after listed_old c'
        ∙ ap some (s.old_same a c')
        ∙ sym (found space a i s.before s.listed c)
    | inr e ↦
        let c' : covers (space'.vmas j) a ≡ true = ground (arith, s.new_part a) in
        found space' a j s.after listed_new c'
        ∙ ap some (s.new_same a c')
        ∙ sym (found space a i s.before s.listed c)
  ]

  view_other :
      (a p : ℕ)
      → elem p space.head_vma ≡ true
      → p ≢ i
      → covers (space.vmas p) a ≡ true
      → view space' a ≡ view space a
  view_other a p k d c =
      let d' : p ≢ j = λ e. ground (arith, out) in
      found space' a p s.after (rw (s.added) (ground arith)) (rw (s.others p d d') c)
      ∙ ap some (ap (λ t. meaning t a) (s.others p d d'))
      ∙ sym (found space a p s.before k c)

  -- An address outside the area that is cut is in no area that it was not in before.
  covered_other :
      (a p : ℕ)
      → covers (space.vmas i) a ≡ false
      → elem p space'.head_vma ≡ true
      → covers (space'.vmas p) a ≡ true
      → (elem p space.head_vma ≡ true) × (p ≢ i) × (covers (space.vmas p) a ≡ true)
  covered_other a p o k c = elim (ℕ_discrete p j) [
    | yes e ↦ absurd (ground (arith, s.new_part a, ap (λ t. covers (space'.vmas t) a) e))
    | no d' ↦ elim (ℕ_discrete p i) [
      | yes e ↦ absurd (ground (arith, s.old_part a, ap (λ t. covers (space'.vmas t) a) e))
      | no d ↦
          let k' : elem p (j ∷ space.head_vma) ≡ true = rw s.added at k in
          (ground arith, d, ap (λ t. covers t a) (sym (s.others p d d')) ∙ c)
    ]
  ]

  view_outside : (a : ℕ) → covers (space.vmas i) a ≡ false → view space' a ≡ view space a
  view_outside a o = elim (Option-cases (find_vma_for_va space.vmas space.head_vma a)) [
    | inr (p, e) ↦
        let (k, c) = find_vma_for_va-Covers space.vmas space.head_vma a p e in
        view_other a p k (λ g. ground (arith, ap (λ t. covers (space.vmas t) a) g)) c
    | inl e ↦ elim (Option-cases (find_vma_for_va space'.vmas space'.head_vma a)) [
      | inl e' ↦ ap (meaning_of space' a) e' ∙ sym (ap (meaning_of space a) e)
      | inr (p, e') ↦
          let (k, c) = find_vma_for_va-Covers space'.vmas space'.head_vma a p e' in
          let (k', d, c') = covered_other a p o k c in view_other a p k' d c'
    ]
  ]

  -- Every address means what it meant before.
  pub view_same : (a : ℕ) → view space' a ≡ view space a
  view_same a = elim (Bool-cases (covers (space.vmas i) a)) [
    | inl c ↦ view_inside a c
    | inr c ↦ view_outside a c
  ]
