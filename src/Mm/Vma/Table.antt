-- ===== src/Mm/Vma/Table.antt =====
-- The table of areas of src/mm/vma.c: free entries, and spaces with one entry written.
use native.Mathlib.Decide.{ℕ_discrete}
use lkc.Base.{
  ℕ, zero, suc, ◌+◌, ◌≤◌, ◌<◌, ◌≡◌, ◌≢◌, refl, sym, ◌∙◌, ◌⊎◌, inl, inr, true, false, List, [], ◌∷◌,
  Option, none, some, arith, elem, Bool-cases, update, update_self, update-ne,
}
use lkc.Mm.Vma.{
  Vma, Space, covers, check_vma_intersect, first_unused, add_vma_to_vmspace, set_vma, filedup_of,
}
use lkc.Mm.Vma.Areas.{Whole, Apart, Valid, Apart-sym, unused_not_listed}

pub first_unused_lem :
    (vmas : ℕ → Vma) (rounds i : ℕ)
    → ((first_unused vmas rounds i ≡ none)
        × ((p : ℕ) → i ≤ p → p < i + rounds → (vmas p).used ≡ true))
      ⊎ ((p : ℕ) × (first_unused vmas rounds i ≡ some p) × ((vmas p).used ≡ false))
unfolding first_unused
first_unused_lem vmas zero i = inl (refl, λ p h k. absurd (omega arith))
first_unused_lem vmas (suc rounds) i = elim (Bool-cases (vmas i).used) [
  | inr e ↦ inr (i, ground arith, e)
  | inl e ↦ elim (first_unused_lem vmas rounds (i + 1)) [
    | inl (f, g) ↦ inl (
      ground arith,
      λ p h k. elim (ℕ_discrete i p) [
        | yes s ↦ rw (← s) e
        | no ne ↦ g p (omega arith) (omega arith)
      ],
    )
    | inr (p, f, u) ↦ inr (p, ground arith, u)
  ]
]

-- A write to an entry that is not on the list
pub check_unlisted :
    (vmas : ℕ → Vma) (i : ℕ) (w v : Vma) (ps : List ℕ)
    → elem i ps ≡ false
    → check_vma_intersect (update vmas i w) ps v ≡ check_vma_intersect vmas ps v
unfolding check_vma_intersect
check_unlisted vmas i w v [] h = refl
check_unlisted vmas i w v (q ∷ ps) h =
    rw
      (
        check_vma_intersect,
        update-ne vmas i q w (λ e. ground arith),
        check_unlisted vmas i w v ps (ground arith),
      )
      refl

-- A space with a new area at the front of its list, in an entry that was unused
pub extended-Valid :
    (space : Space) (i : ℕ) (v : Vma)
    → Valid space
    → (space.vmas i).used ≡ false
    → v.used ≡ true
    → Whole v
    → ((p : ℕ) → elem p space.head_vma ≡ true → Apart v (space.vmas p))
    → Valid (record (set_vma space i v) { head_vma = i ∷ space.head_vma })
extended-Valid space i v h u w l f = record {
  whole = λ p m. elim (ℕ_discrete p i) [ yes e ↦ ground arith | no ne ↦ ground (arith, h.whole p) ];
  apart = apart;
  distinct = (out, h.distinct);
  live = λ p m. ground (arith, h.live p);
}
  where
    out : elem i space.head_vma ≡ false
    out = unused_not_listed space i h u

    apart :
        (p q : ℕ)
        → elem p (i ∷ space.head_vma) ≡ true
        → elem q (i ∷ space.head_vma) ≡ true
        → p ≢ q
        → Apart (update space.vmas i v p) (update space.vmas i v q)
    apart p q m n ne = elim (ℕ_discrete p i) [
      | yes e ↦
          rw (update_self space.vmas i p v e, update-ne space.vmas i q v (λ d. ne (e ∙ sym d)))
            (f q (ground arith))
      | no d ↦ elim (ℕ_discrete q i) [
        | yes e ↦
            rw (update_self space.vmas i q v e, update-ne space.vmas i p v d)
              (Apart-sym v (space.vmas p) (f p (ground arith)))
        | no d' ↦
            rw (update-ne space.vmas i p v d, update-ne space.vmas i q v d')
              (h.apart p q (ground arith) (ground arith) ne)
      ]
    ]

-- A valid space stays valid when one listed area shrinks.
pub shrunk-Valid :
    (space : Space) (i : ℕ) (v : Vma)
    → Valid space
    → elem i space.head_vma ≡ true
    → v.used ≡ true
    → Whole v
    → ((a : ℕ) → covers v a ≡ true → covers (space.vmas i) a ≡ true)
    → Valid (set_vma space i v)
shrunk-Valid space i v h m u w f = record {
  whole = λ p k. elim (ℕ_discrete p i) [
    | yes e ↦ rw (update_self space.vmas i p v e) w
    | no ne ↦ rw (update-ne space.vmas i p v ne) (h.whole p k)
  ];
  apart = λ p q k l ne. elim (ℕ_discrete p i) [
    | yes e ↦
        rw (update_self space.vmas i p v e, update-ne space.vmas i q v (λ d. ne (e ∙ sym d)))
          (λ a c. h.apart i q m l (λ d. ne (e ∙ d)) a (f a c))
    | no d ↦ elim (ℕ_discrete q i) [
      | yes e ↦
          rw (update_self space.vmas i q v e, update-ne space.vmas i p v d)
            (Apart-sym v (space.vmas p) (λ a c. h.apart i p m k (λ g. d (sym g)) a (f a c)))
      | no d' ↦
          rw (update-ne space.vmas i p v d, update-ne space.vmas i q v d') (h.apart p q k l ne)
    ]
  ];
  distinct = h.distinct;
  live = λ p k. elim (ℕ_discrete p i) [
    | yes e ↦ rw (update_self space.vmas i p v e) u
    | no ne ↦ rw (update-ne space.vmas i p v ne) (h.live p k)
  ];
}

pub filedup_of-Valid : (space : Space) (f : Option ℕ) → Valid space → Valid (filedup_of space f)
filedup_of-Valid space none h = h
filedup_of-Valid space (some f) h = record {
  whole = h.whole;
  apart = h.apart;
  distinct = h.distinct;
  live = h.live;
}

-- `add_vma_to_vmspace` where the overlap test says no
pub add_counted :
    (space : Space) (f : Option ℕ) (j : ℕ)
    → check_vma_intersect space.vmas space.head_vma (space.vmas j) ≡ false
    → add_vma_to_vmspace (filedup_of space f) j
      ≡ some (filedup_of (record space { head_vma = j ∷ space.head_vma }) f)
unfolding add_vma_to_vmspace
add_counted space none j e = rw (add_vma_to_vmspace, e) refl
add_counted space (some f) j e = rw (add_vma_to_vmspace, e) refl
