-- ===== src/Mm/Vma/Areas.antt =====
-- The areas of an address space (src/mm/vma.c): lookup, the overlap test, and the invariant.
use native.Mathlib.Decide.{dec_lt, ℕ_discrete}
use lkc.Base.{
  ℕ, ◌+◌, ◌-◌, ◌^◌, ◌≤◌, ◌<◌, ◌≡◌, ◌≢◌, refl, ◌⊎◌, inl, inr, ◌↔◌, Bool, true, false, ◌||◌, List, [],
  ◌∷◌, some, arith, if◌then◌else◌, elem, IsDistinct, Bool-cases,
}
use lkc.Mm.Vma.{Vma, Space, add64, sub64, covers, check_vma_intersect, find_vma_for_va}

-- An area that does not wrap
abbrev pub Whole : Vma → Type 0
Whole v = v.startva + v.size < 2 ^ 64

abbrev pub Apart : Vma → Vma → Type 0
Apart v w = (a : ℕ) → covers v a ≡ true → covers w a ≡ false

-- The second area lies between the first address and the last address of the first.
abbrev pub Inside : Vma → Vma → Type 0
Inside v w = (v.startva < w.startva) × (w.startva + w.size < v.startva + v.size)

pub Apart-sym : (v w : Vma) → Apart v w → Apart w v
Apart-sym v w f a c = ground (arith, f a)

-- What holds of an address space between calls
pub record Valid (space : Space) : Type 0 where
  pub whole : (p : ℕ) → elem p space.head_vma ≡ true → Whole (space.vmas p)
  pub apart :
      (p q : ℕ)
      → elem p space.head_vma ≡ true
      → elem q space.head_vma ≡ true
      → p ≢ q
      → Apart (space.vmas p) (space.vmas q)
  pub distinct : IsDistinct space.head_vma
  pub live : (p : ℕ) → elem p space.head_vma ≡ true → (space.vmas p).used ≡ true

pub find_vma_for_va-Covers :
    (vmas : ℕ → Vma) (ps : List ℕ) (a p : ℕ)
    → find_vma_for_va vmas ps a ≡ some p
    → (elem p ps ≡ true) × (covers (vmas p) a ≡ true)
unfolding find_vma_for_va
find_vma_for_va-Covers vmas [] a p e = absurd (ground arith)
find_vma_for_va-Covers vmas (q ∷ ps) a p e = elim (Bool-cases (covers (vmas q) a)) [
  | inl c ↦ ground arith
  | inr c ↦ ground (arith, find_vma_for_va-Covers vmas ps a p)
]

find-Apart :
    (vmas : ℕ → Vma) (ps : List ℕ) (a p : ℕ)
    → ((q : ℕ) → elem q ps ≡ true → p ≢ q → Apart (vmas p) (vmas q))
    → elem p ps ≡ true
    → covers (vmas p) a ≡ true
    → find_vma_for_va vmas ps a ≡ some p
unfolding find_vma_for_va
find-Apart vmas [] a p f h c = absurd (ground arith)
find-Apart vmas (q ∷ ps) a p f h c = elim (ℕ_discrete p q) [
  | yes e ↦ ground arith
  | no ne ↦
      let out : covers (vmas q) a ≡ false = f q (ground arith) ne a c in
      rw (find_vma_for_va, out)
        (find-Apart vmas ps a p (λ r k. f r (ground arith)) (ground arith) c)
]

pub find_vma_for_va-covers :
    (space : Space) (a p : ℕ)
    → Valid space
    → (find_vma_for_va space.vmas space.head_vma a ≡ some p)
      ↔ ((elem p space.head_vma ≡ true) × (covers (space.vmas p) a ≡ true))
find_vma_for_va-covers space a p v = (
  λ e. find_vma_for_va-Covers space.vmas space.head_vma a p e,
  λ k. find-Apart space.vmas space.head_vma a p (λ q m ne. v.apart p q k.0 m ne) k.0 k.1,
)

pub covers_iff :
    (v : Vma) (a : ℕ) → Whole v → (covers v a ≡ true) ↔ ((v.startva ≤ a) × (a < v.startva + v.size))
covers_iff v a h = ground arith

-- In a valid address space `find_vma_for_va` finds an area exactly if it is listed and the address
-- is not below its start and below the sum of its start and size.
pub find_vma_for_va_lem :
    (space : Space) (a p : ℕ)
    → Valid space
    → (find_vma_for_va space.vmas space.head_vma a ≡ some p) ↔ (
        (elem p space.head_vma ≡ true)
        × ((space.vmas p).startva ≤ a)
        × (a < (space.vmas p).startva + (space.vmas p).size))
find_vma_for_va_lem space a p v = (
  λ e.
      let (m, c) = (find_vma_for_va-covers space a p v).0 e in
      let r = (covers_iff (space.vmas p) a (v.whole p m)).0 c in (m, r.0, r.1),
  λ k.
      (find_vma_for_va-covers space a p v).1
        (k.0, (covers_iff (space.vmas p) a (v.whole p k.0)).1 (k.1, k.2)),
)

last_address :
    (v : Vma) → Whole v → 0 < v.size → sub64 (add64 v.startva v.size) 1 ≡ v.startva + v.size - 1
last_address v h k = omega arith

-- An area that covers neither end of another one is apart from it or inside it.
Apart-or_Inside :
    (v w : Vma)
    → Whole v
    → Whole w
    → covers w v.startva ≡ false
    → covers w (v.startva + v.size - 1) ≡ false
    → Apart v w ⊎ Inside v w
Apart-or_Inside v w h k e f = elim (dec_lt v.startva w.startva) [
  | yes lt ↦ elim (dec_lt (w.startva + w.size) (v.startva + v.size)) [
    | yes lt' ↦ inr (lt, lt')
    | no ge ↦ inl (λ a c.
        ground (arith, covers_iff w a k, covers_iff v a h, covers_iff w (v.startva + v.size - 1) k))
  ]
  | no ge ↦
      inl (λ a c. ground (arith, covers_iff w a k, covers_iff v a h, covers_iff w v.startva k))
]

-- What the overlap test answers
abbrev pub Overlap : Vma → (ℕ → Vma) → List ℕ → Bool → Type 0
Overlap v vmas ps b =
    ((b ≡ false) × ((p : ℕ) → elem p ps ≡ true → Apart v (vmas p) ⊎ Inside v (vmas p)))
    ⊎ ((b ≡ true)
        × (p : ℕ) × (elem p ps ≡ true)
        × (a : ℕ) × (covers v a ≡ true)
        × (covers (vmas p) a ≡ true))

-- The overlap test against one more area
Overlap-more :
    (v : Vma) (vmas : ℕ → Vma) (q : ℕ) (ps : List ℕ) (b c : Bool)
    → ((c ≡ false) × (Apart v (vmas q) ⊎ Inside v (vmas q)))
      ⊎ ((c ≡ true) × (a : ℕ) × (covers v a ≡ true) × (covers (vmas q) a ≡ true))
    → Overlap v vmas ps b
    → Overlap v vmas (q ∷ ps) (if c then true else b)
Overlap-more v vmas q ps b c (inr (e, a, k, l)) o = inr (ground arith, q, ground arith, a, k, l)
Overlap-more v vmas q ps b c (inl (e, k)) (inr (f, p, m, a, r, t)) =
    inr (ground arith, p, ground arith, a, r, t)
Overlap-more v vmas q ps b c (inl (e, k)) (inl (f, g)) =
    inl
      (ground arith, λ p m. elim (ℕ_discrete p q) [ yes s ↦ rw (s) k | no ne ↦ g p (ground arith) ])

one_end :
    (v w : Vma)
    → Whole v
    → 0 < v.size
    → Whole w
    → (((covers w v.startva || covers w (sub64 (add64 v.startva v.size) 1)) ≡ false)
        × (Apart v w ⊎ Inside v w))
      ⊎ (((covers w v.startva || covers w (sub64 (add64 v.startva v.size) 1)) ≡ true)
          × (a : ℕ) × (covers v a ≡ true)
          × (covers w a ≡ true))
one_end v w h k l = elim (Bool-cases (covers w v.startva)) [
  | inl c ↦ inr (ground arith, v.startva, ground (arith, covers_iff v v.startva h), c)
  | inr c ↦ elim (Bool-cases (covers w (v.startva + v.size - 1))) [
    | inl d ↦ inr (
      ground (arith, last_address v h k),
      v.startva + v.size - 1,
      ground (arith, covers_iff v (v.startva + v.size - 1) h),
      d,
    )
    | inr d ↦ inl (ground (arith, last_address v h k), Apart-or_Inside v w h l c d)
  ]
]

-- For an area that is not empty and does not wrap, on areas none of which wraps: where the overlap
-- test says no, each of them is apart from the new area or lies inside it, between its first and
-- its last address; where it says yes, one of them shares an address with the new area.
pub check_vma_intersect_lem :
    (v : Vma) (vmas : ℕ → Vma) (ps : List ℕ)
    → Whole v
    → 0 < v.size
    → ((p : ℕ) → elem p ps ≡ true → Whole (vmas p))
    → Overlap v vmas ps (check_vma_intersect vmas ps v)
unfolding check_vma_intersect
check_vma_intersect_lem v vmas [] h k f = inl (refl, λ p m. absurd (ground arith))
check_vma_intersect_lem v vmas (q ∷ ps) h k f =
    Overlap-more v vmas q ps (check_vma_intersect vmas ps v) _
      (one_end v (vmas q) h k (f q (ground arith)))
      (check_vma_intersect_lem v vmas ps h k (λ p m. f p (ground arith)))

-- An unused entry is on no list.
pub unused_not_listed :
    (space : Space) (i : ℕ)
    → Valid space
    → (space.vmas i).used ≡ false
    → elem i space.head_vma ≡ false
unused_not_listed space i v u = ground (arith, v.live i)
