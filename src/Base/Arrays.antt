-- ===== src/Base/Arrays.antt =====
-- Arrays as functions from indices, and lists of indices with a Boolean membership test.
use Prim.Native.Nat.{ℕ, ◌+◌}
use mathlib.Core.Path.{◌≡◌, refl, fun_ext}
use mathlib.Core.Logic.{◌≢◌}
use mathlib.Core.Bool.{Bool, true, false, ◌||◌}
use mathlib.Core.List.{List, [], ◌∷◌}
use native.Mathlib.Omega.{arith}
use lkc.Base.Tests.{◌==◌, if◌then◌else◌}
use lkc.Base.Lists.{length}

-- `a[i] = v`
abbrev pub update {ℓ} : {A : Type ℓ} → (ℕ → A) → ℕ → A → ℕ → A
update f i v j = if i == j then v else f j

pub update_self {ℓ} : {A : Type ℓ} (f : ℕ → A) (i j : ℕ) (v : A) → j ≡ i → update f i v j ≡ v
update_self f i j v e = ground arith

pub update-ne {ℓ} : {A : Type ℓ} (f : ℕ → A) (i j : ℕ) (v : A) → j ≢ i → update f i v j ≡ f j
update-ne f i j v e = ground arith

-- Writes at different indices commute, and the later of two at one index counts.
pub update_swap {ℓ} :
    {A : Type ℓ} (f : ℕ → A) (i j : ℕ) (a b c : A)
    → j ≢ i
    → update (update (update f j a) j b) i c ≡ update (update f i c) j b
update_swap f i j a b c ne = fun_ext (λ k. ground arith)

abbrev pub elem : ℕ → List ℕ → Bool
elem a [] = false
elem a (x ∷ xs) = a == x || elem a xs

-- The list with the first `a` taken out.
abbrev pub erase : ℕ → List ℕ → List ℕ
erase a [] = []
erase a (x ∷ xs) = if a == x then xs else x ∷ erase a xs

abbrev pub IsDistinct : List ℕ → Type 0
IsDistinct [] = Unit
IsDistinct (x ∷ xs) = (elem x xs ≡ false) × IsDistinct xs

pub elem-erase :
    (a b : ℕ) (xs : List ℕ)
    → IsDistinct xs
    → elem b (erase a xs) ≡ (if a == b then false else elem b xs)
elem-erase a b [] d = ground arith
elem-erase a b (x ∷ xs) d = ground (arith, elem-erase a b xs d.1)

pub erase-IsDistinct : (a : ℕ) (xs : List ℕ) → IsDistinct xs → IsDistinct (erase a xs)
erase-IsDistinct a [] d = d
erase-IsDistinct a (x ∷ xs) d = ground (arith, erase-IsDistinct a xs d.1, elem-erase a x xs d.1)

pub length-erase : (a : ℕ) (xs : List ℕ) → elem a xs ≡ true → length (erase a xs) + 1 ≡ length xs
length-erase a [] h = ground arith
length-erase a (x ∷ xs) h = ground (arith, length-erase a xs)

pub erase_of_not_elem : (a : ℕ) (xs : List ℕ) → elem a xs ≡ false → erase a xs ≡ xs
erase_of_not_elem a [] h = refl
erase_of_not_elem a (x ∷ xs) h = ground (arith, erase_of_not_elem a xs)
