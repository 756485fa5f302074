-- ===== src/Base/Powers.antt =====
-- Multiples of powers of two, by which blocks are aligned.
use native.Mathlib.Nat.{two-pow-succ, mul-le-mul_right}
use native.Mathlib.Decide.{dec_lt}
use Prim.Native.Nat.{ℕ, zero, suc, ◌+◌, ◌-◌, ◌*◌, ◌^◌, ◌≤◌, ◌<◌}
use mathlib.Core.Path.{◌≡◌, ap, ◌∙◌}
use native.Mathlib.Omega.{arith}

-- A larger power of two is a multiple of a smaller one.
two-pow-add : (k d : ℕ) → (c : ℕ) × (2 ^ (k + d) ≡ c * 2 ^ k)
two-pow-add k zero =
    let e : k + zero ≡ k = omega arith in (1, ap (λ (t : ℕ). 2 ^ t) e ∙ omega arith)
two-pow-add k (suc d) =
    let (c, h) = two-pow-add k d in
    let e : k + suc d ≡ suc (k + d) = omega arith in
    (c * 2, ap (λ (t : ℕ). 2 ^ t) e ∙ omega (arith, two-pow-succ (k + d), h))

pub two-pow-multiple : (k o : ℕ) → k ≤ o → (c : ℕ) × (2 ^ o ≡ c * 2 ^ k)
two-pow-multiple k o h =
    let (c, e) = two-pow-add k (o - k) in
    let s : o ≡ k + (o - k) = omega arith in (c, ap (λ (t : ℕ). 2 ^ t) s ∙ e)

-- Two multiples of `w`, one of which lies above the other, are a whole step apart.
pub multiple_step : (a b w : ℕ) → a * w < b * w → a * w + w ≤ b * w
multiple_step a b w h = elim (dec_lt a b) [
  | yes lt ↦ omega (arith, mul-le-mul_right {m = a + 1} {n = b} w (omega arith))
  | no ge ↦ absurd (omega (arith, mul-le-mul_right {m = b} {n = a} w (omega arith)))
]

-- A multiple of `w` in the interval of length `w` from another one on is that one.
pub multiple_eq : (a b w : ℕ) → a * w ≤ b * w → b * w < a * w + w → b * w ≡ a * w
multiple_eq a b w h k = elim (dec_lt (a * w) (b * w)) [
  | yes lt ↦ absurd (omega (arith, multiple_step a b w lt))
  | no ge ↦ omega arith
]

-- An aligned block that meets an aligned block of length `w` covers it.
pub multiple_covers :
    (a b c w x : ℕ)
    → b * w ≤ x
    → x < b * w + w
    → a * w ≤ x
    → x < c * w
    → (a * w ≤ b * w) × (b * w + w ≤ c * w)
multiple_covers a b c w x h k f g = (down, multiple_step b c w (omega arith))
  where
    down : a * w ≤ b * w
    down = elim (dec_lt (b * w) (a * w)) [
      | yes lt ↦ absurd (omega (arith, multiple_step b a w lt))
      | no ge ↦ omega arith
    ]
