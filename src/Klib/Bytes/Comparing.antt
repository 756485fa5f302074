-- ===== src/Klib/Bytes/Comparing.antt =====
-- What `memcmp` of src/lib/string.c answers.
use lkc.Base.{ℕ, zero, suc, ◌+◌, ◌<◌, ◌≡◌, ◌≢◌, refl, ◌⊎◌, inl, inr, ◌==◌, arith, Bool-cases}
use lkc.Base.Int.{ℤ, pos}
use lkc.Klib.Bytes.{memcmp, sub_int}

-- The two blocks agree on their first `k` bytes.
abbrev pub Agree : (ℕ → ℕ) → ℕ → ℕ → ℕ → Type 0
Agree m p q k = (i : ℕ) → i < k → m (p + i) ≡ m (q + i)

pub Agree-suc :
    (m : ℕ → ℕ) (p q k : ℕ) → m p ≡ m q → Agree m (p + 1) (q + 1) k → Agree m p q (k + 1)
Agree-suc m p q k e f zero h = rw (plus_zero p, plus_zero q) e
  where
    plus_zero : (t : ℕ) → t + 0 ≡ t
    plus_zero t = omega arith
Agree-suc m p q k e f (suc i) h = rw (shift p, shift q) (f i (omega arith))
  where
    shift : (t : ℕ) → t + suc i ≡ t + 1 + i
    shift t = omega arith

pub record FirstDifference (m : ℕ → ℕ) (p q n : ℕ) (r : ℤ) : Type 0 where
  pub at : ℕ
  pub before : Agree m p q at
  pub answer :
      ((at ≡ n) × (r ≡ pos 0))
      ⊎ ((at < n) × (m (p + at) ≢ m (q + at)) × (r ≡ sub_int (m (p + at)) (m (q + at))))

-- `memcmp` answers 0 if the two blocks are equal, and otherwise the difference of the bytes at the
-- first place at which they differ.
pub memcmp_lem : (m : ℕ → ℕ) (p q n : ℕ) → FirstDifference m p q n (memcmp m p q n)
unfolding memcmp
memcmp_lem m p q zero = record {
  at = 0;
  before = λ i h. absurd (omega arith);
  answer = inl (refl, refl);
}
memcmp_lem m p q (suc n) = elim (Bool-cases (m p == m q)) [
  | inl e ↦
      let r = memcmp_lem m (p + 1) (q + 1) n in
      let s : (p + 1 + r.at ≡ p + (r.at + 1)) × (q + 1 + r.at ≡ q + (r.at + 1)) =
        (omega arith, omega arith) in
      rw (memcmp, e)
        (record {
          at = r.at + 1;
          before = Agree-suc m p q r.at (ground arith) r.before;
          answer = elim r.answer [
            | inl (a, b) ↦ inl (omega (arith, a), b)
            | inr (a, b, c) ↦ inr (omega (arith, a), rw (← s.0, ← s.1) b, rw (← s.0, ← s.1) c)
          ];
        })
  | inr e ↦
      let z : (p + 0 ≡ p) × (q + 0 ≡ q) = (omega arith, omega arith) in
      rw (memcmp, e)
        (record {
          at = 0;
          before = λ i h. absurd (omega arith);
          answer = inr (omega arith, rw (z.0, z.1) (λ d. ground arith), rw (z.0, z.1) refl);
        })
]
