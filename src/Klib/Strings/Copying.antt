-- ===== src/Klib/Strings/Copying.antt =====
-- What `strncpy` and `safestrcpy` of src/lib/string.c leave in memory.
use native.Mathlib.Decide.{ℕ_discrete}
use lkc.Base.{
  ℕ, zero, suc, ◌+◌, ◌-◌, ◌≤◌, ◌<◌, ◌≡◌, ◌≢◌, sym, ap, ◌∙◌, ◌⊎◌, inl, inr, true, false, ◌==◌, ltb,
  arith, Bool-cases, if◌then◌else◌, update, update-ne,
}
use lkc.Klib.Bytes.Moving.{within}
use lkc.Klib.Strings.{pad, strncpy, safe_loop, safestrcpy}

-- The source has `k` bytes before its NUL, or `n` without one, and lies apart from the `len` bytes from
-- `s` on, into which it is copied.
pub record Source (m : ℕ → ℕ) (s t k n len : ℕ) : Type 0 where
  pub bytes : (i : ℕ) → i < k → m (t + i) ≢ 0
  pub stop : ((n ≡ k)) ⊎ ((k < n) × (m (t + k) ≡ 0))
  pub apart : (t + n ≤ s) ⊎ (s + len ≤ t)

pad_lem : (m : ℕ → ℕ) (s n x : ℕ) → pad m s n x ≡ (if within s n x then 0 else m x)
unfolding pad
pad_lem m s zero x = ground arith
pad_lem m s (suc n) x = ground (arith, pad_lem (update m s 0) (s + 1) n x)

-- The next bytes of a source, after a byte is written outside it
next_byte :
    (m : ℕ → ℕ) (s t v i : ℕ) → (t + 1 + i < s) ⊎ (s < t) → update m s v (t + 1 + i) ≡ m (t + suc i)
next_byte m s t v i h =
    let e : t + 1 + i ≡ t + suc i = omega arith in
    update-ne m s (t + 1 + i) v (λ d. ground arith) ∙ ap m e

-- The rest of a source after its first byte is copied
pub Source-next :
    (m : ℕ → ℕ) (s t k n len : ℕ)
    → Source m s t (suc k) (suc n) (suc len)
    → Source (update m s (m t)) (s + 1) (t + 1) k n len
Source-next m s t k n len h = record {
  bytes = λ i f.
      rw (next_byte m s t (m t) i (omega (arith, h.apart, h.stop))) (h.bytes (suc i) (omega arith));
  stop = elim h.stop [
    | inl e ↦ inl (omega arith)
    | inr (l, z) ↦ inr (omega arith, next_byte m s t (m t) k (omega (arith, h.apart)) ∙ z)
  ];
  apart = omega (arith, h.apart);
}

pub plus_zero : (m : ℕ → ℕ) (t : ℕ) → m (t + 0) ≡ m t
plus_zero m t = ap m (omega arith)

pub nul_at_start : (m : ℕ → ℕ) (t n : ℕ) → (suc n ≡ 0) ⊎ ((0 < suc n) × (m (t + 0) ≡ 0)) → m t ≡ 0
nul_at_start m t n (inl e) = absurd (omega arith)
nul_at_start m t n (inr (l, z)) = sym (plus_zero m t) ∙ z

-- One byte and then the rest, against the whole copy
pub copied_more :
    (m : ℕ → ℕ) (s t k n len x y z : ℕ)
    → Source m s t (suc k) (suc n) (suc len)
    → (x ≡ s → y ≡ m t)
    → (x ≢ s → y ≡ z)
    → (if within (s + 1) k x then update m s (m t) (t + 1 + (x - (s + 1))) else y)
      ≡ (if within s (suc k) x then m (t + (x - s)) else z)
copied_more m s t k n len x y z h g f = elim (ℕ_discrete x s) [
  | yes e ↦ let first : m (t + (x - s)) ≡ m t = ap m (omega arith) in ground (arith, first, g e)
  | no ne ↦ elim (Bool-cases (within (s + 1) k x)) [
    | inl w ↦
        let below : x - (s + 1) < k = ground arith in
        let there : m (t + suc (x - (s + 1))) ≡ m (t + (x - s)) = ap m (ground arith) in
        ground (
          arith,
          next_byte m s t (m t) (x - (s + 1)) (omega (arith, h.apart, h.stop, below)),
          there,
        )
    | inr w ↦ ground (arith, f ne)
  ]
]

-- The loop of `strncpy` and the rest
strncpy_rest :
    (m : ℕ → ℕ) (s t k n x : ℕ)
    → Source m s t k n n
    → strncpy m s t n x
      ≡ (if within s k x then m (t + (x - s)) else if within s n x then 0 else m x)
unfolding strncpy
strncpy_rest m s t k zero x h = ground (arith, h.stop)
strncpy_rest m s t zero (suc n) x h =
    let e : (m t == 0) ≡ true = ground (arith, nul_at_start m t n h.stop) in
    rw (strncpy, e) (ground (arith, pad_lem (update m s 0) (s + 1) n x))
strncpy_rest m s t (suc k) (suc n) x h =
    let e : (m t == 0) ≡ false = ground (arith, h.bytes 0 (omega arith), plus_zero m t) in
    let r = strncpy_rest (update m s (m t)) (s + 1) (t + 1) k n x (Source-next m s t k n n h) in
    rw (strncpy, e)
      (r
        ∙ copied_more m s t k n n x (if within (s + 1) n x then 0 else update m s (m t) x)
            (if within s (suc n) x then 0 else m x) h (λ d. ground arith) (λ d. ground arith))

-- For a source with k bytes before its NUL, or n without one, that lies apart from the n bytes of
-- the destination, `strncpy` copies the k bytes, fills the rest of the n bytes with zeros, and
-- changes no other byte.
pub strncpy_lem :
    (m : ℕ → ℕ) (s t k n x : ℕ)
    → Source m s t k n n
    → strncpy m s t n x
      ≡ (if within s k x then m (t + (x - s)) else if within s n x then 0 else m x)
strncpy_lem m s t k n x h = strncpy_rest m s t k n x h

-- What the write after the loop of `safestrcpy` adds: one byte behind the last one that was copied, NUL
-- included
abbrev pub safe_end : ℕ → ℕ → ℕ
safe_end k n = if ltb k n then k + 2 else k + 1

safe_rest :
    (m : ℕ → ℕ) (s t k n x : ℕ)
    → Source m s t k n (suc n)
    → safe_loop m s t n x
      ≡ (if within s k x then m (t + (x - s)) else if within s (safe_end k n) x then 0 else m x)
unfolding safe_loop
safe_rest m s t k zero x h = ground (arith, h.stop)
safe_rest m s t zero (suc n) x h =
    let e : (m t == 0) ≡ true = ground (arith, nul_at_start m t n h.stop) in
    rw (safe_loop, e) (ground arith)
safe_rest m s t (suc k) (suc n) x h =
    let e : (m t == 0) ≡ false = ground (arith, h.bytes 0 (omega arith), plus_zero m t) in
    let r = safe_rest (update m s (m t)) (s + 1) (t + 1) k n x (Source-next m s t k n (suc n) h) in
    rw (safe_loop, e)
      (r
        ∙ copied_more m s t k n (suc n) x
            (if within (s + 1) (safe_end k n) x then 0 else update m s (m t) x)
            (if within s (safe_end (suc k) (suc n)) x then 0 else m x) h (λ d. ground arith)
            (λ d. ground arith))

-- For a source with k bytes before its NUL, or n without one, that lies apart from the n + 1 bytes
-- from the destination on, and for n at least 1, `safestrcpy` copies the k bytes and writes zeros
-- behind them: two if k < n, and one if not, which is the byte at offset n; it changes no other
-- byte.
pub safestrcpy_lem :
    (m : ℕ → ℕ) (s t k n x : ℕ)
    → 0 < n
    → Source m s t k n (suc n)
    → safestrcpy m s t n x
      ≡ (if within s k x then m (t + (x - s)) else if within s (safe_end k n) x then 0 else m x)
unfolding safestrcpy
safestrcpy_lem m s t k n x l h = ground (arith, safe_rest m s t k n x h)
