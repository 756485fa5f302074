-- ===== src/Klib/Strings/Joining.antt =====
-- What `strcat` and `strnlen` of src/lib/string.c do.
use lkc.Base.{
  ℕ, zero, suc, ◌+◌, ◌-◌, ◌≤◌, ◌<◌, ◌≡◌, ◌≢◌, refl, sym, ap, ◌∙◌, ◌⊎◌, inl, inr, true, false, ◌==◌,
  arith, if◌then◌else◌, update, some,
}
use lkc.Base.Panic.{◌>>=◌}
use lkc.Klib.Bytes.Moving.{within}
use lkc.Klib.Strings.{IsString, strnlen, find_end, cat_loop, strcat}
use lkc.Klib.Strings.Comparing.{IsString-suc}
use lkc.Klib.Strings.Copying.{Source, Source-next, copied_more, plus_zero, nul_at_start}

find_end_lem :
    (m : ℕ → ℕ) (p k fuel : ℕ) → IsString m p k → k < fuel → find_end m fuel p ≡ some (p + k)
unfolding find_end
find_end_lem m p k zero h f = absurd (omega arith)
find_end_lem m p zero (suc fuel) h f =
    let e : (m p == 0) ≡ true = ground (arith, plus_zero m p, h.1) in
    rw (find_end, e) (ap some (omega arith))
find_end_lem m p (suc k) (suc fuel) h f =
    let e : (m p == 0) ≡ false = ground (arith, plus_zero m p, h.0 0 (omega arith)) in
    rw (find_end, e)
      (find_end_lem m (p + 1) k fuel (IsString-suc m p k h) (omega arith) ∙ ap some (omega arith))

-- The memory with the bytes of a source and a NUL written from `s` on
abbrev pub appended : (ℕ → ℕ) → ℕ → ℕ → ℕ → ℕ → ℕ
appended m s t k x = if within s k x then m (t + (x - s)) else if within s (suc k) x then 0 else m x

cat_loop_lem :
    (m : ℕ → ℕ) (s t k fuel : ℕ)
    → Source m s t k (suc k) (suc k)
    → k < fuel
    → (m' : ℕ → ℕ) × (cat_loop m fuel s t ≡ some m') × ((x : ℕ) → m' x ≡ appended m s t k x)
unfolding cat_loop
cat_loop_lem m s t k zero h f = absurd (omega arith)
cat_loop_lem m s t zero (suc fuel) h f =
    let e : (m t == 0) ≡ true = ground (arith, nul_at_start m t 0 h.stop) in
    (update m s 0, rw (cat_loop, e) refl, λ x. ground arith)
cat_loop_lem m s t (suc k) (suc fuel) h f =
    let e : (m t == 0) ≡ false = ground (arith, h.bytes 0 (omega arith), plus_zero m t) in
    let (m', r, g) =
      cat_loop_lem (update m s (m t)) (s + 1) (t + 1) k fuel (Source-next m s t k (suc k) (suc k) h)
        (omega arith) in
    (
      m',
      rw (cat_loop, e) r,
      λ x.
          g x
          ∙ copied_more m s t k (suc k) (suc k) x
              (if within (s + 1) (suc k) x then 0 else update m s (m t) x)
              (if within s (suc (suc k)) x then 0 else m x) h (λ d. ground arith)
              (λ d. ground arith),
    )

-- On two terminated strings, of which the second lies apart from the bytes that are written,
-- `strcat` returns, writes the second string with its NUL over the NUL of the first, and changes no
-- other byte.
pub strcat_lem :
    (m : ℕ → ℕ) (dest src a b fuel : ℕ)
    → IsString m dest a
    → IsString m src b
    → (src + suc b ≤ dest + a) ⊎ (dest + a + suc b ≤ src)
    → a < fuel
    → b < fuel
    → (m' : ℕ → ℕ) × (strcat m fuel dest src ≡ some m')
      × ((x : ℕ) → m' x ≡ appended m (dest + a) src b x)
unfolding strcat
strcat_lem m dest src a b fuel h k apart f g =
    let source : Source m (dest + a) src b (suc b) (suc b) = record {
      bytes = k.0;
      stop = inr (omega arith, k.1);
      apart = apart;
    } in
    let (m', r, c) = cat_loop_lem m (dest + a) src b fuel source g in
    (m', rw (strcat, find_end_lem m dest a fuel h f, ◌>>=◌) r, c)

-- For count bytes of which the first k are not NUL, and the next one is NUL unless k is count,
-- `strnlen` returns k.
pub strnlen_lem :
    (m : ℕ → ℕ) (s k count : ℕ)
    → ((i : ℕ) → i < k → m (s + i) ≢ 0)
    → (count ≡ k) ⊎ ((k < count) × (m (s + k) ≡ 0))
    → strnlen m s count ≡ k
unfolding strnlen
strnlen_lem m s k zero f h = omega (arith, h)
strnlen_lem m s zero (suc count) f h =
    let e : (m s == 0) ≡ true = ground (arith, nul_at_start m s count h) in rw (strnlen, e) refl
strnlen_lem m s (suc k) (suc count) f h =
    let e : (m s == 0) ≡ false = ground (arith, f 0 (omega arith), plus_zero m s) in
    let shift : (i : ℕ) → m (s + 1 + i) ≡ m (s + suc i) = λ i. ap m (omega arith) in
    rw (strnlen, e)
      (ap suc (
        strnlen_lem m (s + 1) k count (λ i l d. f (suc i) (omega arith) (sym (shift i) ∙ d))
          (elim h [ inl d ↦ inl (omega arith) | inr (l, z) ↦ inr (omega arith, shift k ∙ z) ])))
