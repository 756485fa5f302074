-- ===== src/Klib/Strings/Searching.antt =====
-- What `strchr` and `strstr` of src/lib/string.c find.
use native.Mathlib.Decide.{ℕ_discrete}
use lkc.Base.{
  ℕ, zero, suc, ◌+◌, ◌≤◌, ◌<◌, ◌≡◌, ◌≢◌, refl, ap, ◌∙◌, ◌⊎◌, inl, inr, Bool, true, false, not, ◌&&◌,
  ◌==◌, arith, Bool-cases, Option, none, some,
}
use mathlib.Core.Path.{subst}
use lkc.Base.Panic.{◌>>=◌}
use lkc.Klib.Bytes.Comparing.{Agree, Agree-suc}
use lkc.Klib.Strings.{IsString, strchr, match_loop, strstr_loop, strstr}
use lkc.Klib.Strings.Comparing.{IsString-suc}

-- No place from `p` up to `q - 1` has the property.
abbrev pub NoneIn : (ℕ → Type 0) → ℕ → ℕ → Type 0
NoneIn P p q = (j : ℕ) → p ≤ j → j < q → P j → ⊥

-- The first place from `p` up to `q - 1` with a property, or no place
abbrev pub First : (ℕ → Type 0) → ℕ → ℕ → Option ℕ → Type 0
First P p q o =
    ((o ≡ none) × NoneIn P p q)
    ⊎ ((at : ℕ) × (o ≡ some at) × (p ≤ at) × (at < q) × P at × NoneIn P p at)

NoneIn-cons : (P : ℕ → Type 0) (p q : ℕ) → (P p → ⊥) → NoneIn P (p + 1) q → NoneIn P p q
NoneIn-cons P p q f g j l k r = elim (ℕ_discrete j p) [
  | yes e ↦ f (subst P e r)
  | no ne ↦ g j (omega arith) k r
]

First-cons :
    (P : ℕ → Type 0) (p q : ℕ) (o : Option ℕ) → (P p → ⊥) → First P (p + 1) q o → First P p q o
First-cons P p q o f (inl (e, g)) = inl (e, NoneIn-cons P p q f g)
First-cons P p q o f (inr (at, e, l, k, r, g)) =
    inr (at, e, omega arith, k, r, NoneIn-cons P p at f g)

First-here : (P : ℕ → Type 0) (p q : ℕ) → p < q → P p → First P p q (some p)
First-here P p q l r = inr (p, refl, omega arith, l, r, λ j k h x. absurd (omega arith))

-- The string `n` of `b` bytes stands at `h`.
abbrev pub Occurs : (ℕ → ℕ) → ℕ → ℕ → ℕ → Type 0
Occurs m n b h = Agree m h n b

plus_zero : (t : ℕ) → t + 0 ≡ t
plus_zero t = omega arith

-- An occurrence of a string that is not empty, byte by byte
Occurs-head : (m : ℕ → ℕ) (h n b : ℕ) → Occurs m n (suc b) h → m h ≡ m n
Occurs-head m h n b o = ap m (omega arith) ∙ o 0 (omega arith) ∙ ap m (omega arith)

Occurs-tail : (m : ℕ → ℕ) (h n b : ℕ) → Occurs m n (suc b) h → Occurs m (n + 1) b (h + 1)
Occurs-tail m h n b o i l = ap m (omega arith) ∙ o (suc i) (omega arith) ∙ ap m (omega arith)

Occurs-cons :
    (m : ℕ → ℕ) (h n b : ℕ) → m h ≡ m n → Occurs m (n + 1) b (h + 1) → Occurs m n (suc b) h
Occurs-cons m h n b e o = let s : b + 1 ≡ suc b = omega arith in rw (← s) (Agree-suc m h n b e o)

match_loop_lem :
    (m : ℕ → ℕ) (h n b fuel : ℕ)
    → IsString m n b
    → b < fuel
    → (hit : Bool) × (match_loop m fuel h n ≡ some hit)
      × (((hit ≡ true) × Occurs m n b h) ⊎ ((hit ≡ false) × (Occurs m n b h → ⊥)))
unfolding match_loop
match_loop_lem m h n b zero s f = absurd (omega arith)
match_loop_lem m h n zero (suc fuel) s f =
    let z : m n ≡ 0 = ap m (omega arith) ∙ s.1 in
    let e : (m h == m n && not (m n == 0)) ≡ false = ground arith in
    (true, rw (match_loop, e) (ground arith), inl (refl, λ i l. absurd (omega arith)))
match_loop_lem m h n (suc b) (suc fuel) s f =
    let nz : m n ≢ 0 = λ d. s.0 0 (omega arith) (ap m (omega arith) ∙ d) in
    elim (Bool-cases (m h == m n && not (m n == 0))) [
      | inr e ↦ (
        false,
        rw (match_loop, e) (ground arith),
        inr (refl, λ o. nz (ground (arith, Occurs-head m h n b o))),
      )
      | inl e ↦
          let (hit, g, r) =
            match_loop_lem m (h + 1) (n + 1) b fuel (IsString-suc m n b s) (omega arith) in
          (
            hit,
            rw (match_loop, e) g,
            elim r [
              | inl (y, o) ↦ inl (y, Occurs-cons m h n b (ground arith) o)
              | inr (y, o) ↦ inr (y, λ k. o (Occurs-tail m h n b k))
            ],
          )
    ]

strstr_loop_lem :
    (m : ℕ → ℕ) (h n a b inner fuel : ℕ)
    → IsString m h a
    → IsString m n b
    → b < inner
    → a < fuel
    → (found : Option ℕ) × (strstr_loop m inner fuel h n ≡ some found)
      × First (Occurs m n b) h (h + a) found
unfolding strstr_loop
strstr_loop_lem m h n a b inner zero s t f g = absurd (omega arith)
strstr_loop_lem m h n zero b inner (suc fuel) s t f g =
    let e : (m h == 0) ≡ true = ground (arith, ap m (plus_zero h), s.1) in
    (none, rw (strstr_loop, e) refl, inl (refl, λ j l k r. absurd (omega arith)))
strstr_loop_lem m h n (suc a) b inner (suc fuel) s t f g =
    let e : (m h == 0) ≡ false = ground (arith, ap m (plus_zero h), s.0 0 (omega arith)) in
    let (hit, r, c) = match_loop_lem m h n b inner t f in
    elim c [
      | inl (y, o) ↦ (
        some h,
        rw (strstr_loop, e, r, y, ◌>>=◌) refl,
        First-here (Occurs m n b) h (h + suc a) (omega arith) o,
      )
      | inr (y, o) ↦
          let (found, k, d) =
            strstr_loop_lem m (h + 1) n a b inner fuel (IsString-suc m h a s) t f (omega arith) in
          let w : h + 1 + a ≡ h + suc a = omega arith in
          (
            found,
            rw (strstr_loop, e, r, y, ◌>>=◌) k,
            First-cons (Occurs m n b) h (h + suc a) found o (rw w at d),
          )
    ]

-- On two terminated strings `strstr` returns; for an empty second string it finds the first place
-- of the first string, otherwise the first place in it at which the second string stands, and the
-- null pointer exactly if there is none.
pub strstr_lem :
    (m : ℕ → ℕ) (h n a b fuel : ℕ)
    → IsString m h a
    → IsString m n b
    → a < fuel
    → b < fuel
    → (found : Option ℕ) × (strstr m fuel h n ≡ some found)
      × (((b ≡ 0) × (found ≡ some h)) ⊎ ((0 < b) × First (Occurs m n b) h (h + a) found))
unfolding strstr
strstr_lem m h n a zero fuel s t f g =
    let e : (m n == 0) ≡ true = ground (arith, ap m (plus_zero n), t.1) in
    (some h, rw (strstr, e) refl, inl (refl, refl))
strstr_lem m h n a (suc b) fuel s t f g =
    let e : (m n == 0) ≡ false = ground (arith, ap m (plus_zero n), t.0 0 (omega arith)) in
    let (found, k, d) = strstr_loop_lem m h n a (suc b) fuel fuel s t g f in
    (found, rw (strstr, e) k, inr (omega arith, d))

-- On a terminated string and a character other than NUL, `strchr` returns, finds the first place
-- that holds the character, and answers the null pointer exactly if there is none.
pub strchr_lem :
    (m : ℕ → ℕ) (s c a fuel : ℕ)
    → c ≢ 0
    → IsString m s a
    → a < fuel
    → (found : Option ℕ) × (strchr m fuel s c ≡ some found) × First (λ p. m p ≡ c) s (s + a) found
unfolding strchr
strchr_lem m s c a zero nz h f = absurd (omega arith)
strchr_lem m s c zero (suc fuel) nz h f =
    let e : (m s == 0) ≡ true = ground (arith, ap m (plus_zero s), h.1) in
    let d : (c == 0) ≡ false = ground arith in
    (none, rw (strchr, e, d) refl, inl (refl, λ j l k r. absurd (omega arith)))
strchr_lem m s c (suc a) (suc fuel) nz h f =
    let e : (m s == 0) ≡ false = ground (arith, ap m (plus_zero s), h.0 0 (omega arith)) in
    elim (Bool-cases (m s == c)) [
      | inl d ↦ (
        some s,
        rw (strchr, e, d) refl,
        First-here (λ p. m p ≡ c) s (s + suc a) (omega arith) (ground arith),
      )
      | inr d ↦
          let (found, k, r) =
            strchr_lem m (s + 1) c a fuel nz (IsString-suc m s a h) (omega arith) in
          let w : s + 1 + a ≡ s + suc a = omega arith in
          (
            found,
            rw (strchr, e, d) k,
            First-cons (λ p. m p ≡ c) s (s + suc a) found (λ x. ground arith) (rw w at r),
          )
    ]
