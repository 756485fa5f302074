-- ===== src/Klib/Strings/Comparing.antt =====
-- What `strlen`, `strcmp`, `strncmp` and `is_suffix` of src/lib/string.c answer.
use native.Mathlib.Decide.{dec_lt, ℕ_discrete}
use lkc.Base.{
  ℕ, zero, suc, ◌+◌, ◌-◌, ◌≤◌, ◌<◌, ◌≡◌, ◌≢◌, refl, sym, ap, ◌∙◌, ◌⊎◌, inl, inr, ◌↔◌, Bool, true,
  false, not, ◌&&◌, ◌==◌, ltb, arith, Bool-cases, some,
}
use lkc.Base.Int.{ℤ, pos}
use lkc.Base.Panic.{◌>>=◌}
use lkc.Klib.Bytes.{sub_int}
use lkc.Klib.Bytes.Comparing.{Agree, Agree-suc}
use lkc.Klib.Strings.{IsString, strlen, strlen_loop, strcmp, strncmp, is_suffix, is_zero}

strlen_loop_lem :
    (m : ℕ → ℕ) (s k fuel n : ℕ)
    → IsString m s k
    → n ≤ k
    → k < n + fuel
    → strlen_loop m fuel s n ≡ some k
unfolding strlen_loop
strlen_loop_lem m s k zero n h l f = absurd (omega arith)
strlen_loop_lem m s k (suc fuel) n h l f = elim (ℕ_discrete n k) [
  | yes e ↦
      let z : (m (s + n) == 0) ≡ true = ground (arith, h.1, ap (λ t. m (s + t)) e) in
      rw (strlen_loop, z) (ap some e)
  | no ne ↦
      let z : (m (s + n) == 0) ≡ false = ground (arith, h.0 n (omega arith)) in
      rw (strlen_loop, z) (strlen_loop_lem m s k fuel (n + 1) h (omega arith) (omega arith))
]

-- On a terminated string `strlen` returns its length.
pub strlen_lem : (m : ℕ → ℕ) (s k fuel : ℕ) → IsString m s k → k < fuel → strlen m fuel s ≡ some k
strlen_lem m s k fuel h f = strlen_loop_lem m s k fuel 0 h (omega arith) (omega arith)

-- The place at which a comparison of two strings stops
pub record Stop (m : ℕ → ℕ) (l r limit : ℕ) (z : ℤ) : Type 0 where
  pub at : ℕ
  pub in_limit : at ≤ limit
  pub before : Agree m l r at
  pub reason : (m (l + at) ≢ m (r + at)) ⊎ (m (l + at) ≡ 0)
  pub answer : z ≡ sub_int (m (l + at)) (m (r + at))

Stop-here : (m : ℕ → ℕ) (l r k : ℕ) → (m l ≢ m r) ⊎ (m l ≡ 0) → Stop m l r k (sub_int (m l) (m r))
Stop-here m l r k h =
    let z : (l + 0 ≡ l) × (r + 0 ≡ r) = (omega arith, omega arith) in
    record {
      at = 0;
      in_limit = omega arith;
      before = λ i k. absurd (omega arith);
      reason = rw (z.0, z.1) h;
      answer = rw (z.0, z.1) refl;
    }

Stop-later :
    (m : ℕ → ℕ) (l r k : ℕ) (z : ℤ) → m l ≡ m r → Stop m (l + 1) (r + 1) k z → Stop m l r (suc k) z
Stop-later m l r k z e s =
    let t : (l + 1 + s.at ≡ l + (s.at + 1)) × (r + 1 + s.at ≡ r + (s.at + 1)) =
      (omega arith, omega arith) in
    record {
      at = s.at + 1;
      in_limit = omega (arith, s.in_limit);
      before = Agree-suc m l r s.at e s.before;
      reason = rw (← t.0, ← t.1) s.reason;
      answer = rw (← t.0, ← t.1) s.answer;
    }

-- The rest of a string
pub IsString-suc : (m : ℕ → ℕ) (p k : ℕ) → IsString m p (suc k) → IsString m (p + 1) k
IsString-suc m p k h =
    let f : (i : ℕ) → p + 1 + i ≡ p + suc i = λ i. omega arith in
    (λ i l. rw (f i) (h.0 (suc i) (omega arith)), rw (f k) h.1)

differ_or_end :
    (m : ℕ → ℕ) (l r : ℕ) → (m l == m r && not (m l == 0)) ≡ false → (m l ≢ m r) ⊎ (m l ≡ 0)
differ_or_end m l r e = elim (ℕ_discrete (m l) (m r)) [
  | yes s ↦ inr (ground arith)
  | no ne ↦ inl ne
]

-- `strcmp` on a terminated string returns, and answers the difference of the bytes at the first
-- place, up to its length, at which the strings differ or both end.
pub strcmp_lem :
    (m : ℕ → ℕ) (l r a fuel : ℕ)
    → IsString m l a
    → a < fuel
    → (z : ℤ) × (strcmp m fuel l r ≡ some z) × Stop m l r a z
unfolding strcmp
strcmp_lem m l r a zero h f = absurd (omega arith)
strcmp_lem m l r zero (suc fuel) h f =
    let z : m l ≡ 0 = ap m (omega arith) ∙ h.1 in
    let e : (m l == m r && not (m l == 0)) ≡ false = ground arith in
    (sub_int (m l) (m r), rw (strcmp, e) refl, Stop-here m l r zero (inr z))
strcmp_lem m l r (suc a) (suc fuel) h f = elim (Bool-cases (m l == m r && not (m l == 0))) [
  | inr e ↦
      (sub_int (m l) (m r), rw (strcmp, e) refl, Stop-here m l r (suc a) (differ_or_end m l r e))
  | inl e ↦
      let (z, g, s) = strcmp_lem m (l + 1) (r + 1) a fuel (IsString-suc m l a h) (omega arith) in
      (z, rw (strcmp, e) g, Stop-later m l r a z (ground arith) s)
]

sub_int-zero : (x y : ℕ) → is_zero (sub_int x y) ≡ true → x ≡ y
sub_int-zero x y e = ground arith

zero-sub_int : (x y : ℕ) → x ≡ y → is_zero (sub_int x y) ≡ true
zero-sub_int x y e = ground arith

-- Where a string has a NUL, and where a string that agrees with it has one
end_at : (m : ℕ → ℕ) (l a k : ℕ) → IsString m l a → k ≤ a → m (l + k) ≡ 0 → k ≡ a
end_at m l a k h f z = elim (dec_lt k a) [ yes lt ↦ absurd (h.0 k lt z) | no ge ↦ omega arith ]

end_at_least :
    (m : ℕ → ℕ) (l r a b k : ℕ)
    → IsString m l a
    → IsString m r b
    → k ≤ a
    → Agree m l r k
    → m (r + k) ≡ 0
    → k ≡ b
end_at_least m l r a b k h g f agree z = elim (dec_lt b k) [
  | yes lt ↦ absurd (h.0 b (omega arith) (agree b lt ∙ g.1))
  | no ge ↦ end_at m r b k g (omega arith) z
]

-- `strcmp` answers 0 for two terminated strings exactly if they are equal.
equal_iff :
    (m : ℕ → ℕ) (l r a b : ℕ) (z : ℤ)
    → IsString m l a
    → IsString m r b
    → Stop m l r a z
    → (is_zero z ≡ true) ↔ ((a ≡ b) × Agree m l r a)
equal_iff m l r a b z h k s = (forward, backward)
  where
    forward : is_zero z ≡ true → (a ≡ b) × Agree m l r a
    forward e =
        let same : m (l + s.at) ≡ m (r + s.at) =
          sub_int-zero (m (l + s.at)) (m (r + s.at)) (ap is_zero (sym s.answer) ∙ e) in
        let ends : m (l + s.at) ≡ 0 = elim s.reason [ inl d ↦ absurd (d same) | inr d ↦ d ] in
        let x : s.at ≡ a = end_at m l a s.at h s.in_limit ends in
        let y : s.at ≡ b = end_at_least m l r a b s.at h k s.in_limit s.before (sym same ∙ ends) in
        (sym x ∙ y, rw (← x) s.before)

    backward : (a ≡ b) × Agree m l r a → is_zero z ≡ true
    backward (e, g) = ap is_zero s.answer ∙ zero-sub_int (m (l + s.at)) (m (r + s.at)) same
      where
        same : m (l + s.at) ≡ m (r + s.at)
        same = elim (dec_lt s.at a) [
          | yes lt ↦ g s.at lt
          | no ge ↦
              let x : s.at ≡ a = omega (arith, s.in_limit) in
              ap (λ t. m (l + t)) x ∙ h.1 ∙ sym (ap (λ t. m (r + t)) (x ∙ e) ∙ k.1)
        ]

IsString-drop : (m : ℕ → ℕ) (p a b : ℕ) → b ≤ a → IsString m p a → IsString m (p + (a - b)) b
IsString-drop m p a b l h =
    let f : (i : ℕ) → p + (a - b) + i ≡ p + (a - b + i) = λ i. omega arith in
    let e : p + (a - b) + b ≡ p + a = omega arith in
    (λ i k. rw (f i) (h.0 (a - b + i) (omega arith)), rw (e) h.1)

-- `is_suffix` on two terminated strings returns, and answers yes exactly if the second is not
-- longer and equals the end of the first.
pub is_suffix_lem :
    (m : ℕ → ℕ) (str suffix a b fuel : ℕ)
    → IsString m str a
    → IsString m suffix b
    → a < fuel
    → b < fuel
    → (answer : Bool) × (is_suffix m fuel str suffix ≡ some answer)
      × ((answer ≡ true) ↔ ((b ≤ a) × Agree m (str + (a - b)) suffix b))
unfolding is_suffix
is_suffix_lem m str suffix a b fuel h k f g =
    let x = strlen_lem m str a fuel h f in
    let y = strlen_lem m suffix b fuel k g in
    elim (Bool-cases (ltb a b)) [
      | inl e ↦ (
        false,
        rw (is_suffix, x, y, ◌>>=◌, e) refl,
        (λ n. absurd (ground arith), λ n. absurd (ground arith)),
      )
      | inr e ↦
          let tail = IsString-drop m str a b (ground arith) h in
          let (z, r, s) = strcmp_lem m (str + (a - b)) suffix b fuel tail g in
          let c = equal_iff m (str + (a - b)) suffix b b z tail k s in
          (
            is_zero z,
            rw (is_suffix, x, y, ◌>>=◌, e, r) refl,
            (λ n. (ground arith, (c.0 n).1), λ n. c.1 (refl, n.1)),
          )
    ]

-- `strncmp` answers 0 if the first n bytes agree, and otherwise the difference of the bytes at the
-- first place before the n-th at which the strings differ or both end.
pub strncmp_lem :
    (m : ℕ → ℕ) (p q n : ℕ)
    → (Agree m p q n × (strncmp m p q n ≡ pos 0))
      ⊎ ((k : ℕ) × (k < n) × Stop m p q k (strncmp m p q n))
unfolding strncmp
strncmp_lem m p q zero = inl (λ i h. absurd (omega arith), refl)
strncmp_lem m p q (suc n) = elim (Bool-cases (not (m p == 0) && m p == m q)) [
  | inr e ↦
      let d : (m p ≢ m q) ⊎ (m p ≡ 0) = differ_or_end m p q (ground arith) in
      rw (strncmp, e) (inr (0, omega arith, Stop-here m p q 0 d))
  | inl e ↦ elim (strncmp_lem m (p + 1) (q + 1) n) [
    | inl (f, g) ↦
        let s : n + 1 ≡ suc n = omega arith in
        rw (strncmp, e) (inl (rw (← s) (Agree-suc m p q n (ground arith) f), g))
    | inr (k, l, s) ↦
        rw (strncmp, e)
          (inr
            (suc k, omega arith, Stop-later m p q k (strncmp m (p + 1) (q + 1) n) (ground arith) s))
  ]
]
