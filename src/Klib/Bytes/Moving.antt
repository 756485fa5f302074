-- ===== src/Klib/Bytes/Moving.antt =====
-- What `memset` and `memmove` of src/lib/string.c leave in memory.
use native.Mathlib.Decide.{ℕ_discrete}
use lkc.Base.{
  ℕ, zero, suc, ◌+◌, ◌-◌, ◌%◌, ◌≤◌, ◌≡◌, ap, ◌⊎◌, inl, inr, Bool, ◌&&◌, ltb, leb, ◌==◌,
  if◌then◌else◌, update, arith, Bool-cases,
}
use lkc.Klib.Bytes.{memset, memset_loop, memmove, copy_down, copy_up}

-- Whether an address lies in the block of `n` bytes from `d` on
abbrev pub within : ℕ → ℕ → ℕ → Bool
within d n x = leb d x && ltb x (d + n)

copy_down_lem :
    (m : ℕ → ℕ) (d s n x : ℕ)
    → s ≤ d
    → copy_down m d s n x ≡ (if within d n x then m (s + (x - d)) else m x)
unfolding copy_down
copy_down_lem m d s zero x h = ground arith
copy_down_lem m d s (suc n) x h =
    let r = copy_down_lem (update m (d + n) (m (s + n))) d s n x h in
    elim (ℕ_discrete x (d + n)) [
      | yes e ↦ let there : s + (x - d) ≡ s + n = omega arith in ground (arith, r, ap m there)
      | no ne ↦ ground (arith, r)
    ]

copy_up_lem :
    (m : ℕ → ℕ) (d s n x : ℕ)
    → (d ≤ s) ⊎ (s + n ≤ d)
    → copy_up m d s n x ≡ (if within d n x then m (s + (x - d)) else m x)
unfolding copy_up
copy_up_lem m d s zero x h = ground arith
copy_up_lem m d s (suc n) x h =
    let r = copy_up_lem (update m d (m s)) (d + 1) (s + 1) n x (omega (arith, h)) in
    elim (ℕ_discrete x d) [
      | yes e ↦ let there : s + (x - d) ≡ s = omega arith in ground (arith, r, ap m there)
      | no ne ↦
          let there : d + 1 ≤ x → s + 1 + (x - (d + 1)) ≡ s + (x - d) = λ k. omega arith in
          ground (arith, r, there)
    ]

-- `memmove` leaves in the destination what the source held before, wherever the two blocks lie, and
-- changes no other byte.
pub memmove_lem :
    (m : ℕ → ℕ) (dst src n x : ℕ)
    → memmove m dst src n x ≡ (if within dst n x then m (src + (x - dst)) else m x)
unfolding memmove
memmove_lem m dst src n x = elim (Bool-cases (n == 0)) [
  | inl e ↦ ground arith
  | inr e ↦ elim (Bool-cases (ltb src dst && ltb dst (src + n))) [
    | inl c ↦ ground (arith, copy_down_lem m dst src n x)
    | inr c ↦ ground (arith, copy_up_lem m dst src n x)
  ]
]

memset_loop_lem :
    (m : ℕ → ℕ) (dst c i n x : ℕ)
    → memset_loop m dst c i n x ≡ (if within (dst + i) n x then c % 256 else m x)
memset_loop_lem m dst c i zero x = ground arith
memset_loop_lem m dst c i (suc n) x =
    ground (arith, memset_loop_lem (update m (dst + i) (c % 256)) dst c (i + 1) n x)

-- `memset` fills its block with the low byte of the value, and changes no other byte.
pub memset_lem :
    (m : ℕ → ℕ) (dst c n x : ℕ) → memset m dst c n x ≡ (if within dst n x then c % 256 else m x)
unfolding memset
memset_lem m dst c n x = ground (arith, memset_loop_lem m dst c 0 n x)
