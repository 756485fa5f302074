-- ===== src/Klib/Strings.antt =====
-- Terminated strings: the `str` functions of src/lib/string.c.
--
-- A memory is a function from addresses to bytes, a pointer an address. A loop that ends at a NUL runs
-- on fuel, `none` when it runs out; a string of `k` bytes needs `k + 1`.
pub mod Comparing
pub mod Copying
pub mod Searching
pub mod Joining
mod Tests
use lkc.Base.{
  ℕ, zero, suc, ◌+◌, ◌-◌, ◌≤◌, ◌<◌, ◌≡◌, ◌≢◌, Bool, true, false, not, ◌&&◌, ltb, ◌==◌,
  if◌then◌else◌, update, Option, none, some,
}
use lkc.Base.Int.{ℤ, pos, negsuc}
use lkc.Base.Panic.{◌>>=◌}
use lkc.Klib.Bytes.{sub_int}

-- `k` bytes, none of them NUL, and a NUL
abbrev pub IsString : (ℕ → ℕ) → ℕ → ℕ → Type 0
IsString m p k = ((i : ℕ) → i < k → m (p + i) ≢ 0) × (m (p + k) ≡ 0)

-- `strlen` with `n` bytes counted
unfoldable pub strlen_loop : (ℕ → ℕ) → ℕ → ℕ → ℕ → Option ℕ
strlen_loop m zero s n = none
strlen_loop m (suc fuel) s n = elim (m (s + n) == 0) [
  | true ↦ some n
  | false ↦ strlen_loop m fuel s (n + 1)
]

abbrev pub strlen : (ℕ → ℕ) → ℕ → ℕ → Option ℕ
strlen m fuel s = strlen_loop m fuel s 0

unfoldable pub strcmp : (ℕ → ℕ) → ℕ → ℕ → ℕ → Option ℤ
strcmp m zero l r = none
strcmp m (suc fuel) l r = elim (m l == m r && not (m l == 0)) [
  | true ↦ strcmp m fuel (l + 1) (r + 1)
  | false ↦ some (sub_int (m l) (m r))
]

unfoldable pub strncmp : (ℕ → ℕ) → ℕ → ℕ → ℕ → ℤ
strncmp m p q zero = pos 0
strncmp m p q (suc n) = elim (not (m p == 0) && m p == m q) [
  | true ↦ strncmp m (p + 1) (q + 1) n
  | false ↦ sub_int (m p) (m q)
]

-- The second loop of `strncpy`, then the function
unfoldable pub pad : (ℕ → ℕ) → ℕ → ℕ → ℕ → ℕ
pad m s zero = m
pad m s (suc n) = pad (update m s 0) (s + 1) n

unfoldable pub strncpy : (ℕ → ℕ) → ℕ → ℕ → ℕ → ℕ → ℕ
strncpy m s t zero = m
strncpy m s t (suc n) = elim (m t == 0) [
  | true ↦ pad (update m s 0) (s + 1) n
  | false ↦ strncpy (update m s (m t)) (s + 1) (t + 1) n
]

-- The loop of `safestrcpy` and the write after it
unfoldable pub safe_loop : (ℕ → ℕ) → ℕ → ℕ → ℕ → ℕ → ℕ
safe_loop m s t zero = update m s 0
safe_loop m s t (suc n) = elim (m t == 0) [
  | true ↦ update (update m s 0) (s + 1) 0
  | false ↦ safe_loop (update m s (m t)) (s + 1) (t + 1) n
]

unfoldable pub safestrcpy : (ℕ → ℕ) → ℕ → ℕ → ℕ → ℕ → ℕ
safestrcpy m s t n = if n == 0 then m else safe_loop m s t n

-- The inner `none` is the null pointer.
unfoldable pub strchr : (ℕ → ℕ) → ℕ → ℕ → ℕ → Option (Option ℕ)
strchr m zero str c = none
strchr m (suc fuel) str c = elim (m str == 0) [
  | true ↦ some (if c == 0 then some str else none)
  | false ↦ elim (m str == c) [ true ↦ some (some str) | false ↦ strchr m fuel (str + 1) c ]
]

-- The inner loop of `strstr`, and the test after it
unfoldable pub match_loop : (ℕ → ℕ) → ℕ → ℕ → ℕ → Option Bool
match_loop m zero h n = none
match_loop m (suc fuel) h n = elim (m h == m n && not (m n == 0)) [
  | true ↦ match_loop m fuel (h + 1) (n + 1)
  | false ↦ some (m n == 0)
]

-- The outer loop, each round of which has the fuel `inner` for the inner one
unfoldable pub strstr_loop : (ℕ → ℕ) → ℕ → ℕ → ℕ → ℕ → Option (Option ℕ)
strstr_loop m inner zero haystack needle = none
strstr_loop m inner (suc fuel) haystack needle = elim (m haystack == 0) [
  | true ↦ some none
  | false ↦ match_loop m inner haystack needle >>= elim [
    | true ↦ some (some haystack)
    | false ↦ strstr_loop m inner fuel (haystack + 1) needle
  ]
]

unfoldable pub strstr : (ℕ → ℕ) → ℕ → ℕ → ℕ → Option (Option ℕ)
strstr m fuel haystack needle =
    if m needle == 0 then some (some haystack) else strstr_loop m fuel fuel haystack needle

abbrev pub is_zero : ℤ → Bool
is_zero (pos n) = n == 0
is_zero (negsuc n) = false

-- `size_t` is compared unsigned; the difference is taken only where it is not negative.
unfoldable pub is_suffix : (ℕ → ℕ) → ℕ → ℕ → ℕ → Option Bool
is_suffix m fuel str suffix = strlen m fuel str >>= λ str_len.
    strlen m fuel suffix >>= λ suffix_len.
    if ltb str_len suffix_len
    then some false
    else (strcmp m fuel (str + (str_len - suffix_len)) suffix >>= λ r. some (is_zero r))

unfoldable pub strnlen : (ℕ → ℕ) → ℕ → ℕ → ℕ
strnlen m s zero = 0
strnlen m s (suc count) = elim (m s == 0) [ true ↦ 0 | false ↦ suc (strnlen m (s + 1) count) ]

-- The two loops of `strcat`, and the write after them
unfoldable pub find_end : (ℕ → ℕ) → ℕ → ℕ → Option ℕ
find_end m zero p = none
find_end m (suc fuel) p = elim (m p == 0) [ true ↦ some p | false ↦ find_end m fuel (p + 1) ]

unfoldable pub cat_loop : (ℕ → ℕ) → ℕ → ℕ → ℕ → Option (ℕ → ℕ)
cat_loop m zero p src = none
cat_loop m (suc fuel) p src = elim (m src == 0) [
  | true ↦ some (update m p 0)
  | false ↦ cat_loop (update m p (m src)) fuel (p + 1) (src + 1)
]

unfoldable pub strcat : (ℕ → ℕ) → ℕ → ℕ → ℕ → Option (ℕ → ℕ)
strcat m fuel dest src = find_end m fuel dest >>= λ p. cat_loop m fuel p src
