-- ===== src/Klib/Bytes.antt =====
-- Blocks of bytes: `memset`, `memcmp` and `memmove` of src/lib/string.c.
--
-- A memory is a function from addresses to bytes, a pointer an address. Addresses do not wrap here.
pub mod Moving
pub mod Comparing
mod Tests
use lkc.Base.{
  ℕ, zero, suc, ◌+◌, ◌-◌, ◌%◌, Bool, true, false, ◌&&◌, ltb, leb, ◌==◌, if◌then◌else◌, update,
}
use lkc.Base.Int.{ℤ, pos, negsuc}

-- The difference of two bytes, as an int
abbrev pub sub_int : ℕ → ℕ → ℤ
sub_int a b = if leb b a then pos (a - b) else negsuc (b - a - 1)

abbrev pub memset_loop : (ℕ → ℕ) → ℕ → ℕ → ℕ → ℕ → ℕ → ℕ
memset_loop m dst c i zero = m
memset_loop m dst c i (suc n) = memset_loop (update m (dst + i) (c % 256)) dst c (i + 1) n

unfoldable pub memset : (ℕ → ℕ) → ℕ → ℕ → ℕ → ℕ → ℕ
memset m dst c n = memset_loop m dst c 0 n

unfoldable pub memcmp : (ℕ → ℕ) → ℕ → ℕ → ℕ → ℤ
memcmp m s1 s2 zero = pos 0
memcmp m s1 s2 (suc n) = elim (m s1 == m s2) [
  | true ↦ memcmp m (s1 + 1) (s2 + 1) n
  | false ↦ sub_int (m s1) (m s2)
]

-- The loops of `memmove`: from the last byte down, and from the first byte up
unfoldable pub copy_down : (ℕ → ℕ) → ℕ → ℕ → ℕ → ℕ → ℕ
copy_down m d s zero = m
copy_down m d s (suc n) = copy_down (update m (d + n) (m (s + n))) d s n

unfoldable pub copy_up : (ℕ → ℕ) → ℕ → ℕ → ℕ → ℕ → ℕ
copy_up m d s zero = m
copy_up m d s (suc n) = copy_up (update m d (m s)) (d + 1) (s + 1) n

unfoldable pub memmove : (ℕ → ℕ) → ℕ → ℕ → ℕ → ℕ → ℕ
memmove m dst src n =
    if n == 0
    then m
    else if ltb src dst && ltb dst (src + n)
    then copy_down m dst src n
    else copy_up m dst src n
