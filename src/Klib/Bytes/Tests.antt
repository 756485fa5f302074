-- ===== src/Klib/Bytes/Tests.antt =====
-- Runs of the block functions of src/lib/string.c.
use lkc.Base.{ℕ, ◌%◌, ◌≡◌, refl}
use lkc.Klib.Bytes.{memmove, copy_down}
use lkc.Klib.Bytes.Moving.{memmove_lem}

-- Memory that holds at each address the low byte of its number
abbrev counting : ℕ → ℕ
counting a = a % 256

overlapping : (memmove counting 12 10 4 12 ≡ 10) × (memmove counting 12 10 4 15 ≡ 13)
unfolding memmove copy_down
overlapping = (refl, refl)

memmove_lem_example : memmove counting 12 10 4 13 ≡ 11
memmove_lem_example = memmove_lem counting 12 10 4 13
