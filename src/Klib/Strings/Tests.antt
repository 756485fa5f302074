-- ===== src/Klib/Strings/Tests.antt =====
-- Runs of the string functions of src/lib/string.c.
use lkc.Base.{
  ℕ, ◌+◌, ◌-◌, ◌≤◌, ◌<◌, ◌≡◌, refl, ◌⊎◌, inl, inr, ◌↔◌, Bool, true, false, Option, some, arith,
  ◌==◌, ◌||◌, ◌%◌, if◌then◌else◌,
}
use lkc.Klib.Bytes.Comparing.{Agree}
use lkc.Klib.Strings.{
  IsString, strlen_loop, strcmp, safestrcpy, safe_loop, strstr, strstr_loop, match_loop, is_suffix,
}
use lkc.Klib.Strings.Comparing.{is_suffix_lem}
use lkc.Klib.Strings.Copying.{Source, safestrcpy_lem}
use lkc.Klib.Strings.{strcat}
use lkc.Klib.Strings.Joining.{appended, strcat_lem}
use lkc.Klib.Strings.Searching.{First, Occurs, strstr_lem}

-- "abab" at address 0, and "ba" at 5
abbrev memory : ℕ → ℕ
memory a = if a == 4 || a == 7 then 0 else 97 + a % 2

abab-IsString : IsString memory 0 4
abab-IsString = (λ i l e. absurd (ground arith), refl)

ab-IsString : IsString memory 2 2
ab-IsString = (λ i l e. absurd (ground arith), refl)

ba-IsString : IsString memory 5 2
ba-IsString = (λ i l e. absurd (ground arith), refl)

found_run : strstr memory 5 0 5 ≡ some (some 1)
unfolding strstr strstr_loop match_loop
found_run = refl

suffix_run : (is_suffix memory 5 0 2 ≡ some true) × (is_suffix memory 5 0 5 ≡ some false)
unfolding is_suffix strlen_loop strcmp
suffix_run = (refl, refl)

-- `safestrcpy` with room for 3 bytes writes a fourth.
fourth_byte : safestrcpy memory 20 0 3 23 ≡ 0
unfolding safestrcpy safe_loop
fourth_byte = refl

is_suffix_lem_example :
    (answer : Bool) × (is_suffix memory 5 0 2 ≡ some answer)
    × ((answer ≡ true) ↔ ((2 ≤ 4) × Agree memory (0 + (4 - 2)) 2 2))
is_suffix_lem_example =
    is_suffix_lem memory 0 2 4 2 5 abab-IsString ab-IsString (omega arith) (omega arith)

short-Source : Source memory 20 0 4 6 6
short-Source = record {
  bytes = λ i l. abab-IsString.0 i l;
  stop = inr (omega arith, refl);
  apart = omega arith;
}

long-Source : Source memory 20 0 3 3 4
long-Source = record {
  bytes = λ i l. abab-IsString.0 i (omega arith);
  stop = inl refl;
  apart = omega arith;
}

safestrcpy_lem_example : safestrcpy memory 20 0 3 23 ≡ 0
safestrcpy_lem_example = safestrcpy_lem memory 20 0 3 3 23 (omega arith) long-Source

strstr_lem_example :
    (found : Option ℕ) × (strstr memory 5 0 5 ≡ some found)
    × (((◌≡◌ {A = ℕ} 2 0) × (found ≡ some 0))
        ⊎ ((0 < 2) × First (Occurs memory 5 2) 0 (0 + 4) found))
strstr_lem_example =
    strstr_lem memory 0 5 4 2 5 abab-IsString ba-IsString (omega arith) (omega arith)

strcat_lem_example :
    (m' : ℕ → ℕ) × (strcat memory 5 5 0 ≡ some m')
    × ((x : ℕ) → m' x ≡ appended memory (5 + 2) 0 4 x)
strcat_lem_example =
    strcat_lem memory 5 0 2 4 5 ba-IsString abab-IsString (inl (omega arith)) (omega arith)
      (omega arith)
