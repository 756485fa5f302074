-- ===== src/Mm/Buddy/Layout.antt =====
-- How the pages of a pool of src/mm/buddy.c are divided into blocks. `owner i` is the first page of
-- the block that page `i` lies in: the C code keeps no such table, its metadata agrees with one.
use lkc.Base.{ℕ, ◌+◌, ◌*◌, ◌^◌, ◌≤◌, ◌<◌, ◌≡◌, ◌≢◌}
use lkc.Mm.Buddy.{Page, buddy_max_order}

abbrev pub Metadata : Type 0
Metadata = ℕ → Page

-- Page `j` lies in the block that starts at page `p`.
abbrev pub Within : Metadata → ℕ → ℕ → Type 0
Within md p j = (p ≤ j) × (j < p + 2 ^ (md p).order)

-- `inner`: only the first page of a block may be marked as allocated.
pub record Layout (n : ℕ) (md : Metadata) (owner : ℕ → ℕ) : Type 0 where
  pub own : (i : ℕ) → i < n → Within md (owner i) i
  pub block : (i j : ℕ) → i < n → Within md (owner i) j → (j < n) × (owner j ≡ owner i)
  pub aligned : (i : ℕ) → i < n → (q : ℕ) × (owner i ≡ q * 2 ^ (md (owner i)).order)
  pub small : (i : ℕ) → i < n → (md (owner i)).order ≤ buddy_max_order
  pub inner : (i : ℕ) → i < n → owner i ≢ i → (md i).allocated ≡ 0

-- Page `p` is the first of its block, which has order `o` and is free.
pub record FreeBlock (n : ℕ) (md : Metadata) (owner : ℕ → ℕ) (p o : ℕ) : Type 0 where
  pub in_pool : p < n
  pub first : owner p ≡ p
  pub order : (md p).order ≡ o
  pub free : (md p).allocated ≡ 0

-- Page `p` is the first of its block, which has order `o` and is handed out.
pub record Handed (n : ℕ) (md : Metadata) (owner : ℕ → ℕ) (p o : ℕ) : Type 0 where
  pub in_pool : p < n
  pub first : owner p ≡ p
  pub order : (md p).order ≡ o
  pub marked : (md p).allocated ≡ 1
