-- ===== src/Fs/Bio/Coherence.antt =====
-- The buffer cache of src/fs/bio.c as blocks that are read and written: what the buffers, the counts and
-- the disk have to do with the content of a block, which is what was written last.
use lkc.Base.{ℕ, ◌+◌, ◌*◌, ◌≤◌, ◌<◌, ◌≡◌, ◌⊎◌, Bool, true, false, if◌then◌else◌, elem}
use lkc.Fs.Bio.{Disk, BufferHead, BioVec, Bcache, bsize, disk_read, disk_write}

-- What `disk_rw` does to the bytes of the vector and to the blocks of the disk
pub record Transfers (disk_rw : BioVec → Bool → Disk → BioVec × Disk) : Type 0 where
  pub read_bytes :
      (vec : BioVec) (disk : Disk) (k j : ℕ)
      → k < vec.block_len
      → j < bsize
      → (disk_rw vec disk_read disk).0.bytes (k * bsize + j) ≡ disk (vec.blockno_start + k) j
  pub read_disk :
      (vec : BioVec) (disk : Disk) (b j : ℕ) → (disk_rw vec disk_read disk).1 b j ≡ disk b j
  pub write_bytes :
      (vec : BioVec) (disk : Disk) (j : ℕ) → (disk_rw vec disk_write disk).0.bytes j ≡ vec.bytes j
  pub write_disk :
      (vec : BioVec) (disk : Disk) (k j : ℕ)
      → k < vec.block_len
      → j < bsize
      → (disk_rw vec disk_write disk).1 (vec.blockno_start + k) j ≡ vec.bytes (k * bsize + j)
  pub write_others :
      (vec : BioVec) (disk : Disk) (b j : ℕ)
      → ((b < vec.blockno_start) ⊎ (vec.blockno_start + vec.block_len ≤ b))
      → (disk_rw vec disk_write disk).1 b j ≡ disk b j

-- The cache and the disk with what no variable holds: the bytes written last to each block, and for each
-- buffer the number of processes between `bget` and its lock, and between `sema_signal` and the end of
-- `brelse`
pub record Blocks : Type 0 where
  pub cache : Bcache
  pub disk : Disk
  pub content : Disk
  pub waiting : ℕ → ℕ
  pub leaving : ℕ → ℕ

-- A buffer is for the block
abbrev pub Names : BufferHead → ℕ → ℕ → Type 0
Names b dev blockno = (b.dev ≡ dev) × (b.blockno ≡ blockno)

-- One buffer, with the processes that wait for it and leave it, where all reads are of one device
pub record Sound (device : ℕ) (content : Disk) (waiting leaving : ℕ) (b : BufferHead) : Type 0 where
  pub counted : b.refcnt ≡ waiting + leaving + (if b.held then 1 else 0)
  pub dirty_held : b.dirty ≡ true → b.held ≡ true
  pub held_valid : b.held ≡ true → b.valid ≡ true
  pub one_device : 0 < b.dev → b.dev ≡ device
  pub unused : b.dev ≡ 0 → (b.refcnt ≡ 0) × (b.valid ≡ false)
  pub same : b.valid ≡ true → (j : ℕ) → j < bsize → b.bytes j ≡ content b.blockno j

pub record Coherent (device : ℕ) (s : Blocks) : Type 0 where
  pub sound :
      (i : ℕ)
      → elem i s.cache.head ≡ true
      → Sound device s.content (s.waiting i) (s.leaving i) (s.cache.buf i)
  pub unique :
      (i k : ℕ)
      → elem i s.cache.head ≡ true
      → elem k s.cache.head ≡ true
      → 0 < (s.cache.buf i).dev
      → Names (s.cache.buf k) (s.cache.buf i).dev (s.cache.buf i).blockno
      → i ≡ k
  pub clean :
      (n j : ℕ)
      → j < bsize
      → ((i : ℕ)
          → elem i s.cache.head ≡ true
          → (s.cache.buf i).dirty ≡ true
          → (s.cache.buf i).blockno ≡ n
          → ⊥)
      → s.disk n j ≡ s.content n j
