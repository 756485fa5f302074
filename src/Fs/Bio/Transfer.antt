-- ===== src/Fs/Bio/Transfer.antt =====
-- What one `disk_rw_bio` of src/fs/bio.c does to the buffer and to the disk.
use native.Mathlib.Numerals.{unary_clauses}
use lkc.Base.{
  ℕ, ◌+◌, ◌*◌, ◌≤◌, ◌<◌, ◌≡◌, refl, sym, ap, ◌∙◌, ◌⊎◌, inl, inr, Bool, Bool-cases, ◌==◌, ==_iff,
  arith,
}
use lkc.Fs.Bio.{Disk, BufferHead, BioVec, bsize, disk_read, disk_write, submit_loop, disk_rw_bio}
use lkc.Fs.Bio.Coherence.{Transfers}

module _ (disk_rw : BioVec → Bool → Disk → BioVec × Disk) (t : Transfers disk_rw) (b : BufferHead)
    (disk : Disk) where
  abbrev vec : BioVec
  vec = record { blockno_start = b.blockno; block_len = 1; bytes = b.bytes }

  first : (f : ℕ → ℕ) (j : ℕ) → f (0 * bsize + j) ≡ f j
  first f j = ap f (omega arith)

  abbrev pub Reads : BufferHead × Disk → Type 0
  Reads r =
      (r.0 ≡ record b { bytes = r.0.bytes })
      × ((j : ℕ) → j < bsize → r.0.bytes j ≡ disk b.blockno j)
      × ((n j : ℕ) → r.1 n j ≡ disk n j)

  pub disk_rw_bio-read : Reads (disk_rw_bio disk_rw b disk_read disk)
  unfolding disk_rw_bio submit_loop
  disk_rw_bio-read = (
    refl,
    λ j h.
        sym (first (disk_rw vec disk_read disk).0.bytes j)
        ∙ simp unary_clauses at (t.read_bytes vec disk 0 j (omega arith) h),
    λ n j. t.read_disk vec disk n j,
  )

  abbrev pub Writes : BufferHead × Disk → Type 0
  Writes r =
      (r.0 ≡ record b { bytes = r.0.bytes })
      × ((j : ℕ) → r.0.bytes j ≡ b.bytes j)
      × ((j : ℕ) → j < bsize → r.1 b.blockno j ≡ b.bytes j)
      × ((n j : ℕ) → (b.blockno ≡ n → ⊥) → r.1 n j ≡ disk n j)

  pub disk_rw_bio-write : Writes (disk_rw_bio disk_rw b disk_write disk)
  unfolding disk_rw_bio submit_loop
  disk_rw_bio-write = (
    refl,
    λ j. t.write_bytes vec disk j,
    λ j h. simp unary_clauses at (t.write_disk vec disk 0 j (omega arith) h) ∙ first b.bytes j,
    λ n j h. t.write_others vec disk n j (apart n h),
  )
    where
      apart : (n : ℕ) → (b.blockno ≡ n → ⊥) → (n < b.blockno) ⊎ (b.blockno + 1 ≤ n)
      apart n h = elim (Bool-cases (b.blockno == n)) [
        | inl z ↦ absurd (h ((==_iff b.blockno n).0 z))
        | inr z ↦ ground arith
      ]
