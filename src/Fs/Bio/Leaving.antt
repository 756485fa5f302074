-- ===== src/Fs/Bio/Leaving.antt =====
-- What `brelse` of src/fs/bio.c does up to its `sema_signal` keeps the invariant.
use lkc.Base.{ℕ, ◌≡◌, refl, inl, inr, Bool, true, false, Bool-cases, elem, arith}
use lkc.Fs.Bio.{Disk, BufferHead, BioVec, disk_rw_bio, submit_loop, bwback, brelse_unlock}
use lkc.Fs.Bio.Coherence.{Transfers, Blocks, Sound, Coherent}
use lkc.Fs.Bio.Setting.{set_blocks-Coherent}
use lkc.Fs.Bio.Steps.{wback_step, unlock_step}
use lkc.Fs.Bio.Filling.{wback_step-Coherent}

module _ (disk_rw : BioVec → Bool → Disk → BioVec × Disk) (t : Transfers disk_rw) where
  pub wback_step-dirty :
      (s : Blocks) (i : ℕ)
      → let c = (bwback disk_rw i s.cache s.disk).0 in
        (c.head ≡ s.cache.head)
        × ((c.buf i).dirty ≡ false)
        × ((c.buf i).held ≡ (s.cache.buf i).held)
  unfolding bwback disk_rw_bio submit_loop
  wback_step-dirty s i = elim (Bool-cases (s.cache.buf i).dirty) [
    | inl y ↦ rw (bwback, y) (refl, ground arith, ground arith)
    | inr y ↦ rw (bwback, y) (refl, y, refl)
  ]

  pub unlock_step-Coherent :
      {device : ℕ} (s : Blocks) (i : ℕ)
      → elem i s.cache.head ≡ true
      → (s.cache.buf i).held ≡ true
      → Coherent device s
      → Coherent device (unlock_step s i (brelse_unlock disk_rw i s.cache s.disk))
  unfolding brelse_unlock
  unlock_step-Coherent {device} s i e h c =
      set_blocks-Coherent s' i (record b { held = false }) s'.disk s.waiting _ e'
        (wback_step-Coherent disk_rw t s i e c) (λ k z. (refl, ground arith)) (refl, refl)
        (record {
          counted = ground (arith, so.counted, kept.2);
          dirty_held = λ q. ground (arith, kept.1);
          held_valid = λ q. ground arith;
          one_device = so.one_device;
          unused = so.unused;
          same = so.same;
        })
        (λ n j q u. inr (u, refl))
    where
      s' : Blocks
      s' = wback_step s (bwback disk_rw i s.cache s.disk)

      b : BufferHead
      b = s'.cache.buf i

      kept : (s'.cache.head ≡ s.cache.head) × (b.dirty ≡ false) × (b.held ≡ (s.cache.buf i).held)
      kept = wback_step-dirty s i

      e' : elem i s'.cache.head ≡ true
      e' = rw (kept.0) e

      so : Sound device s.content (s.waiting i) (s.leaving i) b
      so = (wback_step-Coherent disk_rw t s i e c).sound i e'
