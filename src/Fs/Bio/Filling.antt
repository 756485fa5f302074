-- ===== src/Fs/Bio/Filling.antt =====
-- The steps of src/fs/bio.c that call the driver keep the invariant.
use mathlib.Core.Path.{subst}
use lkc.Base.{
  ℕ, ◌-◌, ◌<◌, ◌≡◌, refl, sym, ◌∙◌, ◌⊎◌, inl, inr, Bool, true, false, Bool-cases, ◌==◌, ==_iff,
  elem, update, arith,
}
use lkc.Fs.Bio.{
  Disk, BufferHead, BioVec, bsize, disk_read, disk_write, disk_rw_bio, submit_loop, bread_locked,
  bwback,
}
use lkc.Fs.Bio.Coherence.{Transfers, Blocks, Sound, Coherent}
use lkc.Fs.Bio.Setting.{set_blocks-Coherent, dirty_nowhere}
use lkc.Fs.Bio.Transfer.{disk_rw_bio-read, Reads, Writes, disk_rw_bio-write}
use lkc.Fs.Bio.Steps.{lock_step, wback_step}

module _ (disk_rw : BioVec → Bool → Disk → BioVec × Disk) (t : Transfers disk_rw) where
  pub lock_step-Coherent :
      {device : ℕ} (s : Blocks) (i : ℕ)
      → elem i s.cache.head ≡ true
      → 0 < s.waiting i
      → (s.cache.buf i).held ≡ false
      → Coherent device s
      → Coherent device (lock_step s i (bread_locked disk_rw i s.cache s.disk))
  unfolding bread_locked disk_rw_bio submit_loop
  lock_step-Coherent {device} s i e p h c = elim (Bool-cases (s.cache.buf i).valid) [
    | inl y ↦
        subst (λ r. Coherent device (lock_step s i r)) (sym (rw (bread_locked, y) refl))
          (set_blocks-Coherent s i (record b { held = true }) s.disk _ s.leaving e c (waits s i)
            (refl, refl)
            (record {
              counted = ground (arith, so.counted);
              dirty_held = λ q. refl;
              held_valid = λ q. y;
              one_device = so.one_device;
              unused = so.unused;
              same = so.same;
            })
            (λ n j q u. inr (u, refl)))
    | inr y ↦
        subst (λ r. Coherent device (lock_step s i r)) (sym (rw (bread_locked, y) refl))
          (set_blocks-Coherent s i filled read.1 _ s.leaving e c (waits s i) (refl, refl)
            (record {
              counted = ground (arith, so.counted);
              dirty_held = λ q. ground arith;
              held_valid = λ q. refl;
              one_device = so.one_device;
              unused = λ q. absurd (omega (arith, used, q));
              same = λ v j q. done.1 j q ∙ settled j q;
            })
            (λ n j q u. inr (λ z. absurd (undirty z), done.2 n j)))
  ]
    where
      b : BufferHead
      b = s.cache.buf i

      so : Sound device s.content (s.waiting i) (s.leaving i) b
      so = c.sound i e

      read : BufferHead × Disk
      read = disk_rw_bio disk_rw (record b { held = true }) disk_read s.disk

      done : Reads disk_rw t (record b { held = true }) s.disk read
      done = disk_rw_bio-read disk_rw t (record b { held = true }) s.disk

      filled : BufferHead
      filled = record read.0 { valid = true; dirty = false }

      waits :
          (s : Blocks) (i k : ℕ)
          → (i == k) ≡ false
          → (update s.waiting i (s.waiting i - 1) k ≡ s.waiting k) × (s.leaving k ≡ s.leaving k)
      waits s i k z = (ground arith, refl)

      used : 0 < b.dev
      used = ground (arith, so.unused, so.counted)

      undirty : b.dirty ≡ true → ⊥
      undirty z = ground (arith, so.dirty_held z)

      taken :
          (k : ℕ)
          → elem k s.cache.head ≡ true
          → (i == k) ≡ false
          → (s.cache.buf k).dirty ≡ true
          → (s.cache.buf k).blockno ≡ b.blockno
          → ⊥
      taken k ek y z n =
          let o = c.sound k ek in
          let v : (s.cache.buf k).valid ≡ true = o.held_valid (o.dirty_held z) in
          let p : 0 < (s.cache.buf k).dev = ground (arith, o.unused) in
          let same = c.unique i k e ek used (o.one_device p ∙ sym (so.one_device used), n) in
          ground arith

      settled : (j : ℕ) → j < bsize → s.disk b.blockno j ≡ s.content b.blockno j
      settled j q =
          c.clean b.blockno j q
            (dirty_nowhere s i b.blockno (λ z n. undirty z) (λ k ek y z n. taken k ek y z n))

  pub wback_step-Coherent :
      {device : ℕ} (s : Blocks) (i : ℕ)
      → elem i s.cache.head ≡ true
      → Coherent device s
      → Coherent device (wback_step s (bwback disk_rw i s.cache s.disk))
  unfolding bwback disk_rw_bio submit_loop
  wback_step-Coherent {device} s i e c = elim (Bool-cases (s.cache.buf i).dirty) [
    | inl y ↦
        subst (λ r. Coherent device (wback_step s r)) (sym (rw (bwback, y) refl))
          (set_blocks-Coherent s i written wrote.1 s.waiting s.leaving e c (λ k z. (refl, refl))
            (refl, refl)
            (record {
              counted = so.counted;
              dirty_held = λ q. ground arith;
              held_valid = so.held_valid;
              one_device = so.one_device;
              unused = so.unused;
              same = λ v j q. done.1 j ∙ so.same v j q;
            })
            (λ n j q u. on_disk y n j q))
    | inr y ↦ subst (λ r. Coherent device (wback_step s r)) (sym (rw (bwback, y) refl)) c
  ]
    where
      b : BufferHead
      b = s.cache.buf i

      so : Sound device s.content (s.waiting i) (s.leaving i) b
      so = c.sound i e

      wrote : BufferHead × Disk
      wrote = disk_rw_bio disk_rw b disk_write s.disk

      done : Writes disk_rw t b s.disk wrote
      done = disk_rw_bio-write disk_rw t b s.disk

      written : BufferHead
      written = record wrote.0 { dirty = false }

      on_disk :
          b.dirty ≡ true
          → (n j : ℕ) → j < bsize
          → (wrote.1 n j ≡ s.content n j)
            ⊎ ((b.dirty ≡ true → b.blockno ≡ n → ⊥) × (wrote.1 n j ≡ s.disk n j))
      on_disk y n j q = elim (Bool-cases (b.blockno == n)) [
        | inl z ↦ inl (
            subst (λ x. wrote.1 x j ≡ s.content x j) ((==_iff b.blockno n).0 z)
              (done.2 j q ∙ so.same (so.held_valid (so.dirty_held y)) j q))
        | inr z ↦ inr (λ w m. ground arith, done.3 n j (λ m. ground arith))
      ]
