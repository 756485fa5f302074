-- ===== src/Fs/Bio/Life.antt =====
-- Any sequence of the steps of any number of processes on the cache of src/fs/bio.c.
use lkc.Base.{
  ℕ, ◌<◌, ◌≡◌, refl, ap, ◌∙◌, Bool, true, false, Bool-cases, some, elem, arith, inl, inr,
}
use lkc.Fs.Bio.{
  Disk, BioVec, Bcache, bsize, binit, bget, disk_rw_bio, submit_loop, bread_locked, bwback,
  brelse_unlock,
}
use lkc.Fs.Bio.Coherence.{Transfers, Blocks, Names, Coherent}
use lkc.Fs.Bio.Steps.{
  get_step, write_step, drop_step, lock_step, wback_step, unlock_step, write_step-Coherent,
  drop_step-Coherent,
}
use lkc.Fs.Bio.Lookup.{Found, bget_lem, bget-some}
use lkc.Fs.Bio.Getting.{get_step-Coherent}
use lkc.Fs.Bio.Filling.{lock_step-Coherent, wback_step-Coherent}
use lkc.Fs.Bio.Leaving.{unlock_step-Coherent}

abbrev pub booted : ℕ → Disk → Blocks
booted nbuf disk = record {
  cache = binit nbuf;
  disk = disk;
  content = disk;
  waiting = λ i. 0;
  leaving = λ i. 0;
}

-- The states after `binit`, where processes read and write blocks of one device
pub data Reach (disk_rw : BioVec → Bool → Disk → BioVec × Disk) (device : ℕ) : Blocks → Type 0 where
  boot : (nbuf : ℕ) (disk : Disk) → Reach disk_rw device (booted nbuf disk)
  get :
      {s : Blocks} (blockno : ℕ) (r : Bcache × ℕ)
      → Reach disk_rw device s
      → bget device blockno s.cache ≡ some r
      → Reach disk_rw device (get_step s r)
  lock :
      {s : Blocks} (i : ℕ)
      → Reach disk_rw device s
      → elem i s.cache.head ≡ true
      → 0 < s.waiting i
      → (s.cache.buf i).held ≡ false
      → Reach disk_rw device (lock_step s i (bread_locked disk_rw i s.cache s.disk))
  write :
      {s : Blocks} (i : ℕ) (bytes : ℕ → ℕ)
      → Reach disk_rw device s
      → elem i s.cache.head ≡ true
      → (s.cache.buf i).held ≡ true
      → Reach disk_rw device (write_step s i bytes)
  wback :
      {s : Blocks} (i : ℕ)
      → Reach disk_rw device s
      → elem i s.cache.head ≡ true
      → (s.cache.buf i).held ≡ true
      → Reach disk_rw device (wback_step s (bwback disk_rw i s.cache s.disk))
  unlock :
      {s : Blocks} (i : ℕ)
      → Reach disk_rw device s
      → elem i s.cache.head ≡ true
      → (s.cache.buf i).held ≡ true
      → Reach disk_rw device (unlock_step s i (brelse_unlock disk_rw i s.cache s.disk))
  drop :
      {s : Blocks} (i : ℕ)
      → Reach disk_rw device s
      → elem i s.cache.head ≡ true
      → 0 < s.leaving i
      → Reach disk_rw device (drop_step s i)

module _ (disk_rw : BioVec → Bool → Disk → BioVec × Disk) (t : Transfers disk_rw) (device : ℕ)
    (p : 0 < device) where
  booted-Coherent : (nbuf : ℕ) (disk : Disk) → Coherent device (booted nbuf disk)
  booted-Coherent nbuf disk = record {
    sound = λ i e. record {
      counted = refl;
      dirty_held = λ q. q;
      held_valid = λ q. q;
      one_device = λ q. absurd (omega arith);
      unused = λ q. (refl, refl);
      same = λ v. absurd (ground arith);
    };
    unique = λ i k ei ek p. absurd (omega arith);
    clean = λ n j h f. refl;
  }

  -- For a driver whose transfers move the bytes of the vector, in every state that any number of
  -- processes reach from binit by reading blocks of one device other than 0, writing to buffers
  -- that they hold and releasing them: the buffers in use are for that device; the count of a
  -- listed buffer is the number of processes that wait for it, hold it or are still releasing it; a
  -- dirty buffer is held and a held one valid; no two buffers are for one block; a valid buffer has
  -- the bytes that were written last to its block; and so has the disk for each block without a
  -- dirty buffer.
  pub Reach-Coherent : (s : Blocks) → Reach disk_rw device s → Coherent device s
  Reach-Coherent s (boot nbuf disk) = booted-Coherent nbuf disk
  Reach-Coherent s' (get {s} blockno r h e) =
      get_step-Coherent s device blockno r p e (Reach-Coherent s h)
  Reach-Coherent s' (lock {s} i h e w f) =
      lock_step-Coherent disk_rw t s i e w f (Reach-Coherent s h)
  Reach-Coherent s' (write {s} i bytes h e f) =
      write_step-Coherent s i bytes e f (Reach-Coherent s h)
  Reach-Coherent s' (wback {s} i h e f) = wback_step-Coherent disk_rw t s i e (Reach-Coherent s h)
  Reach-Coherent s' (unlock {s} i h e f) =
      unlock_step-Coherent disk_rw t s i e f (Reach-Coherent s h)
  Reach-Coherent s' (drop {s} i h e w) = drop_step-Coherent s i e w (Reach-Coherent s h)

  -- For a driver whose transfers move the bytes of the vector, in a state that processes reach from
  -- binit by reading blocks of one device other than 0, writing to buffers that they hold and
  -- releasing them: if nobody holds a buffer, the disk has in every block the bytes that were
  -- written last to it.
  pub Reach-content :
      (s : Blocks)
      → Reach disk_rw device s
      → ((i : ℕ) → elem i s.cache.head ≡ true → (s.cache.buf i).held ≡ false)
      → (blockno j : ℕ) → j < bsize
      → s.disk blockno j ≡ s.content blockno j
  Reach-content s h free blockno j q =
      let c = Reach-Coherent s h in
      c.clean blockno j q (λ i e z n. absurd (ground (arith, (c.sound i e).dirty_held z, free i e)))

  bread_locked-Names :
      (i dev blockno : ℕ) (c : Bcache) (disk : Disk)
      → Names (c.buf i) dev blockno
      → let b = (bread_locked disk_rw i c disk).0.buf i in
        Names b dev blockno × (b.held ≡ true) × ((bread_locked disk_rw i c disk).0.head ≡ c.head)
  unfolding bread_locked disk_rw_bio submit_loop
  bread_locked-Names i dev blockno c disk n = elim (Bool-cases (c.buf i).valid) [
    | inl y ↦ rw (bread_locked, y) ((ground arith, ground arith), ground arith, refl)
    | inr y ↦ rw (bread_locked, y) ((ground arith, ground arith), ground arith, refl)
  ]

  Found-Names :
      (dev blockno : ℕ) (c : Bcache) (r : Bcache × ℕ)
      → Found dev blockno c r
      → (elem r.1 r.0.head ≡ true)
        × Names (r.0.buf r.1) dev blockno
        × ((r.0.buf r.1).held ≡ (c.buf r.1).held)
  Found-Names dev blockno c (c', i) (e, inl (n, f)) =
      rw (f) (e, (ground arith, ground arith), ground arith)
  Found-Names dev blockno c (c', i) (e, inr (n, z, f)) =
      rw (f) (e, (ground arith, ground arith), ground arith)

  Found-held :
      (s : Blocks) (dev blockno : ℕ) (r : Bcache × ℕ)
      → Coherent device s
      → ((k : ℕ)
          → elem k s.cache.head ≡ true
          → Names (s.cache.buf k) dev blockno
          → (s.cache.buf k).held ≡ false)
      → Found dev blockno s.cache r
      → (s.cache.buf r.1).held ≡ false
  Found-held s dev blockno (c', i) c f (e, inl (n, g)) = f i e n
  Found-held s dev blockno (c', i) c f (e, inr (n, z, g)) = ground (arith, (c.sound i e).counted)

  -- For a driver whose transfers move the bytes of the vector, in a state that processes reach from
  -- binit by reading blocks of one device other than 0, writing to buffers that they hold and
  -- releasing them: if a listed buffer has the count 0 and nobody holds a buffer for the block,
  -- bget of a block of that device finds a buffer, and bread goes on to return it locked, for that
  -- device and block, with the bytes that were written last to the block.
  pub bread_locked_lem :
      (s : Blocks) (blockno free : ℕ)
      → Reach disk_rw device s
      → elem free s.cache.head ≡ true
      → (s.cache.buf free).refcnt ≡ 0
      → ((k : ℕ)
          → elem k s.cache.head ≡ true
          → Names (s.cache.buf k) device blockno
          → (s.cache.buf k).held ≡ false)
      → (r : Bcache × ℕ) × (bget device blockno s.cache ≡ some r)
        × (let b = (bread_locked disk_rw r.1 r.0 s.disk).0.buf r.1 in
            Names b device blockno
            × (b.held ≡ true)
            × ((j : ℕ) → j < bsize → b.bytes j ≡ s.content blockno j))
  bread_locked_lem s blockno free h e z f =
      let (r, g) = bget-some device blockno free s.cache e z in
      let found = bget_lem device blockno s.cache r g in
      let n = Found-Names device blockno s.cache r found in
      let unheld = n.2 ∙ Found-held s device blockno r (Reach-Coherent s h) f found in
      let c = Reach-Coherent _ (lock r.1 (get blockno r h g) n.0 (ground arith) unheld) in
      let m = bread_locked-Names r.1 device blockno r.0 s.disk n.1 in
      (let so = c.sound r.1 (rw (m.2) n.0) in
        (r, g, (m.0, m.1, λ j q. so.same (so.held_valid m.1) j q ∙ ap (λ x. s.content x j) m.0.1)))
