-- ===== src/Fs/Bio/Tests.antt =====
-- Runs of src/fs/bio.c with a driver that moves all bytes of a vector at once.
use lkc.Base.{
  ℕ, ◌+◌, ◌-◌, ◌*◌, ◌/◌, ◌%◌, ◌<◌, ◌≡◌, refl, sym, ap, Bool, true, false, ◌&&◌, some, ltb, leb,
  if◌then◌else◌, elem, arith,
}
use lkc.Fs.Bio.{
  Disk, BioVec, Bcache, bsize, set_buf, empty_buffer, binit, find_cached, find_unused, binit_loop,
  bget, bread_locked, bwrite, brelse_unlock, brelse_drop, bwback, submit_loop, disk_rw_bio,
}
use lkc.Fs.Bio.Coherence.{Transfers, Blocks, Names, Coherent}
use lkc.Fs.Bio.Steps.{get_step, lock_step, write_step, unlock_step, drop_step}
use lkc.Fs.Bio.Life.{
  Reach, booted, boot, get, lock, write, unlock, drop, Reach-Coherent, Reach-content,
  bread_locked_lem,
}

unfoldable transfer : BioVec → Bool → Disk → BioVec × Disk
transfer vec rw disk =
    if rw
    then (
      vec,
      λ b j.
          if leb vec.blockno_start b && ltb b (vec.blockno_start + vec.block_len)
          then vec.bytes ((b - vec.blockno_start) * bsize + j)
          else disk b j,
    )
    else (record vec { bytes = λ j. disk (vec.blockno_start + j / bsize) (j % bsize) }, disk)

at_block :
    (disk : Disk) (start k j : ℕ)
    → j < bsize
    → disk (start + k) j ≡ disk (start + (k * bsize + j) / bsize) ((k * bsize + j) % bsize)
at_block disk start k j q =
    let eq : (k * 512 + j) / 512 ≡ k = omega arith in
    let er : (k * 512 + j) % 512 ≡ j = omega arith in rw (eq, er) refl

cancel :
    (vec : BioVec) (k j : ℕ)
    → vec.bytes ((vec.blockno_start + k - vec.blockno_start) * bsize + j)
      ≡ vec.bytes (k * bsize + j)
cancel vec k j = ap vec.bytes (omega arith)

transfer-Transfers : Transfers transfer
unfolding transfer
transfer-Transfers = record {
  read_bytes = λ vec disk k j p q. sym (at_block disk vec.blockno_start k j q);
  read_disk = λ vec disk b j. refl;
  write_bytes = λ vec disk j. refl;
  write_disk = λ vec disk k j p q. ground (arith, cancel vec k j);
  write_others = λ vec disk b j h. ground arith;
}

-- Two buffers, and a disk whose bytes are the number of their block
abbrev numbered : Disk
numbered b j = b

abbrev first : Blocks
first = booted 2 numbered

abbrev taken : Bcache
taken = set_buf (binit 2) 0 (record empty_buffer { dev = 1; blockno = 5; refcnt = 1 })

-- Block 5 of device 1 is read, written and released.
abbrev waits : Blocks
waits = get_step first (taken, 0)

abbrev holds : Blocks
holds = lock_step waits 0 (bread_locked transfer 0 waits.cache waits.disk)

abbrev wrote : Blocks
wrote = write_step holds 0 (λ j. 7)

abbrev released : Blocks
released = unlock_step wrote 0 (brelse_unlock transfer 0 wrote.cache wrote.disk)

abbrev left : Blocks
left = drop_step released 0

waits-Reach : Reach transfer 1 waits
unfolding bget find_cached find_unused binit_loop
waits-Reach = get 5 (taken, 0) (boot 2 numbered) refl

holds-Reach : Reach transfer 1 holds
unfolding binit_loop
holds-Reach = lock 0 waits-Reach refl (omega arith) refl

wrote-Reach : Reach transfer 1 wrote
unfolding binit_loop bread_locked disk_rw_bio submit_loop transfer
wrote-Reach = write 0 (λ j. 7) holds-Reach refl refl

released-Reach : Reach transfer 1 released
unfolding binit_loop bread_locked disk_rw_bio submit_loop transfer bwrite
released-Reach = unlock 0 wrote-Reach refl refl

left-Reach : Reach transfer 1 left
unfolding binit_loop bread_locked disk_rw_bio submit_loop transfer bwrite brelse_unlock bwback
left-Reach = drop 0 released-Reach refl (omega arith)

Reach-Coherent_example : Coherent 1 wrote
Reach-Coherent_example =
    Reach-Coherent transfer transfer-Transfers 1 (omega arith) wrote wrote-Reach

left-unheld : (i : ℕ) → elem i left.cache.head ≡ true → (left.cache.buf i).held ≡ false
unfolding binit_loop bread_locked disk_rw_bio submit_loop transfer bwrite brelse_unlock bwback
    brelse_drop
left-unheld i e = ground arith

Reach-content_example : left.disk 5 3 ≡ left.content 5 3
Reach-content_example =
    Reach-content transfer transfer-Transfers 1 (omega arith) left left-Reach left-unheld 5 3
      (omega arith)

seven : left.disk 5 3 ≡ 7
unfolding binit_loop bread_locked disk_rw_bio submit_loop transfer bwrite brelse_unlock bwback
    brelse_drop
seven = refl

bread_locked_lem_example :
    (r : Bcache × ℕ) × (bget 1 5 first.cache ≡ some r)
    × (let b = (bread_locked transfer r.1 r.0 first.disk).0.buf r.1 in
        Names b 1 5 × (b.held ≡ true) × ((j : ℕ) → j < bsize → b.bytes j ≡ first.content 5 j))
unfolding binit_loop
bread_locked_lem_example =
    bread_locked_lem transfer transfer-Transfers 1 (omega arith) first 5 0 (boot 2 numbered) refl
      refl (λ k e n. refl)

-- Block 5 of another device is read after that: it has the bytes written to block 5 of the first one.
abbrev taken_other : Bcache
taken_other = set_buf left.cache 1 (record empty_buffer { dev = 2; blockno = 5; refcnt = 1 })

other_device : ((bread_locked transfer 1 taken_other left.disk).0.buf 1).bytes 3 ≡ 7
unfolding binit_loop bread_locked disk_rw_bio submit_loop transfer bwrite brelse_unlock bwback
    brelse_drop
other_device = refl

other_device_get : bget 2 5 left.cache ≡ some (taken_other, 1)
unfolding bget find_cached find_unused binit_loop bread_locked disk_rw_bio submit_loop transfer
    bwrite brelse_unlock bwback brelse_drop
other_device_get = refl
