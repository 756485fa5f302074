-- ===== src/Fs/Bio.antt =====
-- The block buffer cache: src/fs/bio.c and include/fs/bio.h.
--
-- A buffer is its index, `head` the list of buffers, most recently used first. `held` says that the lock
-- of a buffer, its semaphore `sem_lock`, is taken. The lock `bcache.lock` makes `bget` up to its wait and
-- the end of `brelse` one step each. `disk_rw` of the driver is a parameter; a panic is `none`.
pub mod Coherence
pub mod Lookup
pub mod Transfer
pub mod Touching
pub mod Setting
pub mod Steps
pub mod Getting
pub mod Filling
pub mod Leaving
pub mod Life
mod Tests
use lkc.Base.{
  ℕ, zero, suc, ◌+◌, ◌-◌, ◌*◌, ◌/◌, ◌%◌, Bool, true, false, not, ◌&&◌, List, [], ◌∷◌, ◌++◌, Option,
  none, some, ltb, leb, ◌==◌, if◌then◌else◌, update, erase,
}
use lkc.Base.Panic.{◌>>=◌}

abbrev pub bsize : ℕ
bsize = 512

abbrev pub disk_read : Bool
disk_read = false

abbrev pub disk_write : Bool
disk_write = true

-- The bytes of each block of the disk
abbrev pub Disk : Type 0
Disk = ℕ → ℕ → ℕ

pub record BufferHead : Type 0 where
  pub blockno : ℕ
  pub refcnt : ℕ
  pub bytes : ℕ → ℕ
  pub valid : Bool
  pub dirty : Bool
  pub dev : ℕ
  pub held : Bool

pub record BioVec : Type 0 where
  pub blockno_start : ℕ
  pub block_len : ℕ
  pub bytes : ℕ → ℕ

pub record Bio : Type 0 where
  pub bi_bdev : ℕ
  pub bi_rw : Bool
  pub list_entry : List BioVec

pub record Bcache : Type 0 where
  pub buf : ℕ → BufferHead
  pub head : List ℕ

abbrev pub init_bio : BufferHead → Bool → Bio
init_bio b rw = record {
  bi_bdev = b.dev;
  bi_rw = rw;
  list_entry = record { blockno_start = b.blockno; block_len = 1; bytes = b.bytes } ∷ [];
}

-- The vector of `disk_rw_bio` points to the bytes of the buffer.
abbrev pub first_bytes : (ℕ → ℕ) → List BioVec → ℕ → ℕ
first_bytes bytes [] = bytes
first_bytes bytes (vec ∷ vecs) = vec.bytes

abbrev pub empty_buffer : BufferHead
empty_buffer = record {
  blockno = 0;
  refcnt = 0;
  bytes = λ j. 0;
  valid = false;
  dirty = false;
  dev = 0;
  held = false;
}

-- The buffers that `binit` puts on the list, each in front
unfoldable pub binit_loop : ℕ → List ℕ
binit_loop zero = []
binit_loop (suc n) = n ∷ binit_loop n

abbrev pub binit : ℕ → Bcache
binit nbuf = record { buf = λ i. empty_buffer; head = binit_loop nbuf }

abbrev pub set_buf : Bcache → ℕ → BufferHead → Bcache
set_buf c i b = record c { buf = update c.buf i b }

-- The first loop of `bget`, and the second one, which runs backwards
unfoldable pub find_cached : (ℕ → BufferHead) → ℕ → ℕ → List ℕ → Option ℕ
find_cached buf dev blockno [] = none
find_cached buf dev blockno (i ∷ is) =
    if (buf i).dev == dev && (buf i).blockno == blockno
    then some i
    else find_cached buf dev blockno is

abbrev pub or_here : (ℕ → BufferHead) → ℕ → Option ℕ → Option ℕ
or_here buf i (some j) = some j
or_here buf i none = if (buf i).refcnt == 0 then some i else none

unfoldable pub find_unused : (ℕ → BufferHead) → List ℕ → Option ℕ
find_unused buf [] = none
find_unused buf (i ∷ is) = or_here buf i (find_unused buf is)

-- `bget` up to its wait for the lock of the buffer
unfoldable pub bget : ℕ → ℕ → Bcache → Option (Bcache × ℕ)
bget dev blockno c = elim (find_cached c.buf dev blockno c.head) [
  | some i ↦ some (set_buf c i (record (c.buf i) { refcnt = (c.buf i).refcnt + 1 }), i)
  | none ↦ find_unused c.buf c.head >>= λ i. some (
    set_buf c i (record (c.buf i) { dev = dev; blockno = blockno; valid = false; refcnt = 1 }),
    i,
  )
]

-- A caller changes the bytes of the buffer that it holds, and calls `bwrite`.
unfoldable pub bwrite : ℕ → (ℕ → ℕ) → Bcache → Bcache
bwrite i bytes c = set_buf c i (record (c.buf i) { bytes = bytes; dirty = true })

-- The rest of `brelse`, under `bcache.lock`: `list_del` and `list_add` where nobody has the buffer
abbrev pub to_front : ℕ → Bcache → Bcache
to_front i c = record c { head = i ∷ erase i c.head }

unfoldable pub brelse_drop : ℕ → Bcache → Bcache
brelse_drop i c =
    let b = c.buf i in
    let c' = set_buf c i (record b { refcnt = b.refcnt - 1 }) in
    if b.refcnt - 1 == 0 then to_front i c' else c'

-- `disk_rw` of the driver, which has no argument for the device
module _ (disk_rw : BioVec → Bool → Disk → BioVec × Disk) where
  -- The loop of `submit_bio`
  unfoldable pub submit_loop : Bool → List BioVec → Disk → List BioVec × Disk
  submit_loop rw [] disk = ([], disk)
  submit_loop rw (vec ∷ vecs) disk =
      let (vec', disk') = disk_rw vec rw disk in
      let (vecs', disk'') = submit_loop rw vecs disk' in (vec' ∷ vecs', disk'')

  abbrev pub submit_bio : Bio → Disk → List BioVec × Disk
  submit_bio bio disk = submit_loop bio.bi_rw bio.list_entry disk

  unfoldable pub disk_rw_bio : BufferHead → Bool → Disk → BufferHead × Disk
  disk_rw_bio b rw disk =
      let (vecs, disk') = submit_bio (init_bio b rw) disk in
      (record b { bytes = first_bytes b.bytes vecs }, disk')

  -- `bread` after the wait: it has the lock, and fills the buffer
  unfoldable pub bread_locked : ℕ → Bcache → Disk → Bcache × Disk
  bread_locked i c disk =
      let b = record (c.buf i) { held = true } in
      if b.valid
      then (set_buf c i b, disk)
      else let (b', disk') = disk_rw_bio b disk_read disk in
        (set_buf c i (record b' { valid = true; dirty = false }), disk')

  -- `bwback`, and the beginning of `brelse`
  unfoldable pub bwback : ℕ → Bcache → Disk → Bcache × Disk
  bwback i c disk =
      if not (c.buf i).dirty
      then (c, disk)
      else let (b, disk') = disk_rw_bio (c.buf i) disk_write disk in
        (set_buf c i (record b { dirty = false }), disk')

  -- `brelse` up to its `sema_signal`
  unfoldable pub brelse_unlock : ℕ → Bcache → Disk → Bcache × Disk
  brelse_unlock i c disk =
      let (c', disk') = bwback i c disk in
      (set_buf c' i (record (c'.buf i) { held = false }), disk')
