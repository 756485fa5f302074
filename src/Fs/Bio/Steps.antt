-- ===== src/Fs/Bio/Steps.antt =====
-- Each step of src/fs/bio.c on the buffers, the disk and the content of the blocks.
use mathlib.Core.Path.{subst}
use lkc.Base.{
  ℕ, ◌+◌, ◌-◌, ◌<◌, ◌≡◌, refl, sym, ◌∙◌, inl, inr, true, ◌∷◌, Bool-cases, ◌==◌, if◌then◌else◌, elem,
  erase, update, update_self, update-ne, arith,
}
use lkc.Fs.Bio.{Disk, BufferHead, Bcache, bwrite, to_front, brelse_drop}
use lkc.Fs.Bio.Coherence.{Blocks, Sound, Coherent}
use lkc.Fs.Bio.Touching.{Fresh, Keeps, Settled, becomes-Coherent}
use lkc.Fs.Bio.Setting.{set_blocks, set_blocks-Coherent, dirty_nowhere}
use lkc.Fs.Bio.Lookup.{elem-to_front}

-- A process calls `bget` and waits for the buffer.
abbrev pub get_step : Blocks → Bcache × ℕ → Blocks
get_step s (c, i) = record s { cache = c; waiting = update s.waiting i (s.waiting i + 1) }

-- The holder of a buffer writes its bytes.
abbrev pub write_step : Blocks → ℕ → (ℕ → ℕ) → Blocks
write_step s i bytes = record s {
  cache = bwrite i bytes s.cache;
  content = λ n j. if n == (s.cache.buf i).blockno then bytes j else s.content n j;
}

abbrev pub drop_step : Blocks → ℕ → Blocks
drop_step s i = record s {
  cache = brelse_drop i s.cache;
  leaving = update s.leaving i (s.leaving i - 1);
}

-- A process that waited takes the lock and fills the buffer.
abbrev pub lock_step : Blocks → ℕ → Bcache × Disk → Blocks
lock_step s i r = record s {
  cache = r.0;
  disk = r.1;
  waiting = update s.waiting i (s.waiting i - 1);
}

abbrev pub wback_step : Blocks → Bcache × Disk → Blocks
wback_step s r = record s { cache = r.0; disk = r.1 }

abbrev pub unlock_step : Blocks → ℕ → Bcache × Disk → Blocks
unlock_step s i r = record s {
  cache = r.0;
  disk = r.1;
  leaving = update s.leaving i (s.leaving i + 1);
}

pub write_step-Coherent :
    {device : ℕ} (s : Blocks) (i : ℕ) (bytes : ℕ → ℕ)
    → elem i s.cache.head ≡ true
    → (s.cache.buf i).held ≡ true
    → Coherent device s
    → Coherent device (write_step s i bytes)
unfolding bwrite
write_step-Coherent {device} s i bytes e h c =
    becomes-Coherent i s (write_step s i bytes) b' (update_self s.cache.buf i i b' refl) e c
      (record {
        list = λ k. refl;
        others = λ k y. (update-ne s.cache.buf i k b' (λ w. ground arith), refl, refl);
      })
      keeps
      (record {
        counted = so.counted;
        dirty_held = λ q. h;
        held_valid = so.held_valid;
        one_device = so.one_device;
        unused = so.unused;
        same = λ v j q. ground arith;
      })
      fresh settled
  where
    b : BufferHead
    b = s.cache.buf i

    b' : BufferHead
    b' = record b { bytes = bytes; dirty = true }

    so : Sound device s.content (s.waiting i) (s.leaving i) b
    so = c.sound i e

    used : 0 < b.dev
    used = ground (arith, so.unused, so.held_valid)

    fresh : Fresh s i b'
    fresh k ek y q m = ground (arith, c.unique i k e ek q m)

    keeps : Keeps s (write_step s i bytes).content i
    keeps k ek y v j q = ground (
      arith,
      fresh k ek y used,
      so.one_device used,
      (c.sound k ek).one_device,
      (c.sound k ek).unused,
    )

    settled : Settled s s.disk (write_step s i bytes).content i b'
    settled m j q u v =
        let old = c.clean m j q (dirty_nowhere s i m (λ g n. u refl n) v) in
        elim (Bool-cases (m == b.blockno)) [
          | inl y ↦ absurd (u refl (ground arith))
          | inr y ↦ old ∙ sym (rw (y) refl)
        ]

to_front-Coherent :
    {device : ℕ} (s : Blocks) (i : ℕ)
    → elem i s.cache.head ≡ true
    → Coherent device s
    → Coherent device (record s { cache = to_front i s.cache })
to_front-Coherent s i e c = record {
  sound = λ k ek. c.sound k (there k ek);
  unique = λ k m ek em. c.unique k m (there k ek) (there m em);
  clean = λ m j h f. c.clean m j h (λ k ek. f k (elem-to_front i k s.cache.head e ∙ ek));
}
  where
    there : (k : ℕ) → elem k (i ∷ erase i s.cache.head) ≡ true → elem k s.cache.head ≡ true
    there k ek = sym (elem-to_front i k s.cache.head e) ∙ ek

pub drop_step-Coherent :
    {device : ℕ} (s : Blocks) (i : ℕ)
    → elem i s.cache.head ≡ true
    → 0 < s.leaving i
    → Coherent device s
    → Coherent device (drop_step s i)
unfolding brelse_drop
drop_step-Coherent {device} s i e p c = elim (Bool-cases (b.refcnt - 1 == 0)) [
  | inl y ↦
      subst
        (λ x.
          Coherent device (record s { cache = x; leaving = update s.leaving i (s.leaving i - 1) }))
        (sym (rw (brelse_drop, y) refl)) (to_front-Coherent dropped i e dropped-Coherent)
  | inr y ↦
      subst
        (λ x.
          Coherent device (record s { cache = x; leaving = update s.leaving i (s.leaving i - 1) }))
        (sym (rw (brelse_drop, y) refl)) dropped-Coherent
]
  where
    b : BufferHead
    b = s.cache.buf i

    b' : BufferHead
    b' = record b { refcnt = b.refcnt - 1 }

    so : Sound device s.content (s.waiting i) (s.leaving i) b
    so = c.sound i e

    dropped : Blocks
    dropped = set_blocks s i b' s.disk s.waiting (update s.leaving i (s.leaving i - 1))

    dropped-Coherent : Coherent device dropped
    dropped-Coherent =
        set_blocks-Coherent s i b' s.disk s.waiting _ e c (λ k y. (refl, ground arith)) (refl, refl)
          (record {
            counted = ground (arith, so.counted);
            dirty_held = so.dirty_held;
            held_valid = so.held_valid;
            one_device = so.one_device;
            unused = λ q. ground (arith, so.unused q);
            same = so.same;
          })
          (λ n j q u. inr (u, refl))
