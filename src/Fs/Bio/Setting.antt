-- ===== src/Fs/Bio/Setting.antt =====
-- A step of src/fs/bio.c that leaves a buffer to its block, and the content of the blocks as it is.
use mathlib.Core.Path.{subst}
use lkc.Base.{
  ℕ, ◌<◌, ◌≡◌, refl, ◌∙◌, ◌⊎◌, inl, inr, true, false, Bool-cases, ◌==◌, ==_iff, elem, update_self,
  arith,
}
use lkc.Fs.Bio.{Disk, BufferHead, bsize, set_buf}
use lkc.Fs.Bio.Coherence.{Blocks, Names, Sound, Coherent}
use lkc.Fs.Bio.Touching.{Fresh, Settled, becomes-Coherent}

-- No dirty buffer is for the block, where neither buffer `i` nor another is.
pub dirty_nowhere :
    (s : Blocks) (i m : ℕ)
    → ((s.cache.buf i).dirty ≡ true → (s.cache.buf i).blockno ≡ m → ⊥)
    → ((k : ℕ)
        → elem k s.cache.head ≡ true
        → (i == k) ≡ false
        → (s.cache.buf k).dirty ≡ true
        → (s.cache.buf k).blockno ≡ m
        → ⊥)
    → (k : ℕ) → elem k s.cache.head ≡ true
    → (s.cache.buf k).dirty ≡ true
    → (s.cache.buf k).blockno ≡ m
    → ⊥
dirty_nowhere s i m g v k ek z n = elim (Bool-cases (i == k)) [
  | inl y ↦
      subst (λ x. (s.cache.buf x).dirty ≡ true → (s.cache.buf x).blockno ≡ m → ⊥) ((==_iff i k).0 y)
        g z n
  | inr y ↦ v k ek y z n
]

-- A new value for one buffer and its counts
abbrev pub set_blocks : Blocks → ℕ → BufferHead → Disk → (ℕ → ℕ) → (ℕ → ℕ) → Blocks
set_blocks s i b disk waiting leaving = record s {
  cache = set_buf s.cache i b;
  disk = disk;
  waiting = waiting;
  leaving = leaving;
}

-- One that keeps the buffer's block
pub set_blocks-Coherent :
    {device : ℕ} (s : Blocks) (i : ℕ) (b : BufferHead) (disk : Disk) (w l : ℕ → ℕ)
    → elem i s.cache.head ≡ true
    → Coherent device s
    → ((k : ℕ) → (i == k) ≡ false → (w k ≡ s.waiting k) × (l k ≡ s.leaving k))
    → Names b (s.cache.buf i).dev (s.cache.buf i).blockno
    → Sound device s.content (w i) (l i) b
    → ((n j : ℕ)
        → j < bsize
        → (b.dirty ≡ true → b.blockno ≡ n → ⊥)
        → (disk n j ≡ s.content n j)
          ⊎ (((s.cache.buf i).dirty ≡ true → (s.cache.buf i).blockno ≡ n → ⊥)
              × (disk n j ≡ s.disk n j)))
    → Coherent device (set_blocks s i b disk w l)
set_blocks-Coherent s i b disk w l ei c o n so f =
    becomes-Coherent i s (set_blocks s i b disk w l) b (update_self s.cache.buf i i b refl) ei c
      (record { list = λ k. refl; others = λ k z. (ground arith, (o k z).0, (o k z).1) })
      (λ k ek z v j h. refl) so fresh settled
  where
    fresh : Fresh s i b
    fresh k ek z p m =
        let ei' = c.unique i k ei ek (subst (λ x. 0 < x) n.0 p) (m.0 ∙ n.0, m.1 ∙ n.1) in
        ground arith

    settled : Settled s disk s.content i b
    settled m j h u v = elim (f m j h u) [
      | inl e ↦ e
      | inr (g, e) ↦ e ∙ c.clean m j h (dirty_nowhere s i m g v)
    ]
