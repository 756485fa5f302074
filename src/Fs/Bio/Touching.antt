-- ===== src/Fs/Bio/Touching.antt =====
-- A step of src/fs/bio.c on one buffer keeps the others as they are.
use mathlib.Core.Path.{subst}
use lkc.Base.{ℕ, ◌<◌, ◌≡◌, sym, ap, ◌∙◌, inl, inr, true, false, Bool-cases, ◌==◌, ==_iff, elem}
use lkc.Fs.Bio.{Disk, BufferHead, bsize}
use lkc.Fs.Bio.Coherence.{Blocks, Names, Sound, Coherent}

-- The second state has the other buffers of the first.
pub record Touches (i : ℕ) (s s' : Blocks) : Type 0 where
  pub list : (k : ℕ) → elem k s'.cache.head ≡ elem k s.cache.head
  pub others :
      (k : ℕ)
      → (i == k) ≡ false
      → (s'.cache.buf k ≡ s.cache.buf k)
        × (s'.waiting k ≡ s.waiting k)
        × (s'.leaving k ≡ s.leaving k)

pub move_sound :
    {device : ℕ} {c c' : Disk} {w w' l l' : ℕ} {b b' : BufferHead}
    → b' ≡ b
    → w' ≡ w
    → l' ≡ l
    → (b.valid ≡ true → (j : ℕ) → j < bsize → c' b.blockno j ≡ c b.blockno j)
    → Sound device c w l b
    → Sound device c' w' l' b'
move_sound {device} {c} {c'} {w} {w'} {l} {l'} {b} {b'} eb ew el f s = rw (eb, ew, el) moved
  where
    moved : Sound device c' w l b
    moved = record {
      counted = s.counted;
      dirty_held = s.dirty_held;
      held_valid = s.held_valid;
      one_device = s.one_device;
      unused = s.unused;
      same = λ v j h. s.same v j h ∙ sym (f v j h);
    }

-- No other buffer is for the block of `b`.
abbrev pub Fresh : Blocks → ℕ → BufferHead → Type 0
Fresh s i b =
    (k : ℕ)
    → elem k s.cache.head ≡ true
    → (i == k) ≡ false
    → 0 < b.dev
    → Names (s.cache.buf k) b.dev b.blockno
    → ⊥

-- The other buffers do not tell the new contents from the old ones.
abbrev pub Keeps : Blocks → Disk → ℕ → Type 0
Keeps s content i =
    (k : ℕ)
    → elem k s.cache.head ≡ true
    → (i == k) ≡ false
    → (s.cache.buf k).valid ≡ true
    → (j : ℕ) → j < bsize
    → content (s.cache.buf k).blockno j ≡ s.content (s.cache.buf k).blockno j

-- With `b`, the blocks without a dirty buffer have their content on the disk.
abbrev pub Settled : Blocks → Disk → Disk → ℕ → BufferHead → Type 0
Settled s disk content i b =
    (n j : ℕ)
    → j < bsize
    → (b.dirty ≡ true → b.blockno ≡ n → ⊥)
    → ((k : ℕ)
        → elem k s.cache.head ≡ true
        → (i == k) ≡ false
        → (s.cache.buf k).dirty ≡ true
        → (s.cache.buf k).blockno ≡ n
        → ⊥)
    → disk n j ≡ content n j

-- A step on one buffer
Touches-Coherent :
    {device : ℕ} (i : ℕ) (s s' : Blocks)
    → elem i s.cache.head ≡ true
    → Coherent device s
    → Touches i s s'
    → Keeps s s'.content i
    → Sound device s'.content (s'.waiting i) (s'.leaving i) (s'.cache.buf i)
    → Fresh s i (s'.cache.buf i)
    → Settled s s'.disk s'.content i (s'.cache.buf i)
    → Coherent device s'
Touches-Coherent {device} i s s' ei c t content so fresh clean = record {
  sound = sound;
  unique = unique;
  clean =
      λ b j h f. clean b j h (λ z n. f i (t.list i ∙ ei) z n) (λ k e ne z n. others b f k e ne z n);
}
  where
    at : (k : ℕ) → (i == k) ≡ true → i ≡ k
    at k = (==_iff i k).0

    there : (k : ℕ) → elem k s'.cache.head ≡ true → elem k s.cache.head ≡ true
    there k e = sym (t.list k) ∙ e

    sound :
        (k : ℕ)
        → elem k s'.cache.head ≡ true
        → Sound device s'.content (s'.waiting k) (s'.leaving k) (s'.cache.buf k)
    sound k e = elim (Bool-cases (i == k)) [
      | inl y ↦
          subst (λ m. Sound device s'.content (s'.waiting m) (s'.leaving m) (s'.cache.buf m))
            (at k y) so
      | inr n ↦
          let o = t.others k n in
          move_sound o.0 o.1 o.2 (content k (there k e) n) (c.sound k (there k e))
    ]

    fresh_pair :
        (m : ℕ)
        → elem m s'.cache.head ≡ true
        → (i == m) ≡ false
        → 0 < (s'.cache.buf i).dev
        → Names (s'.cache.buf m) (s'.cache.buf i).dev (s'.cache.buf i).blockno
        → ⊥
    fresh_pair m e z p n =
        let o = (t.others m z).0 in
        fresh m (there m e) z p (ap (λ b. b.dev) (sym o) ∙ n.0, ap (λ b. b.blockno) (sym o) ∙ n.1)

    unique :
        (k m : ℕ)
        → elem k s'.cache.head ≡ true
        → elem m s'.cache.head ≡ true
        → 0 < (s'.cache.buf k).dev
        → Names (s'.cache.buf m) (s'.cache.buf k).dev (s'.cache.buf k).blockno
        → k ≡ m
    unique k m ek em p n = elim (Bool-cases (i == k)) [
      | inl y ↦ elim (Bool-cases (i == m)) [
        | inl z ↦ sym (at k y) ∙ at m z
        | inr z ↦ absurd (
            fresh_pair m em z (subst (λ x. 0 < (s'.cache.buf x).dev) (sym (at k y)) p) (
              subst (λ x. Names (s'.cache.buf m) (s'.cache.buf x).dev (s'.cache.buf x).blockno)
                (sym (at k y)) n))
      ]
      | inr y ↦ elim (Bool-cases (i == m)) [
        | inl z ↦
            let e = ap (λ x. s'.cache.buf x) (at m z) in
            let ed : (s'.cache.buf k).dev ≡ (s'.cache.buf i).dev = sym (ap (λ b. b.dev) e ∙ n.0) in
            let eb : (s'.cache.buf k).blockno ≡ (s'.cache.buf i).blockno =
              sym (ap (λ b. b.blockno) e ∙ n.1) in
            absurd (fresh_pair k ek y (subst (λ x. 0 < x) ed p) (ed, eb))
        | inr z ↦
            let o = (t.others k y).0 in
            let q = (t.others m z).0 in
            let ed : (s'.cache.buf k).dev ≡ (s.cache.buf k).dev = ap (λ b. b.dev) o in
            c.unique k m (there k ek) (there m em) (subst (λ x. 0 < x) ed p) (
              ap (λ b. b.dev) (sym q) ∙ n.0 ∙ ed,
              ap (λ b. b.blockno) (sym q) ∙ n.1 ∙ ap (λ b. b.blockno) o,
            )
      ]
    ]

    others :
        (b : ℕ)
        → ((k : ℕ)
            → elem k s'.cache.head ≡ true
            → (s'.cache.buf k).dirty ≡ true
            → (s'.cache.buf k).blockno ≡ b
            → ⊥)
        → (k : ℕ) → elem k s.cache.head ≡ true
        → (i == k) ≡ false
        → (s.cache.buf k).dirty ≡ true
        → (s.cache.buf k).blockno ≡ b
        → ⊥
    others b f k e ne z n = let o = (t.others k ne).0 in f k (t.list k ∙ e) (rw (o) z) (rw (o) n)

pub becomes-Coherent :
    {device : ℕ} (i : ℕ) (s s' : Blocks) (b : BufferHead)
    → s'.cache.buf i ≡ b
    → elem i s.cache.head ≡ true
    → Coherent device s
    → Touches i s s'
    → Keeps s s'.content i
    → Sound device s'.content (s'.waiting i) (s'.leaving i) b
    → Fresh s i b
    → Settled s s'.disk s'.content i b
    → Coherent device s'
becomes-Coherent {device} i s s' b e ei c t keeps =
    subst
      (λ x.
        Sound device s'.content (s'.waiting i) (s'.leaving i) x
        → Fresh s i x
        → Settled s s'.disk s'.content i x
        → Coherent device s')
      e (λ so fresh settled. Touches-Coherent i s s' ei c t keeps so fresh settled)
