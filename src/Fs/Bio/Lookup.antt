-- ===== src/Fs/Bio/Lookup.antt =====
-- Which buffer `bget` of src/fs/bio.c finds.
use mathlib.Core.Path.{subst}
use lkc.Base.{
  ℕ, ◌+◌, ◌<◌, ◌≡◌, refl, sym, ap, ◌∙◌, ◌⊎◌, inl, inr, true, false, ◌&&◌, List, [], ◌∷◌, Option,
  none, some, Option-cases, Bool-cases, ◌==◌, ==_iff, elem, erase, arith,
}
use lkc.Fs.Bio.{BufferHead, Bcache, set_buf, find_cached, find_unused, bget}
use lkc.Fs.Bio.Coherence.{Names}

pub find_cached-some :
    (buf : ℕ → BufferHead) (dev blockno i : ℕ) (is : List ℕ)
    → find_cached buf dev blockno is ≡ some i
    → (elem i is ≡ true) × Names (buf i) dev blockno
unfolding find_cached
find_cached-some buf dev blockno i [] h = ground arith
find_cached-some buf dev blockno i (k ∷ is) h =
    ground (arith, find_cached-some buf dev blockno i is)

pub find_cached-none :
    (buf : ℕ → BufferHead) (dev blockno : ℕ) (is : List ℕ)
    → find_cached buf dev blockno is ≡ none
    → (k : ℕ) → elem k is ≡ true
    → Names (buf k) dev blockno
    → ⊥
unfolding find_cached
find_cached-none buf dev blockno [] h k e n = ground arith
find_cached-none buf dev blockno (i ∷ is) h k e n =
    elim (Bool-cases ((buf i).dev == dev && (buf i).blockno == blockno)) [
      | inl y ↦ ground arith
      | inr z ↦
          let rest : find_cached buf dev blockno is ≡ none = ground arith in
          elim (Bool-cases (k == i)) [
            | inl y ↦
                let same = ap (λ x. buf x) ((==_iff k i).0 y) in
                let ed : (buf i).dev ≡ dev = ap (λ b. b.dev) (sym same) ∙ n.0 in
                let eb : (buf i).blockno ≡ blockno = ap (λ b. b.blockno) (sym same) ∙ n.1 in
                ground arith
            | inr m ↦ find_cached-none buf dev blockno is rest k (ground arith) n
          ]
    ]

pub find_unused-some :
    (buf : ℕ → BufferHead) (i : ℕ) (is : List ℕ)
    → find_unused buf is ≡ some i
    → (elem i is ≡ true) × ((buf i).refcnt ≡ 0)
unfolding find_unused
find_unused-some buf i [] h = ground arith
find_unused-some buf i (k ∷ is) h = elim (Option-cases (find_unused buf is)) [
  | inl e ↦ ground arith
  | inr (m, e) ↦ ground (arith, find_unused-some buf i is)
]

pub find_unused-none :
    (buf : ℕ → BufferHead) (is : List ℕ)
    → find_unused buf is ≡ none
    → (k : ℕ) → elem k is ≡ true
    → 0 < (buf k).refcnt
unfolding find_unused
find_unused-none buf [] h k e = ground arith
find_unused-none buf (i ∷ is) h k e = elim (Option-cases (find_unused buf is)) [
  | inl z ↦ ground (arith, find_unused-none buf is z k)
  | inr (m, z) ↦ ground arith
]

pub elem-to_front : (i k : ℕ) (is : List ℕ) → elem i is ≡ true → elem k (i ∷ erase i is) ≡ elem k is
elem-to_front i k is h = elim (Bool-cases (i == k)) [
  | inl y ↦ ground arith
  | inr n ↦ ground (arith, apart is)
]
  where
    apart : (xs : List ℕ) → (i == k) ≡ false → elem k (erase i xs) ≡ elem k xs
    apart [] n = refl
    apart (x ∷ xs) n = ground (arith, apart xs n)

-- The buffer of a call of `bget`: one for the block, or the unused one that is taken for it
abbrev pub Found : ℕ → ℕ → Bcache → Bcache × ℕ → Type 0
Found dev blockno c (c', i) =
    (elem i c.head ≡ true)
    × ((Names (c.buf i) dev blockno
          × (c' ≡ set_buf c i (record (c.buf i) { refcnt = (c.buf i).refcnt + 1 })))
        ⊎ (((k : ℕ) → elem k c.head ≡ true → Names (c.buf k) dev blockno → ⊥)
            × ((c.buf i).refcnt ≡ 0)
            × (c'
                ≡ set_buf c i (record (c.buf i) {
                  dev = dev;
                  blockno = blockno;
                  valid = false;
                  refcnt = 1;
                }))))

pub bget_lem :
    (dev blockno : ℕ) (c : Bcache) (r : Bcache × ℕ)
    → bget dev blockno c ≡ some r
    → Found dev blockno c r
unfolding bget
bget_lem dev blockno c r h = elim (Option-cases (find_cached c.buf dev blockno c.head)) [
  | inl e ↦ elim (Option-cases (find_unused c.buf c.head)) [
    | inl f ↦ absurd (clash r (sym (rw (bget, e, f) refl) ∙ h))
    | inr (k, f) ↦
        let u = find_unused-some c.buf k c.head f in
        let found : Found dev blockno c (_, k) =
          (u.0, inr (find_cached-none c.buf dev blockno c.head e, u.1, refl)) in
        subst (λ x. Found dev blockno c x)
          (same (bget dev blockno c) (_, k) r (rw (bget, e, f) refl) h) found
  ]
  | inr (k, e) ↦
      let u = find_cached-some c.buf dev blockno k c.head e in
      let found : Found dev blockno c (_, k) = (u.0, inl (u.1, refl)) in
      subst (λ x. Found dev blockno c x) (same (bget dev blockno c) (_, k) r (rw (bget, e) refl) h)
        found
]
  where
    same : (o : Option (Bcache × ℕ)) (u v : Bcache × ℕ) → o ≡ some u → o ≡ some v → u ≡ v
    same o u v e f = cc

    clash : (v : Bcache × ℕ) → none ≡ some v → ⊥
    clash v e = ground arith

pub bget-some :
    (dev blockno free : ℕ) (c : Bcache)
    → elem free c.head ≡ true
    → (c.buf free).refcnt ≡ 0
    → (r : Bcache × ℕ) × (bget dev blockno c ≡ some r)
unfolding bget
bget-some dev blockno free c e z = elim (Option-cases (find_cached c.buf dev blockno c.head)) [
  | inl f ↦ elim (Option-cases (find_unused c.buf c.head)) [
    | inl g ↦ absurd (omega (arith, find_unused-none c.buf c.head g free e))
    | inr (k, g) ↦ (
      (
        set_buf c k (record (c.buf k) { dev = dev; blockno = blockno; valid = false; refcnt = 1 }),
        k,
      ),
      rw (bget, f, g) refl,
    )
  ]
  | inr (k, f) ↦
      ((set_buf c k (record (c.buf k) { refcnt = (c.buf k).refcnt + 1 }), k), rw (bget, f) refl)
]
