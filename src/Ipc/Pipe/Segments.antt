-- ===== src/Ipc/Pipe/Segments.antt =====
-- Stretches of a circular array, and the unread bytes of a pipe (src/ipc/pipe.c) as one of them.
use lkc.Base.{
  ℕ, zero, suc, ◌+◌, ◌%◌, ◌^◌, ◌≤◌, ◌<◌, ◌≡◌, ◌≢◌, refl, sym, ap, ◌∙◌, List, [], ◌∷◌, ◌++◌, arith,
  update, length, length-append,
}
use lkc.Ipc.Pipe.{Pipe, Memory, put, advance_read, next_byte}

-- The `c` elements from index `r` on, in an array of length `w`
abbrev pub segment {ℓ} : {A : Type ℓ} → (ℕ → A) → ℕ → ℕ → ℕ → List A
segment f w r zero = []
segment f w r (suc c) = segment f w r c ++ (f ((r + c) % w) ∷ [])

pub segment-update :
    (f : ℕ → ℕ) (w r c i v : ℕ)
    → ((j : ℕ) → j < c → (r + j) % w ≢ i)
    → segment (update f i v) w r c ≡ segment f w r c
segment-update f w r zero i v h = refl
segment-update f w r (suc c) i v h =
    ground (arith, segment-update f w r c i v (λ j k. h j (omega arith)), h c (omega arith))

pub segment_cons :
    (f : ℕ → ℕ) (w r c : ℕ) → segment f w r (suc c) ≡ f (r % w) ∷ segment f w (r + 1) c
segment_cons f w r zero = ground arith
segment_cons f w r (suc c) = ground (arith, segment_cons f w r c)

pub length-segment : (f : ℕ → ℕ) (w r c : ℕ) → length (segment f w r c) ≡ c
length-segment f w r zero = refl
length-segment f w r (suc c) =
    ground (arith, length-segment f w r c, length-append (segment f w r c) (f ((r + c) % w) ∷ []))

-- The start of a stretch may wrap at 2 ^ 32, which the length of the array divides.
pub segment_wrap : (f : ℕ → ℕ) (r c : ℕ) → segment f 512 (r % 2 ^ 32) c ≡ segment f 512 r c
segment_wrap f r zero = refl
segment_wrap f r (suc c) = ground (arith, segment_wrap f r c)

-- A pipe with `c` unread bytes
pub record Holds (pi : Pipe) (c : ℕ) : Type 0 where
  pub small : pi.nread < 2 ^ 32
  pub count : pi.nwrite ≡ (pi.nread + c) % 2 ^ 32
  pub fits : c ≤ 512

abbrev pub contents : Pipe → ℕ → List ℕ
contents pi c = segment pi.buf 512 pi.nread c

-- The bytes of a process from an address on, which wraps at 2 ^ 64
abbrev pub user_bytes : Memory → ℕ → ℕ → List ℕ
user_bytes mem addr c = segment mem.bytes (2 ^ 64) addr c

pub put-Holds : (pi : Pipe) (c ch : ℕ) → Holds pi c → c < 512 → Holds (put pi ch) (suc c)
put-Holds pi c ch h k = ground arith

pub contents-put :
    (pi : Pipe) (c ch : ℕ)
    → Holds pi c
    → c < 512
    → contents (put pi ch) (suc c) ≡ contents pi c ++ (ch ∷ [])
contents-put pi c ch h k =
    ground (arith, segment-update pi.buf 512 pi.nread c (pi.nwrite % 512) ch (λ j l. ground arith))

pub advance_read-Holds : (pi : Pipe) (c : ℕ) → Holds pi (suc c) → Holds (advance_read pi) c
advance_read-Holds pi c h = ground arith

pub contents-advance_read :
    (pi : Pipe) (c : ℕ) → contents pi (suc c) ≡ next_byte pi ∷ contents (advance_read pi) c
contents-advance_read pi c =
    segment_cons pi.buf 512 pi.nread c
    ∙ ap (λ t. next_byte pi ∷ t) (sym (segment_wrap pi.buf (pi.nread + 1) c))
