-- ===== src/Ipc/Pipe/Reading.antt =====
-- What a run of `pipe_read` (src/ipc/pipe.c) does to the unread bytes, and how it ends.
use lkc.Base.{
  ℕ, zero, suc, ◌+◌, ◌%◌, ◌^◌, ◌<◌, ◌≡◌, ◌≢◌, refl, sym, ap, ◌∙◌, ◌⊎◌, inl, inr, Bool, true, false,
  ◌&&◌, ◌∷◌, ◌++◌, none, arith, Bool-cases, ◌==◌, update, if◌then◌else◌,
}
use lkc.Base.Int.{ℤ, pos, negsuc, pos_part}
use lkc.Atomic.Semaphore.{sema_signal}
use lkc.Ipc.Pipe.{
  Pipe, Memory, Run, returned, waits, ended, advance_read, next_byte, is_empty, signal_write,
  read_loop, pipe_read,
}
use lkc.Ipc.Pipe.Segments.{
  Holds, contents, user_bytes, advance_read-Holds, contents-advance_read, segment_cons,
}

-- A run of the copying loop that had `i` bytes done and `k` to go on a pipe with `rest + amount` unread
-- bytes, and that copied `amount` more
pub record Copied (mem : Memory) (addr i k : ℕ) (pi : Pipe) (c : ℕ) (res : Memory × Run)
    : Type 0 where
  pub amount : ℕ
  pub rest : ℕ
  pub split : c ≡ rest + amount
  pub holds : Holds res.1.pipe rest
  pub taken : contents pi c ≡ user_bytes res.0 (addr + i) amount ++ contents res.1.pipe rest
  pub elsewhere :
      (a : ℕ) → ((j : ℕ) → j < amount → (addr + i + j) % 2 ^ 64 ≢ a) → res.0.bytes a ≡ mem.bytes a
  pub mapping : res.0.mapped ≡ mem.mapped
  pub outcome : res.1.outcome ≡ returned (pos (i + amount))
  pub reason : (amount ≡ k) ⊎ ((rest ≡ 0) ⊎ (mem.mapped ((addr + (i + amount)) % 2 ^ 64) ≡ false))
  pub signals : (res.1.pipe.write_sem, res.1.woken) ≡ sema_signal pi.write_sem
  pub kept :
      (res.1.pipe.nwrite ≡ pi.nwrite)
      × (res.1.pipe.readopen ≡ pi.readopen)
      × (res.1.pipe.writeopen ≡ pi.writeopen)
      × (res.1.pipe.read_sem ≡ pi.read_sem)

is_empty_of_Holds : (pi : Pipe) (c : ℕ) → Holds pi c → is_empty pi ≡ (c == 0)
is_empty_of_Holds pi c h = ground arith

stop :
    (mem : Memory) (addr i k : ℕ) (pi : Pipe) (c : ℕ)
    → Holds pi c
    → (0 ≡ k) ⊎ ((c ≡ 0) ⊎ (mem.mapped ((addr + i) % 2 ^ 64) ≡ false))
    → Copied mem addr i k pi c (mem, ended (signal_write pi) (returned (pos i)))
unfolding signal_write
stop mem addr i k pi c h e = record {
  amount = 0;
  rest = c;
  split = omega arith;
  holds = ground arith;
  taken = refl;
  elsewhere = λ a f. refl;
  mapping = refl;
  outcome = ground arith;
  reason = ground arith;
  signals = refl;
  kept = (refl, refl, refl, refl);
}

abbrev store : Memory → ℕ → ℕ → Memory
store mem a ch = record mem { bytes = update mem.bytes a ch }

step :
    (mem : Memory) (addr i k : ℕ) (pi : Pipe) (c : ℕ) (res : Memory × Run)
    → Holds pi (suc c)
    → Copied (store mem ((addr + i) % 2 ^ 64) (next_byte pi)) addr (suc i) k (advance_read pi) c res
    → Copied mem addr i (suc k) pi (suc c) res
step mem addr i k pi c res h w =
    let next : addr + suc i ≡ addr + i + 1 = omega arith in
    let first : res.0.bytes ((addr + i) % 2 ^ 64) ≡ next_byte pi =
      w.elsewhere ((addr + i) % 2 ^ 64) (λ j l. omega (arith, w.split, h.fits)) ∙ ground arith in
    record {
      amount = suc w.amount;
      rest = w.rest;
      split = omega (arith, w.split);
      holds = w.holds;
      taken =
          contents-advance_read pi c
          ∙ ap (λ t. next_byte pi ∷ t) w.taken
          ∙ ap (λ t. next_byte pi ∷ (user_bytes res.0 t w.amount ++ contents res.1.pipe w.rest))
              next
          ∙ ap (λ t. t ∷ (user_bytes res.0 (addr + i + 1) w.amount ++ contents res.1.pipe w.rest))
              (sym first)
          ∙ ap (λ t. t ++ contents res.1.pipe w.rest)
              (sym (segment_cons res.0.bytes (2 ^ 64) (addr + i) w.amount));
      elsewhere = λ a f.
          w.elsewhere a (λ j l e. f (suc j) (omega arith) (omega (arith, e)))
          ∙ ground (arith, f 0 (omega arith));
      mapping = w.mapping;
      outcome = ground arith;
      reason = ground arith;
      signals = w.signals;
      kept = w.kept;
    }

pub read_loop_lem :
    (mem : Memory) (addr i k : ℕ) (pi : Pipe) (c : ℕ)
    → Holds pi c
    → Copied mem addr i k pi c (read_loop mem addr i k pi)
unfolding read_loop
read_loop_lem mem addr i zero pi c h = stop mem addr i zero pi c h (inl refl)
read_loop_lem mem addr i (suc k) pi zero h =
    let e : is_empty pi ≡ true = ground (arith, is_empty_of_Holds pi zero h) in
    rw (read_loop, e) (stop mem addr i (suc k) pi zero h (inr (inl refl)))
read_loop_lem mem addr i (suc k) pi (suc c) h =
    let e : is_empty pi ≡ false = ground (arith, is_empty_of_Holds pi (suc c) h) in
    elim (Bool-cases (mem.mapped ((addr + i) % 2 ^ 64))) [
      | inl m ↦
          rw (read_loop, e, m)
            (step mem addr i k pi c
              (read_loop (store mem ((addr + i) % 2 ^ 64) (next_byte pi)) addr (suc i) k
                (advance_read pi))
              h
              (read_loop_lem (store mem ((addr + i) % 2 ^ 64) (next_byte pi)) addr (suc i) k
                (advance_read pi) c (advance_read-Holds pi c h)))
      | inr m ↦ rw (read_loop, e, m) (stop mem addr i (suc k) pi (suc c) h (inr (inr m)))
    ]

-- What `pipe_read` does on an empty pipe whose write end is open, and on any other
abbrev pub ReadEnds : Memory → Bool → ℕ → ℤ → Pipe → ℕ → Memory × Run → Type 0
ReadEnds mem killed addr n pi c res =
    ((c ≡ 0)
      × (pi.writeopen ≡ true)
      × (res ≡ (mem, ended (pi, none) (if killed then returned (negsuc 0) else waits 0))))
    ⊎ (((c ≢ 0) ⊎ (pi.writeopen ≡ false)) × Copied mem addr 0 (pos_part n) pi c res)

-- On a pipe with c unread bytes, `pipe_read` changes nothing and returns -1 or is about to wait
-- where there are none and the write end is open; otherwise it moves the oldest unread bytes, in
-- order, to the caller's memory, changes no other address and no field but nread and `write_sem`,
-- which it signals, and returns their number, stopping at the end of the request, on an empty pipe
-- or at the first unmapped address.
pub pipe_read_lem :
    (mem : Memory) (killed : Bool) (addr : ℕ) (n : ℤ) (pi : Pipe) (c : ℕ)
    → Holds pi c
    → ReadEnds mem killed addr n pi c (pipe_read mem killed addr n pi)
unfolding pipe_read
pipe_read_lem mem killed addr n pi c h = elim (Bool-cases (is_empty pi && pi.writeopen)) [
  | inl e ↦ rw (pipe_read, e) (inl (ground (arith, is_empty_of_Holds pi c h)))
  | inr e ↦
      rw (pipe_read, e)
        (inr
          (ground (arith, is_empty_of_Holds pi c h), read_loop_lem mem addr 0 (pos_part n) pi c h))
]
