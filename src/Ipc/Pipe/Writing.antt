-- ===== src/Ipc/Pipe/Writing.antt =====
-- What a run of `pipe_write` (src/ipc/pipe.c) does to the unread bytes, and how it ends.
use lkc.Base.{
  ℕ, zero, suc, ◌+◌, ◌-◌, ◌%◌, ◌^◌, ◌<◌, ◌≡◌, refl, sym, ap, ◌∙◌, ◌⊎◌, inl, inr, Bool, true, false,
  not, ◌||◌, List, [], ◌∷◌, ◌++◌, append-nil, append_assoc, Option, none, arith, Bool-cases, ◌==◌,
}
use lkc.Base.Int.{ℤ, pos, negsuc, pos_part}
use lkc.Atomic.Semaphore.{Sem, sema_signal}
use lkc.Ipc.Pipe.{
  Pipe, Memory, Run, Outcome, returned, waits, ended, put, is_full, signal_read, write_loop,
  pipe_write,
}
use lkc.Ipc.Pipe.Segments.{Holds, contents, user_bytes, put-Holds, contents-put, segment_cons}

-- How a run ends that had `i` bytes done and `k` to go on a pipe with `c` unread bytes, and that wrote
-- `d` more
abbrev pub WriteEnds : Memory → (ℕ → Bool) → ℕ → ℕ → ℕ → Pipe → ℕ → ℕ → Outcome → Type 0
WriteEnds mem killed addr i k pi c d (returned (pos j)) =
    (j ≡ i + d)
    × ((d ≡ k)
        ⊎ ((d < k)
            × (pi.readopen ≡ true)
            × (killed (i + d) ≡ false)
            × (c + d < 512)
            × (mem.mapped ((addr + (i + d)) % 2 ^ 64) ≡ false)))
WriteEnds mem killed addr i k pi c d (returned (negsuc m)) =
    (m ≡ 0) × (d < k) × ((pi.readopen ≡ false) ⊎ (killed (i + d) ≡ true))
WriteEnds mem killed addr i k pi c d (waits j) =
    (j ≡ i + d) × (d < k) × (pi.readopen ≡ true) × (killed (i + d) ≡ false) × (c + d ≡ 512)

-- A run that ends with -1 signals nobody, every other one signals the readers.
abbrev pub WriteSignals : Sem → Sem → Option ℕ → Outcome → Type 0
WriteSignals m m' woken (returned (pos j)) = (m', woken) ≡ sema_signal m
WriteSignals m m' woken (returned (negsuc j)) = (m' ≡ m) × (woken ≡ none)
WriteSignals m m' woken (waits j) = (m', woken) ≡ sema_signal m

pub record Written (mem : Memory) (killed : ℕ → Bool) (addr i k : ℕ) (pi : Pipe) (c : ℕ) (run : Run)
    : Type 0 where
  pub amount : ℕ
  pub holds : Holds run.pipe (c + amount)
  pub appended : contents run.pipe (c + amount) ≡ contents pi c ++ user_bytes mem (addr + i) amount
  pub went_on :
      (m : ℕ)
      → m < amount
      → (pi.readopen ≡ true)
        × (killed (i + m) ≡ false)
        × (mem.mapped ((addr + (i + m)) % 2 ^ 64) ≡ true)
  pub ends : WriteEnds mem killed addr i k pi c amount run.outcome
  pub signals : WriteSignals pi.read_sem run.pipe.read_sem run.woken run.outcome
  pub kept :
      (run.pipe.nread ≡ pi.nread)
      × (run.pipe.readopen ≡ pi.readopen)
      × (run.pipe.writeopen ≡ pi.writeopen)
      × (run.pipe.write_sem ≡ pi.write_sem)

is_full_of_Holds : (pi : Pipe) (c : ℕ) → Holds pi c → is_full pi ≡ (c == 512)
is_full_of_Holds pi c h = ground arith

-- A run that stops at once after a signal
stop_signal :
    (mem : Memory) (killed : ℕ → Bool) (addr i k : ℕ) (pi : Pipe) (c : ℕ) (o : Outcome)
    → Holds pi c
    → WriteEnds mem killed addr i k pi c 0 o
    → ((m m' : Sem) (w : Option ℕ) → (m', w) ≡ sema_signal m → WriteSignals m m' w o)
    → Written mem killed addr i k pi c (ended (signal_read pi) o)
unfolding signal_read
stop_signal mem killed addr i k pi c o h e g = record {
  amount = 0;
  holds = ground arith;
  appended = ground (arith, append-nil (contents pi c));
  went_on = λ m l. absurd (omega arith);
  ends = e;
  signals = g pi.read_sem (sema_signal pi.read_sem).0 (sema_signal pi.read_sem).1 refl;
  kept = (refl, refl, refl, refl);
}

-- A run that stops at once with -1
stop_error :
    (mem : Memory) (killed : ℕ → Bool) (addr i k : ℕ) (pi : Pipe) (c : ℕ)
    → Holds pi c
    → (not pi.readopen || killed i) ≡ true
    → Written mem killed addr i (suc k) pi c (ended (pi, none) (returned (negsuc 0)))
stop_error mem killed addr i k pi c h e = record {
  amount = 0;
  holds = ground arith;
  appended = ground (arith, append-nil (contents pi c));
  went_on = λ m l. absurd (omega arith);
  ends = ground arith;
  signals = (refl, refl);
  kept = (refl, refl, refl, refl);
}

WriteEnds-step :
    (mem : Memory) (killed : ℕ → Bool) (addr i k : ℕ) (pi : Pipe) (c d ch : ℕ) (o : Outcome)
    → WriteEnds mem killed addr (suc i) k (put pi ch) (suc c) d o
    → WriteEnds mem killed addr i (suc k) pi c (suc d) o
WriteEnds-step mem killed addr i k pi c d ch (returned (pos j)) h = ground arith
WriteEnds-step mem killed addr i k pi c d ch (returned (negsuc m)) h = ground arith
WriteEnds-step mem killed addr i k pi c d ch (waits j) h = ground arith

-- One byte and the ones after it
append_byte :
    (mem : Memory) (a d : ℕ) (xs : List ℕ)
    → (xs ++ (mem.bytes (a % 2 ^ 64) ∷ [])) ++ user_bytes mem (a + 1) d
      ≡ xs ++ user_bytes mem a (suc d)
append_byte mem a d xs =
    append_assoc xs (mem.bytes (a % 2 ^ 64) ∷ []) (user_bytes mem (a + 1) d)
    ∙ ap (λ t. xs ++ t) (sym (segment_cons mem.bytes (2 ^ 64) a d))

step_put :
    (mem : Memory) (killed : ℕ → Bool) (addr i k : ℕ) (pi : Pipe) (c : ℕ) (run : Run)
    → Holds pi c
    → c < 512
    → pi.readopen ≡ true
    → killed i ≡ false
    → mem.mapped ((addr + i) % 2 ^ 64) ≡ true
    → Written mem killed addr (suc i) k (put pi (mem.bytes ((addr + i) % 2 ^ 64))) (suc c) run
    → Written mem killed addr i (suc k) pi c run
step_put mem killed addr i k pi c run h l ro ki ma w =
    let shift : c + suc w.amount ≡ suc c + w.amount = omega arith in
    let next : addr + suc i ≡ addr + i + 1 = omega arith in
    record {
      amount = suc w.amount;
      holds = ground arith;
      appended =
          ap (contents run.pipe) shift
          ∙ w.appended
          ∙ ap (λ t. t ++ user_bytes mem (addr + suc i) w.amount)
              (contents-put pi c (mem.bytes ((addr + i) % 2 ^ 64)) h l)
          ∙ ap
              (λ t.
                (contents pi c ++ (mem.bytes ((addr + i) % 2 ^ 64) ∷ []))
                ++ user_bytes mem t w.amount)
              next
          ∙ append_byte mem (addr + i) w.amount (contents pi c);
      went_on = went;
      ends =
          WriteEnds-step mem killed addr i k pi c w.amount (mem.bytes ((addr + i) % 2 ^ 64))
            run.outcome w.ends;
      signals = w.signals;
      kept = w.kept;
    }
  where
    went :
        (m : ℕ)
        → m < suc w.amount
        → (pi.readopen ≡ true)
          × (killed (i + m) ≡ false)
          × (mem.mapped ((addr + (i + m)) % 2 ^ 64) ≡ true)
    went zero b = ground arith
    went (suc m) b = ground (arith, w.went_on m)

pub write_loop_lem :
    (mem : Memory) (killed : ℕ → Bool) (addr i k : ℕ) (pi : Pipe) (c : ℕ)
    → Holds pi c
    → Written mem killed addr i k pi c (write_loop mem killed addr i k pi)
unfolding write_loop
write_loop_lem mem killed addr i zero pi c h =
    stop_signal mem killed addr i zero pi c (returned (pos i)) h (ground arith) (λ m m' w e. e)
write_loop_lem mem killed addr i (suc k) pi c h = elim (Bool-cases (not pi.readopen || killed i)) [
  | inl e ↦ rw (write_loop, e) (stop_error mem killed addr i k pi c h e)
  | inr e ↦ elim (Bool-cases (is_full pi)) [
    | inl f ↦
        rw (write_loop, e, f)
          (stop_signal mem killed addr i (suc k) pi c (waits i) h
            (ground (arith, is_full_of_Holds pi c h)) (λ m m' w e. e))
    | inr f ↦ elim (Bool-cases (mem.mapped ((addr + i) % 2 ^ 64))) [
      | inl m ↦
          rw (write_loop, e, f, m)
            (step_put mem killed addr i k pi c
              (write_loop mem killed addr (suc i) k (put pi (mem.bytes ((addr + i) % 2 ^ 64)))) h
              (ground (arith, is_full_of_Holds pi c h)) (ground arith) (ground arith) m
              (write_loop_lem mem killed addr (suc i) k (put pi (mem.bytes ((addr + i) % 2 ^ 64)))
                (suc c)
                (put-Holds pi c (mem.bytes ((addr + i) % 2 ^ 64)) h
                  (ground (arith, is_full_of_Holds pi c h)))))
      | inr m ↦
          rw (write_loop, e, f, m)
            (stop_signal mem killed addr i (suc k) pi c (returned (pos i)) h (ground arith)
              (λ m m' w e. e))
    ]
  ]
]

-- On a pipe with c unread bytes, every run of `pipe_write` appends the next bytes of the caller's
-- memory, in order, and nothing else; it goes on past a byte only while the read end is open, the
-- caller is not killed and the address is mapped; it ends with the count of bytes done, at the end
-- of the request, or at an unmapped address with the read end open, the caller not killed and the
-- pipe not full; with -1, with bytes to go, when the read end is closed or the caller killed; or
-- about to wait, with bytes to go, when the read end is open, the caller not killed and the pipe
-- full. Save for -1 it signals `read_sem` once.
pub pipe_write_lem :
    (mem : Memory) (killed : ℕ → Bool) (addr : ℕ) (n : ℤ) (i : ℕ) (pi : Pipe) (c : ℕ)
    → Holds pi c
    → Written mem killed addr i (pos_part n - i) pi c (pipe_write mem killed addr n i pi)
unfolding pipe_write
pipe_write_lem mem killed addr n i pi c h = write_loop_lem mem killed addr i (pos_part n - i) pi c h
