-- ===== src/Ipc/Pipe.antt =====
-- The pipe: src/ipc/pipe.c and include/ipc/pipe.h.
--
-- `nread` and `nwrite` are `uint`: they wrap at 2 ^ 32. `pi->lock` makes the code between two waits one
-- step: `pipe_write` and `pipe_read` run until they return or are about to call `sema_wait`, and the
-- same functions continue afterwards. A parameter `killed` is what `proc_killed` answers, for
-- `pipe_write` at each byte.
pub mod Segments
pub mod Writing
pub mod Reading
pub mod Fifo
pub mod Closing
mod Tests
use lkc.Base.{
  ℕ, zero, suc, ◌+◌, ◌-◌, ◌%◌, ◌^◌, Bool, true, false, not, ◌&&◌, ◌||◌, List, [], ◌∷◌, Option, none,
  some, ◌==◌, if◌then◌else◌, update,
}
use lkc.Base.Int.{ℤ, pos, negsuc, pos_part}
use lkc.Atomic.Semaphore.{Sem, sema_init, sema_signal}

abbrev pub pipesize : ℕ
pipesize = 512

pub record Pipe : Type 0 where
  pub buf : ℕ → ℕ
  pub nread : ℕ
  pub nwrite : ℕ
  pub readopen : Bool
  pub writeopen : Bool
  pub read_sem : Sem
  pub write_sem : Sem

-- The memory of a process: which addresses are mapped, and the bytes there.
pub record Memory : Type 0 where
  pub mapped : ℕ → Bool
  pub bytes : ℕ → ℕ

-- `waits i`: the call is about to wait with `i` bytes done.
pub data Outcome : Type 0 where
  returned : ℤ → Outcome
  waits : ℕ → Outcome

-- One byte in and out of a process, -1 where the address is not mapped
abbrev pub either_copyin : Memory → ℕ → Option ℕ
either_copyin mem a = if mem.mapped a then some (mem.bytes a) else none

abbrev pub either_copyout : Memory → ℕ → ℕ → Option Memory
either_copyout mem a ch =
    if mem.mapped a then some (record mem { bytes = update mem.bytes a ch }) else none

abbrev pub new_pipe : Pipe
new_pipe = record {
  buf = λ i. 0;
  nread = 0;
  nwrite = 0;
  readopen = true;
  writeopen = true;
  read_sem = sema_init (pos 0);
  write_sem = sema_init (pos 0);
}

abbrev pub is_full : Pipe → Bool
is_full pi = pi.nwrite == (pi.nread + pipesize) % 2 ^ 32

abbrev pub is_empty : Pipe → Bool
is_empty pi = pi.nread == pi.nwrite

-- `pi->data[pi->nwrite++ % PIPESIZE] = ch`
abbrev pub put : Pipe → ℕ → Pipe
put pi ch = record pi {
  buf = update pi.buf (pi.nwrite % pipesize) ch;
  nwrite = (pi.nwrite + 1) % 2 ^ 32;
}

abbrev pub next_byte : Pipe → ℕ
next_byte pi = pi.buf (pi.nread % pipesize)

abbrev pub advance_read : Pipe → Pipe
advance_read pi = record pi { nread = (pi.nread + 1) % 2 ^ 32 }

unfoldable pub signal_read : Pipe → Pipe × Option ℕ
signal_read pi = let (m, woken) = sema_signal pi.read_sem in (record pi { read_sem = m }, woken)

unfoldable pub signal_write : Pipe → Pipe × Option ℕ
signal_write pi = let (m, woken) = sema_signal pi.write_sem in (record pi { write_sem = m }, woken)

-- What a run of a call leaves: the pipe, the thread that it woke, and how it ended.
pub record Run : Type 0 where
  pub pipe : Pipe
  pub woken : Option ℕ
  pub outcome : Outcome

abbrev pub ended : Pipe × Option ℕ → Outcome → Run
ended (pi, woken) outcome = record { pipe = pi; woken = woken; outcome = outcome }

-- The loop of `pipe_write` with `i` bytes done and `k` to go
unfoldable pub write_loop : Memory → (ℕ → Bool) → ℕ → ℕ → ℕ → Pipe → Run
write_loop mem killed addr i zero pi = ended (signal_read pi) (returned (pos i))
write_loop mem killed addr i (suc k) pi = elim (not pi.readopen || killed i) [
  | true ↦ ended (pi, none) (returned (negsuc 0))
  | false ↦ elim (is_full pi) [
    | true ↦ ended (signal_read pi) (waits i)
    | false ↦ elim (either_copyin mem ((addr + i) % 2 ^ 64)) [
      | none ↦ ended (signal_read pi) (returned (pos i))
      | some ch ↦ write_loop mem killed addr (suc i) k (put pi ch)
    ]
  ]
]

-- `pipe_write` from its start (`i` 0) or from a return of `sema_wait`
unfoldable pub pipe_write : Memory → (ℕ → Bool) → ℕ → ℤ → ℕ → Pipe → Run
pipe_write mem killed addr n i pi = write_loop mem killed addr i (pos_part n - i) pi

-- The second loop of `pipe_read`
unfoldable pub read_loop : Memory → ℕ → ℕ → ℕ → Pipe → Memory × Run
read_loop mem addr i zero pi = (mem, ended (signal_write pi) (returned (pos i)))
read_loop mem addr i (suc k) pi = elim (is_empty pi) [
  | true ↦ (mem, ended (signal_write pi) (returned (pos i)))
  | false ↦ elim (either_copyout mem ((addr + i) % 2 ^ 64) (next_byte pi)) [
    | none ↦ (mem, ended (signal_write pi) (returned (pos i)))
    | some mem' ↦ read_loop mem' addr (suc i) k (advance_read pi)
  ]
]

-- `pipe_read` from its start or from a return of `sema_wait`: the test of the first loop, then the
-- second loop
unfoldable pub pipe_read : Memory → Bool → ℕ → ℤ → Pipe → Memory × Run
pipe_read mem killed addr n pi = elim (is_empty pi && pi.writeopen) [
  | true ↦ (mem, ended (pi, none) (if killed then returned (negsuc 0) else waits 0))
  | false ↦ read_loop mem addr 0 (pos_part n) pi
]

-- `pipe_close`, with whether the pipe is freed
unfoldable pub pipe_close : Pipe → Bool → (Pipe × Option ℕ) × Bool
pipe_close pi writable =
    let r =
      if writable
      then signal_read (record pi { writeopen = false })
      else signal_write (record pi { readopen = false }) in
    (r, not r.0.readopen && not r.0.writeopen)

-- `pipe_empty` and `pipe_full`, under the lock
unfoldable pub pipe_empty : Pipe → Bool
pipe_empty pi = is_empty pi

unfoldable pub pipe_full : Pipe → Bool
pipe_full pi = is_full pi
