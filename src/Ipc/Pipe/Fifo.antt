-- ===== src/Ipc/Pipe/Fifo.antt =====
-- A pipe of src/ipc/pipe.c under any number of readers and writers, whose runs between two waits are
-- interleaved in any order.
use lkc.Base.{
  ℕ, ◌+◌, ◌-◌, ◌%◌, ◌^◌, ◌≡◌, refl, sym, ap, ◌∙◌, inl, inr, Bool, true, false, List, [], ◌++◌,
  append-nil, append_assoc, arith,
}
use lkc.Base.Int.{ℤ, pos_part}
use lkc.Atomic.Semaphore.{Sem}
use lkc.Ipc.Pipe.{
  Pipe, Memory, Run, new_pipe, signal_read, signal_write, pipe_write, pipe_read, pipe_close,
}
use lkc.Ipc.Pipe.Segments.{Holds, contents, user_bytes}
use lkc.Ipc.Pipe.Writing.{Written, pipe_write_lem}
use lkc.Ipc.Pipe.Reading.{Copied, ReadEnds, pipe_read_lem}

-- How far a `uint` counter went
abbrev pub advance : ℕ → ℕ → ℕ
advance old new = (new + 2 ^ 32 - old) % 2 ^ 32

-- The number of unread bytes
abbrev pub unread : Pipe → ℕ
unread pi = advance pi.nread pi.nwrite

-- What a close leaves
abbrev pub after_close : Pipe → Bool → Pipe
after_close pi writable = (pipe_close pi writable).0.0

-- The states of a pipe, with the bytes that all calls of `pipe_write` took from their callers so far
-- and the bytes that all calls of `pipe_read` left in the memory of theirs. A step is a run of a call
-- at any memory, request and progress; a wait on a semaphore, which may change it in any way; or a
-- close.
pub data Reach : List ℕ → List ℕ → Pipe → Type 0 where
  init : Reach [] [] new_pipe
  write :
      {given taken : List ℕ} {pi : Pipe} (mem : Memory) (killed : ℕ → Bool) (addr : ℕ) (n : ℤ)
      (i : ℕ) {run : Run}
      → Reach given taken pi
      → pipe_write mem killed addr n i pi ≡ run
      → Reach
          (given ++ user_bytes mem (addr + i) (advance pi.nwrite run.pipe.nwrite))
          taken
          run.pipe
  read :
      {given taken : List ℕ} {pi : Pipe} (mem : Memory) (killed : Bool) (addr : ℕ) (n : ℤ)
      {mem' : Memory} {run : Run}
      → Reach given taken pi
      → pipe_read mem killed addr n pi ≡ (mem', run)
      → Reach given (taken ++ user_bytes mem' addr (advance pi.nread run.pipe.nread)) run.pipe
  wait_read :
      {given taken : List ℕ} {pi : Pipe} (m : Sem)
      → Reach given taken pi
      → Reach given taken (record pi { read_sem = m })
  wait_write :
      {given taken : List ℕ} {pi : Pipe} (m : Sem)
      → Reach given taken pi
      → Reach given taken (record pi { write_sem = m })
  close :
      {given taken : List ℕ} {pi : Pipe} (writable : Bool)
      → Reach given taken pi
      → Reach given taken (after_close pi writable)

-- The unread bytes are those given and not taken yet.
pub record Sound (given taken : List ℕ) (pi : Pipe) : Type 0 where
  pub holds : Holds pi (unread pi)
  pub order : given ≡ taken ++ contents pi (unread pi)

unread_of_Holds : (pi : Pipe) (c : ℕ) → Holds pi c → unread pi ≡ c
unread_of_Holds pi c h = ground arith

Sound_of_Holds :
    (given taken : List ℕ) (pi : Pipe) (c : ℕ)
    → Holds pi c
    → given ≡ taken ++ contents pi c
    → Sound given taken pi
Sound_of_Holds given taken pi c h e =
    let u = unread_of_Holds pi c h in record { holds = rw (u) h; order = rw (u) e }

Written-Sound :
    (given taken : List ℕ) (pi : Pipe) (mem : Memory) (killed : ℕ → Bool) (addr i k : ℕ) (run : Run)
    → Written mem killed addr i k pi (unread pi) run
    → Sound given taken pi
    → Sound (given ++ user_bytes mem (addr + i) (advance pi.nwrite run.pipe.nwrite)) taken run.pipe
Written-Sound given taken pi mem killed addr i k run w s =
    let u : advance pi.nwrite run.pipe.nwrite ≡ w.amount = ground arith in
    Sound_of_Holds _ taken run.pipe (unread pi + w.amount) w.holds (
      ap (λ t. given ++ user_bytes mem (addr + i) t) u
      ∙ ap (λ t. t ++ user_bytes mem (addr + i) w.amount) s.order
      ∙ append_assoc taken (contents pi (unread pi)) (user_bytes mem (addr + i) w.amount)
      ∙ ap (λ t. taken ++ t) (sym w.appended))

Copied-Sound :
    (given taken : List ℕ) (pi : Pipe) (mem : Memory) (addr k : ℕ) (res : Memory × Run)
    → Copied mem addr 0 k pi (unread pi) res
    → Sound given taken pi
    → Sound given (taken ++ user_bytes res.0 addr (advance pi.nread res.1.pipe.nread)) res.1.pipe
Copied-Sound given taken pi mem addr k res w s =
    let u : advance pi.nread res.1.pipe.nread ≡ w.amount = ground arith in
    let z : addr + 0 ≡ addr = omega arith in
    Sound_of_Holds given _ res.1.pipe w.rest w.holds (
      s.order
      ∙ ap (λ t. taken ++ t) w.taken
      ∙ sym (append_assoc taken (user_bytes res.0 (addr + 0) w.amount) (contents res.1.pipe w.rest))
      ∙ ap (λ t. (taken ++ user_bytes res.0 t w.amount) ++ contents res.1.pipe w.rest) z
      ∙ ap (λ t. (taken ++ user_bytes res.0 addr t) ++ contents res.1.pipe w.rest) (sym u))

idle-Sound :
    (given taken : List ℕ) (pi : Pipe) (mem : Memory) (addr : ℕ)
    → Sound given taken pi
    → Sound given (taken ++ user_bytes mem addr (advance pi.nread pi.nread)) pi
idle-Sound given taken pi mem addr s =
    let u : advance pi.nread pi.nread ≡ 0 = ground arith in rw (u, append-nil taken) s

ReadEnds-Sound :
    (given taken : List ℕ) (pi : Pipe) (mem : Memory) (killed : Bool) (addr : ℕ) (n : ℤ)
    (res : Memory × Run)
    → ReadEnds mem killed addr n pi (unread pi) res
    → Sound given taken pi
    → Sound given (taken ++ user_bytes res.0 addr (advance pi.nread res.1.pipe.nread)) res.1.pipe
ReadEnds-Sound given taken pi mem killed addr n res (inl (e, o, f)) s =
    let p : res.1.pipe ≡ pi = ap (λ r. r.1.pipe) f in
    rw (p) (idle-Sound given taken pi res.0 addr s)
ReadEnds-Sound given taken pi mem killed addr n res (inr (o, w)) s =
    Copied-Sound given taken pi mem addr (pos_part n) res w s

close-Sound :
    (given taken : List ℕ) (pi : Pipe) (writable : Bool)
    → Sound given taken pi
    → Sound given taken (after_close pi writable)
unfolding pipe_close signal_read signal_write
close-Sound given taken pi true s = record { holds = ground arith; order = s.order }
close-Sound given taken pi false s = record { holds = ground arith; order = s.order }

-- In every state that runs of `pipe_write` and `pipe_read`, waits on the semaphores and closes lead
-- to, in any interleaving, the bytes that calls of `pipe_write` took are, in order, the bytes that
-- calls of `pipe_read` delivered followed by the unread bytes; these are at most 512, and the
-- wrapping counters hold their number.
pub Reach-Fifo : {given taken : List ℕ} {pi : Pipe} → Reach given taken pi → Sound given taken pi
Reach-Fifo init = record { holds = ground arith; order = refl }
Reach-Fifo (write {given} {taken} {pi} mem killed addr n i {run} r e) =
    let s = Reach-Fifo r in
    Written-Sound given taken pi mem killed addr i (pos_part n - i) run
      (rw (← e) (pipe_write_lem mem killed addr n i pi (unread pi) s.holds)) s
Reach-Fifo (read {given} {taken} {pi} mem killed addr n {mem'} {run} r e) =
    let s = Reach-Fifo r in
    ReadEnds-Sound given taken pi mem killed addr n (mem', run)
      (rw (← e) (pipe_read_lem mem killed addr n pi (unread pi) s.holds)) s
Reach-Fifo (wait_read m r) =
    let s = Reach-Fifo r in record { holds = ground arith; order = s.order }
Reach-Fifo (wait_write m r) =
    let s = Reach-Fifo r in record { holds = ground arith; order = s.order }
Reach-Fifo (close {given} {taken} {pi} writable r) =
    close-Sound given taken pi writable (Reach-Fifo r)
