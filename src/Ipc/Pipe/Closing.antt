-- ===== src/Ipc/Pipe/Closing.antt =====
-- What calls on a pipe of src/ipc/pipe.c do, from then on, when its other end is closed.
use lkc.Base.{
  ℕ, zero, suc, ◌-◌, ◌≡◌, refl, ap, ◌∙◌, inl, inr, Bool, true, false, not, ◌||◌, List, ltb,
  if◌then◌else◌, arith,
}
use lkc.Base.Int.{ℤ, pos, negsuc, pos_part}
use lkc.Atomic.Semaphore.{Sem}
use lkc.Ipc.Pipe.{
  Pipe, Memory, Run, returned, write_loop, pipe_write, pipe_read, pipe_close, signal_read,
  signal_write,
}
use lkc.Ipc.Pipe.Segments.{Holds}
use lkc.Ipc.Pipe.Writing.{pipe_write_lem}
use lkc.Ipc.Pipe.Reading.{Copied, pipe_read_lem, ReadEnds}
use lkc.Ipc.Pipe.Fifo.{
  Reach, write, read, wait_read, wait_write, close, Reach-Fifo, unread, after_close,
}

-- The states of a pipe that runs, waits and closes lead to from the one of the parameter
pub data Later (pi : Pipe) : Pipe → Type 0 where
  now : Later pi pi
  then_write :
      {p : Pipe} (mem : Memory) (killed : ℕ → Bool) (addr : ℕ) (n : ℤ) (i : ℕ)
      → Later pi p
      → Later pi (pipe_write mem killed addr n i p).pipe
  then_read :
      {p : Pipe} (mem : Memory) (killed : Bool) (addr : ℕ) (n : ℤ)
      → Later pi p
      → Later pi (pipe_read mem killed addr n p).1.pipe
  then_wait_read : {p : Pipe} (m : Sem) → Later pi p → Later pi (record p { read_sem = m })
  then_wait_write : {p : Pipe} (m : Sem) → Later pi p → Later pi (record p { write_sem = m })
  then_close : {p : Pipe} (writable : Bool) → Later pi p → Later pi (after_close p writable)

-- A state after any calls
abbrev Reached : Pipe → Type 0
Reached p = (given : List ℕ) × (taken : List ℕ) × Reach given taken p

Later-Reached : {pi p : Pipe} → Reached pi → Later pi p → Reached p
Later-Reached r now = r
Later-Reached r (then_write mem killed addr n i l) =
    let (g, t, s) = Later-Reached r l in (_, _, write mem killed addr n i s refl)
Later-Reached r (then_read mem killed addr n l) =
    let (g, t, s) = Later-Reached r l in (_, _, read mem killed addr n s refl)
Later-Reached r (then_wait_read m l) = let (g, t, s) = Later-Reached r l in (_, _, wait_read m s)
Later-Reached r (then_wait_write m l) = let (g, t, s) = Later-Reached r l in (_, _, wait_write m s)
Later-Reached r (then_close writable l) =
    let (g, t, s) = Later-Reached r l in (_, _, close writable s)

Reached-Holds : {p : Pipe} → Reached p → Holds p (unread p)
Reached-Holds (g, t, r) = (Reach-Fifo r).holds

-- The end that `pipe_close` closes for this argument is closed.
abbrev Shut : Bool → Pipe → Type 0
Shut true p = p.writeopen ≡ false
Shut false p = p.readopen ≡ false

same-Shut :
    (writable : Bool) (p q : Pipe)
    → q.readopen ≡ p.readopen
    → q.writeopen ≡ p.writeopen
    → Shut writable p
    → Shut writable q
same-Shut true p q e f s = f ∙ s
same-Shut false p q e f s = e ∙ s

ReadEnds-Shut :
    (writable : Bool) (mem : Memory) (killed : Bool) (addr : ℕ) (n : ℤ) (p : Pipe) (c : ℕ)
    (res : Memory × Run)
    → ReadEnds mem killed addr n p c res
    → Shut writable p
    → Shut writable res.1.pipe
ReadEnds-Shut writable mem killed addr n p c res (inl (z, o, f)) s =
    same-Shut writable p res.1.pipe (ap (λ r. r.1.pipe.readopen) f) (ap (λ r. r.1.pipe.writeopen) f)
      s
ReadEnds-Shut writable mem killed addr n p c res (inr (o, w)) s =
    same-Shut writable p res.1.pipe w.kept.1 w.kept.2 s

close-Shut :
    (writable again : Bool) (p : Pipe) → Shut writable p → Shut writable (after_close p again)
unfolding pipe_close signal_read signal_write
close-Shut true true p s = refl
close-Shut true false p s = s
close-Shut false true p s = s
close-Shut false false p s = refl

closed-Shut : (writable : Bool) (p : Pipe) → Shut writable (after_close p writable)
unfolding pipe_close signal_read signal_write
closed-Shut true p = refl
closed-Shut false p = refl

Later-Shut :
    (writable : Bool) {pi p : Pipe} → Reached pi → Later pi p → Shut writable pi → Shut writable p
Later-Shut writable r now s = s
Later-Shut writable r (then_write {p} mem killed addr n i l) s =
    let w = pipe_write_lem mem killed addr n i p (unread p) (Reached-Holds (Later-Reached r l)) in
    same-Shut writable p _ w.kept.1 w.kept.2 (Later-Shut writable r l s)
Later-Shut writable r (then_read {p} mem killed addr n l) s =
    ReadEnds-Shut writable mem killed addr n p (unread p) _
      (pipe_read_lem mem killed addr n p (unread p) (Reached-Holds (Later-Reached r l)))
      (Later-Shut writable r l s)
Later-Shut writable r (then_wait_read {p} m l) s =
    same-Shut writable p _ refl refl (Later-Shut writable r l s)
Later-Shut writable r (then_wait_write {p} m l) s =
    same-Shut writable p _ refl refl (Later-Shut writable r l s)
Later-Shut writable r (then_close {p} again l) s =
    close-Shut writable again p (Later-Shut writable r l s)

write_unread :
    (mem : Memory) (killed : ℕ → Bool) (addr i k : ℕ) (p : Pipe)
    → p.readopen ≡ false
    → ((write_loop mem killed addr i k p).outcome
        ≡ (if ltb 0 k then returned (negsuc 0) else returned (pos i)))
      × ((write_loop mem killed addr i k p).pipe.nwrite ≡ p.nwrite)
unfolding write_loop signal_read
write_unread mem killed addr i zero p e = (refl, refl)
write_unread mem killed addr i (suc k) p e =
    let f : (not p.readopen || killed i) ≡ true = ground arith in
    rw (write_loop, f) (ground arith, refl)

-- The calls on the other end: no run of them waits.
abbrev pub Unblocked : Bool → Pipe → Type 0
Unblocked true p =
    (mem : Memory) (killed : Bool) (addr : ℕ) (n : ℤ)
    → Copied mem addr 0 (pos_part n) p (unread p) (pipe_read mem killed addr n p)
Unblocked false p =
    (mem : Memory) (killed : ℕ → Bool) (addr : ℕ) (n : ℤ) (i : ℕ)
    → ((pipe_write mem killed addr n i p).outcome
        ≡ (if ltb i (pos_part n) then returned (negsuc 0) else returned (pos i)))
      × ((pipe_write mem killed addr n i p).pipe.nwrite ≡ p.nwrite)

read_shut :
    (mem : Memory) (killed : Bool) (addr : ℕ) (n : ℤ) (p : Pipe) (c : ℕ) (res : Memory × Run)
    → p.writeopen ≡ false
    → ReadEnds mem killed addr n p c res
    → Copied mem addr 0 (pos_part n) p c res
read_shut mem killed addr n p c res e (inl (z, o, f)) = absurd (ground arith)
read_shut mem killed addr n p c res e (inr (o, w)) = w

Shut-Unblocked :
    (writable : Bool) (p : Pipe) → Holds p (unread p) → Shut writable p → Unblocked writable p
unfolding pipe_write
Shut-Unblocked true p h s = λ mem killed addr n.
    read_shut mem killed addr n p (unread p) _ s (pipe_read_lem mem killed addr n p (unread p) h)
Shut-Unblocked false p h s = λ mem killed addr n i.
    let w = write_unread mem killed addr i (pos_part n - i) p s in
    let e : ltb 0 (pos_part n - i) ≡ ltb i (pos_part n) = ground arith in (w.0 ∙ rw (e) refl, w.1)

-- After any calls on a pipe and a close of one end, in every state that further runs, waits and
-- closes lead to, no run on the other end waits: a run of `pipe_write` after a close of the read
-- end returns -1 if bytes are to go, and else their count, and takes no byte; a run of `pipe_read`
-- after a close of the write end returns with the oldest unread bytes, in order, up to the request,
-- the last unread byte or an unmapped address.
pub pipe_close_lem :
    {given taken : List ℕ} {pi p : Pipe} (writable : Bool)
    → Reach given taken pi
    → Later (after_close pi writable) p
    → Unblocked writable p
pipe_close_lem {given} {taken} {pi} {p} writable r l =
    let closed : Reached (after_close pi writable) = (given, taken, close writable r) in
    Shut-Unblocked writable p (Reached-Holds (Later-Reached closed l))
      (Later-Shut writable closed l (closed-Shut writable pi))
