-- ===== src/Ipc/Signal/Pending.antt =====
-- The pending signals of a thread over its whole life: src/ipc/signal.c under any sequence of calls.
use mathlib.Core.Path.{subst}
use native.Mathlib.Decide.{ℕ_discrete}
use lkc.Base.{
  ℕ, ◌≡◌, refl, sym, ap, ◌∙◌, Bool, true, List, [], length, Option, none, some, arith, Bool-cases,
  inl, inr,
}
use lkc.Base.Int.{pos, pos_part}
use lkc.Ipc.Signal.{
  Layout, sigpending_init, signal_send, signal_handle, handle_pending, do_sigaction, do_sigprocmask,
  signal_frame_restore, with_queue,
}
use lkc.Ipc.Signal.Sets.{Tcb, SigInfo, SigAction, SigSet, UserMem, valid_signal}
use lkc.Ipc.Signal.Delivery.{signal_handle_lem}
use lkc.Ipc.Signal.Sending.{
  accepted, Kept-PendingSound, PendingSound, same-PendingSound, signal_send-PendingSound,
}

-- The states of a thread from `alloc_thread` on, with the signals for which `signal_send` returned 1.
-- The calls are of signals with a valid number, at any memory of the process and of the kernel.
pub data Reach : (lay : Layout) → List ℕ → Tcb → Type 0 where
  init :
      {lay : Layout} (t : Tcb)
      → t.sig_pending_cnt ≡ pos 0
      → t.pending ≡ sigpending_init
      → Reach lay [] t
  send :
      {lay : Layout} {acc : List ℕ} {t : Tcb} (heap : Bool) (info : SigInfo)
      → Reach lay acc t
      → valid_signal info.si_signo ≡ true
      → Reach lay
          (accepted (signal_send heap info t).1 info.si_signo acc)
          (signal_send heap info t).0
  handle :
      {lay : Layout} {acc : List ℕ} {t : Tcb} (mem : UserMem) {t' : Tcb} {mem' : UserMem}
      {waits ret : ℕ}
      → Reach lay acc t
      → signal_handle lay t mem ≡ some (t', mem', waits, ret)
      → Reach lay acc t'
  action :
      {lay : Layout} {acc : List ℕ} {t : Tcb} (sig : ℕ) (act : Option SigAction)
      → Reach lay acc t
      → Reach lay acc (do_sigaction sig act t).0
  mask :
      {lay : Layout} {acc : List ℕ} {t : Tcb} (how : ℕ) (set : SigSet)
      → Reach lay acc t
      → Reach lay acc (do_sigprocmask how set t).0
  restore :
      {lay : Layout} {acc : List ℕ} {t : Tcb} (frame : ℕ) (mem : UserMem)
      → Reach lay acc t
      → Reach lay acc (signal_frame_restore lay t frame mem).0

signal_handle-PendingSound :
    (lay : Layout) (acc : List ℕ) (t : Tcb) (mem : UserMem)
    → PendingSound acc t
    → (r : Tcb × UserMem × ℕ × ℕ) × (signal_handle lay t mem ≡ some r) × PendingSound acc r.0
unfolding signal_handle handle_pending
signal_handle-PendingSound lay acc t mem s = elim (ℕ_discrete (length t.pending.list) 0) [
  | yes z ↦ ((t, mem, 0, 0), ap (handle_pending lay t mem) (s.count ∙ ap pos z), s)
  | no ne ↦
      let (r, e, p) =
        signal_handle_lem lay t mem s.valid (λ z. ne (ap pos_part (sym s.count ∙ z))) in
      ((with_queue lay r, r.mem, r.waits, 1), e, Kept-PendingSound lay acc t r p.0 s)
]

do_sigaction_keeps :
    (sig : ℕ) (act : Option SigAction) (t : Tcb)
    → ((do_sigaction sig act t).0.pending ≡ t.pending)
      × ((do_sigaction sig act t).0.sig_pending_cnt ≡ t.sig_pending_cnt)
unfolding do_sigaction
do_sigaction_keeps sig none t = elim (Bool-cases (valid_signal sig)) [
  | inl e ↦ rw (do_sigaction, e) (refl, refl)
  | inr e ↦ rw (do_sigaction, e) (refl, refl)
]
do_sigaction_keeps sig (some act) t = elim (Bool-cases (valid_signal sig)) [
  | inl e ↦ rw (do_sigaction, e) (refl, refl)
  | inr e ↦ rw (do_sigaction, e) (refl, refl)
]

do_sigprocmask_keeps :
    (how : ℕ) (set : SigSet) (t : Tcb)
    → ((do_sigprocmask how set t).0.pending ≡ t.pending)
      × ((do_sigprocmask how set t).0.sig_pending_cnt ≡ t.sig_pending_cnt)
unfolding do_sigprocmask
do_sigprocmask_keeps how set t = ground arith

restore_keeps :
    (lay : Layout) (t : Tcb) (frame : ℕ) (mem : UserMem)
    → ((signal_frame_restore lay t frame mem).0.pending ≡ t.pending)
      × ((signal_frame_restore lay t frame mem).0.sig_pending_cnt ≡ t.sig_pending_cnt)
unfolding signal_frame_restore
restore_keeps lay t frame mem = ground arith

abbrev Handled-PendingSound : List ℕ → Option (Tcb × UserMem × ℕ × ℕ) → Type 0
Handled-PendingSound acc none = Unit
Handled-PendingSound acc (some r) = PendingSound acc r.0

-- In every state that calls of `signal_send` with valid numbers, `signal_handle`, `do_sigaction`,
-- `do_sigprocmask` and `signal_frame_restore` lead to from a new thread, `sig_pending_cnt` is the
-- length of the pending list, which holds only signals that `signal_send` accepted, each at most
-- once; the set of pending signals is the set of all signals that were ever accepted; and no signal
-- is ever accepted twice, delivered or not.
pub Reach-PendingSound :
    {lay : Layout} {acc : List ℕ} {t : Tcb} → Reach lay acc t → PendingSound acc t
unfolding sigpending_init
Reach-PendingSound (init t c p) = record {
  valid = rw (p) refl;
  count = rw (p, c) refl;
  distinct = rw (p) tt;
  listed = λ s h. rw (p) refl;
  members = λ s v. rw (p) refl;
  once = tt;
}
Reach-PendingSound (send {lay} {acc} {t} heap info r v) =
    signal_send-PendingSound acc t heap info (Reach-PendingSound r) v
Reach-PendingSound (handle {lay} {acc} {t} mem {t'} {mem'} {waits} {ret} r e) =
    let (x, f, s) = signal_handle-PendingSound lay acc t mem (Reach-PendingSound r) in
    subst (λ (o : Option (Tcb × UserMem × ℕ × ℕ)). Handled-PendingSound acc o) (sym f ∙ e) s
Reach-PendingSound (action {lay} {acc} {t} sig act r) =
    let (p, c) = do_sigaction_keeps sig act t in
    same-PendingSound acc t _ p c (Reach-PendingSound r)
Reach-PendingSound (mask {lay} {acc} {t} how set r) =
    let (p, c) = do_sigprocmask_keeps how set t in
    same-PendingSound acc t _ p c (Reach-PendingSound r)
Reach-PendingSound (restore {lay} {acc} {t} frame mem r) =
    let (p, c) = restore_keeps lay t frame mem in
    same-PendingSound acc t _ p c (Reach-PendingSound r)
