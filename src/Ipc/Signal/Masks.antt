-- ===== src/Ipc/Signal/Masks.antt =====
-- `do_sigprocmask` and numbers out of range, in src/ipc/signal.c.
use lkc.Base.{
  ℕ, zero, suc, ◌+◌, ◌≡◌, ◌≢◌, refl, ap, ◌∙◌, fun_ext, true, false, ◌||◌, List, [], ◌∷◌, ◌++◌, none,
  arith, ◌==◌, Bool-cases, inl, inr,
}
use lkc.Base.Int.{ℤ, pos, negsuc, dec}
use lkc.Base.Panic.{◌>>=◌}
use lkc.Ipc.Signal.{
  Layout, signal_dfl, do_sigprocmask, handle_loop, keep, handle_pending, signal_handle,
}
use lkc.Ipc.Signal.Sets.{
  Tcb, SigInfo, SigSet, UserMem, valid_signal, sig_ignored, sig_action, sig_dfl, sig_ign, sigkill,
}
use lkc.Ipc.Signal.Delivery.{handle_loop_blocked, handle_loop_default, handle_loop_ignored}
use lkc.Ipc.Signal.Passes.{are_valid, catches_none, after_default}

-- To block a set with SIG_BLOCK and then unblock it with SIG_UNBLOCK leaves blocked exactly the
-- signals of that set: the ones to unblock.
pub do_sigprocmask_unblock :
    (t : Tcb) (set : SigSet) → (do_sigprocmask 1 set (do_sigprocmask 0 set t).0).0.blocked ≡ set
unfolding do_sigprocmask
do_sigprocmask_unblock t set = fun_ext (λ i. ground arith)

stops_at :
    (lay : Layout) (t : Tcb) (mem : UserMem) (waits : ℕ) (before : List SigInfo) (q : SigInfo)
    (after : List SigInfo)
    → are_valid before ≡ true
    → catches_none t.blocked t.action before ≡ true
    → valid_signal q.si_signo ≡ false
    → handle_loop lay t mem waits (before ++ q ∷ after) ≡ none
unfolding handle_loop
stops_at lay t mem waits [] q after v c i = rw (handle_loop, i) refl
stops_at lay t mem waits (x ∷ before) q after v c i =
    let v1 : valid_signal x.si_signo ≡ true = ground arith in
    let v2 : are_valid before ≡ true = ground arith in
    let c2 : catches_none t.blocked t.action before ≡ true = ground arith in
    let rest = before ++ q ∷ after in
    elim (Bool-cases (sig_ignored t x.si_signo)) [
      | inl b ↦
          handle_loop_blocked lay t mem waits x rest v1 b
          ∙ ap (λ o. o >>= keep lay x) (stops_at lay t mem waits before q after v2 c2 i)
      | inr b ↦ elim (Bool-cases ((sig_action t x.si_signo).sa_handler == sig_dfl)) [
        | inl d ↦
            handle_loop_default lay t mem waits x rest v1 b d
            ∙ stops_at lay
                (after_default t (t.killed || x.si_signo == sigkill) (dec t.sig_pending_cnt)) mem
                (waits + (signal_dfl t x.si_signo).1) before q after v2 c2 i
        | inr d ↦
            let g : ((sig_action t x.si_signo).sa_handler == sig_ign) ≡ true = ground arith in
            handle_loop_ignored lay t mem waits x rest v1 b d g
            ∙ ap (λ o. o >>= keep lay x) (stops_at lay t mem waits before q after v2 c2 i)
      ]
    ]

panics :
    (lay : Layout) (t : Tcb) (mem : UserMem) (cnt : ℤ)
    → cnt ≢ pos 0
    → handle_loop lay t mem 0 t.pending.list ≡ none
    → handle_pending lay t mem cnt ≡ none
unfolding handle_pending
panics lay t mem (pos zero) ne e = absurd (ne refl)
panics lay t mem (pos (suc n)) ne e = rw (e) refl
panics lay t mem (negsuc n) ne e = rw (e) refl

-- A pending signal whose number is not between 1 and 64 makes `signal_handle` panic, where the
-- count of pending signals is not 0, the signals before it have valid numbers and none of them is
-- caught.
pub signal_handle_panics :
    (lay : Layout) (t : Tcb) (mem : UserMem) (before : List SigInfo) (q : SigInfo)
    (after : List SigInfo)
    → t.pending.list ≡ before ++ q ∷ after
    → t.sig_pending_cnt ≢ pos 0
    → are_valid before ≡ true
    → catches_none t.blocked t.action before ≡ true
    → valid_signal q.si_signo ≡ false
    → signal_handle lay t mem ≡ none
unfolding signal_handle
signal_handle_panics lay t mem before q after l ne v c i =
    panics lay t mem t.sig_pending_cnt ne
      (ap (handle_loop lay t mem 0) l ∙ stops_at lay t mem 0 before q after v c i)
