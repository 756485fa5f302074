-- ===== src/Ipc/Signal/Tests.antt =====
-- Signals at concrete values.
use lkc.Base.{
  ℕ, ◌≡◌, refl, Bool, true, false, List, [], ◌∷◌, Option, none, some, arith, ◌==◌, if◌then◌else◌,
}
use lkc.Base.Int.{pos}
use lkc.Base.Panic.{◌>>=◌}
use lkc.Ipc.Signal.{
  Layout, Handled, get_sigframe, do_handle, signal_frame_restore, signal_send, sigpending_init,
  signal_handle, handle_loop, handle_pending, with_queue, do_sigprocmask, setup_rt_frame,
  signal_dfl,
}
use lkc.Ipc.Signal.Sets.{Tcb, SigInfo, SigAction, UserMem, TrapFrame, sig_empty_set}
use lkc.Ipc.Signal.Frame.{with_pc, signal_frame_restore-do_handle}
use lkc.Ipc.Signal.Delivery.{signal_handle_lem}
use lkc.Ipc.Signal.Passes.{Passed}
use lkc.Ipc.Signal.Pending.{Reach, Reach-PendingSound}
use lkc.Ipc.Signal.Sending.{PendingSound}
use lkc.Ipc.Signal.Masks.{do_sigprocmask_unblock, signal_handle_panics}

abbrev layout : Layout
layout = record { sigreturn = 4096; framesize = 1024; riscv_size = 512 }

abbrev frame : TrapFrame
frame = record { epc = 100; ra = 7; sp = 65536; a0 = 1; a1 = 2; a2 = 3; others = λ i. i }

-- Signal 10 has a handler at 500, signal 12 is ignored, all others have the default.
abbrev actions : ℕ → SigAction
actions i = record {
  sa_handler = if i == 9 then 500 else if i == 11 then 1 else 0;
  sa_flags = 0;
  sa_mask = sig_empty_set;
}

abbrev fresh : Tcb
fresh = record {
  killed = false;
  sig_pending_cnt = pos 0;
  action = actions;
  blocked = sig_empty_set;
  pending = record { list = []; signal = sig_empty_set };
  sig_ing = 0;
  trapframe = frame;
}

abbrev user : UserMem
user = record {
  mapped = λ a. true;
  uc = λ a. record { tf = frame; uc_sigmask = sig_empty_set; sig_ing = 0 };
  riscv = λ a. 0;
}

abbrev info : ℕ → SigInfo
info sig = record { si_signo = sig; si_code = 0 }

-- SIGKILL, an ignored signal, a caught one and another one that waits behind it
abbrev busy : Tcb
busy = record fresh {
  sig_pending_cnt = pos 4;
  pending = record { list = info 9 ∷ info 12 ∷ info 10 ∷ info 2 ∷ []; signal = λ i. true };
}

-- The rest of the list, whether the thread is killed, and where it continues
abbrev summary : Tcb × UserMem × ℕ × ℕ → Option (List SigInfo × Bool × ℕ)
summary r = some (r.0.pending.list, r.0.killed, r.0.trapframe.epc)

signal_handle-busy :
    (signal_handle layout busy user >>= summary) ≡ some (info 12 ∷ info 2 ∷ [], true, 500)
unfolding signal_handle handle_pending handle_loop do_handle setup_rt_frame signal_dfl
signal_handle-busy = refl

signal_frame_restore-do_handle_example :
    signal_frame_restore layout
      (record fresh { trapframe = (do_handle layout fresh 10 (actions 9) user).0.trapframe })
      (get_sigframe layout frame)
      (with_pc (do_handle layout fresh 10 (actions 9) user).1 (get_sigframe layout frame) 200)
    ≡ (record fresh { trapframe = record frame { epc = 200 }; sig_ing = 10 }, pos 0)
unfolding do_handle setup_rt_frame
signal_frame_restore-do_handle_example =
    signal_frame_restore-do_handle layout fresh
      (record fresh { trapframe = (do_handle layout fresh 10 (actions 9) user).0.trapframe }) 10
      (actions 9) user 200 refl refl refl

signal_handle_lem_example :
    (r : Handled layout) × (signal_handle layout busy user
      ≡ some (with_queue layout r, r.mem, r.waits, 1))
    × Passed layout busy user busy.pending.list r
signal_handle_lem_example = signal_handle_lem layout busy user refl (λ e. ground arith)

abbrev sent : Tcb
sent = (signal_send true (info 10) fresh).0

sent-Reach : Reach layout (10 ∷ []) sent
unfolding sigpending_init signal_send
sent-Reach = Reach.send true (info 10) (Reach.init fresh refl refl) refl

Reach-PendingSound_example : PendingSound (10 ∷ []) sent
Reach-PendingSound_example = Reach-PendingSound sent-Reach

do_sigprocmask_unblock_example :
    (do_sigprocmask 1 (λ i. i == 3) (do_sigprocmask 0 (λ i. i == 3) fresh).0).0.blocked
    ≡ (λ i. i == 3)
do_sigprocmask_unblock_example = do_sigprocmask_unblock fresh (λ i. i == 3)

abbrev spoiled : Tcb
spoiled = record fresh {
  sig_pending_cnt = pos 2;
  pending = record { list = info 2 ∷ info 65 ∷ []; signal = sig_empty_set };
}

signal_handle_panics_example : signal_handle layout spoiled user ≡ none
signal_handle_panics_example =
    signal_handle_panics layout spoiled user (info 2 ∷ []) (info 65) [] refl (λ e. ground arith)
      refl refl refl
