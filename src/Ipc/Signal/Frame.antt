-- ===== src/Ipc/Signal/Frame.antt =====
-- The frame that a delivery leaves on the user's stack, and the return from the handler by
-- `signal_frame_restore` of src/ipc/signal.c.
use lkc.Base.{
  ℕ, ◌≡◌, refl, sym, true, ◌==◌, if◌then◌else◌, update, update_self, Bool-cases, inl, inr,
}
use lkc.Base.Int.{pos}
use mathlib.Core.Path.{subst}
use lkc.Ipc.Signal.{
  Layout, get_sigframe, uc_at, signal_frame_setup, setup_rt_frame, do_handle, signal_frame_restore,
}
use lkc.Ipc.Signal.Sets.{Tcb, SigAction, SigSet, UserMem, UContext, TrapFrame}

-- What the handler may write into the frame: the register that `uc_riscv` starts with
abbrev pub with_pc : UserMem → ℕ → ℕ → UserMem
with_pc mem frame pc = record mem { riscv = update mem.riscv frame pc }

abbrev pub resumed : TrapFrame → ℕ → TrapFrame
resumed tf pc = if pc == 0 then tf else record tf { epc = pc }

module _ (lay : Layout) where
  signal_frame_restore_lem :
      (u : Tcb) (frame pc : ℕ) (mem : UserMem) (x : UContext)
      → mem.mapped (uc_at lay frame) ≡ true
      → mem.mapped frame ≡ true
      → mem.uc (uc_at lay frame) ≡ x
      → mem.riscv frame ≡ pc
      → signal_frame_restore lay u frame mem ≡ (
        record u { blocked = x.uc_sigmask; trapframe = resumed x.tf pc; sig_ing = x.sig_ing },
        pos 0,
      )
  unfolding signal_frame_restore
  signal_frame_restore_lem u frame pc mem x a b c d =
      rw (signal_frame_restore, a, b, c, d)
        (elim (Bool-cases (pc == 0)) [ inl e ↦ rw (e) refl | inr e ↦ rw (e) refl ])

  abbrev framed : SigSet → TrapFrame → ℕ → ℕ → UserMem → UserMem
  framed set tf frame signo mem = record mem {
    uc = update mem.uc (uc_at lay frame) (record { tf = tf; uc_sigmask = set; sig_ing = signo });
    riscv = update mem.riscv frame 0;
  }

  signal_frame_setup_lem :
      (set : SigSet) (tf : TrapFrame) (frame signo : ℕ) (mem : UserMem)
      → mem.mapped (uc_at lay frame) ≡ true
      → mem.mapped frame ≡ true
      → signal_frame_setup lay set tf frame signo mem ≡ (framed set tf frame signo mem, pos 0)
  unfolding signal_frame_setup
  signal_frame_setup_lem set tf frame signo mem a b = rw (signal_frame_setup, a, b) refl

  -- Where the two structs of the frame lie in mapped memory, the delivery of a signal by
  -- `do_handle`, followed by a return from the handler with the stack pointer of the delivery, in
  -- any state of the thread and with any word written to the first register of the frame, gives
  -- back the mask and all registers; only the program counter is the written word, unless that is
  -- 0.
  pub signal_frame_restore-do_handle :
      (t u : Tcb) (signo : ℕ) (act : SigAction) (mem : UserMem) (pc : ℕ)
      → mem.mapped (uc_at lay (get_sigframe lay t.trapframe)) ≡ true
      → mem.mapped (get_sigframe lay t.trapframe) ≡ true
      → u.trapframe.sp ≡ (do_handle lay t signo act mem).0.trapframe.sp
      → signal_frame_restore lay u u.trapframe.sp
          (with_pc (do_handle lay t signo act mem).1 u.trapframe.sp pc)
        ≡ (
          record u { blocked = t.blocked; trapframe = resumed t.trapframe pc; sig_ing = signo },
          pos 0,
        )
  unfolding do_handle setup_rt_frame
  signal_frame_restore-do_handle t u signo act mem pc a b e =
      let frame = get_sigframe lay t.trapframe in
      let back : TrapFrame = resumed t.trapframe pc in
      let res : Tcb = record u { blocked = t.blocked; trapframe = back; sig_ing = signo } in
      subst
        (λ s.
          signal_frame_restore lay u s (with_pc (do_handle lay t signo act mem).1 s pc)
          ≡ (res, pos 0))
        (sym e)
        (rw (signal_frame_setup_lem t.blocked t.trapframe frame signo mem a b) (
          signal_frame_restore_lem u frame pc
            (with_pc (framed t.blocked t.trapframe frame signo mem) frame pc)
            (record { tf = t.trapframe; uc_sigmask = t.blocked; sig_ing = signo }) a b
            (update_self mem.uc _ _ _ refl)
            (update_self (update mem.riscv frame 0) frame frame pc refl)))
