-- ===== src/Ipc/Signal.antt =====
-- Signals: src/ipc/signal.c and include/ipc/signal.h.
--
-- A signal set is a function from the 64 bits of its word. The pending list of a thread is a list of the
-- infos of its `struct sigqueue`. What `kalloc` answers is a parameter. The memory of a process is seen
-- by the structs that are copied to it and from it, at their addresses.
pub mod Frame
pub mod Passes
pub mod Delivery
pub mod Pending
pub mod Masks
pub mod Sending
pub mod Sets
mod Tests
use lkc.Base.{
  ℕ, zero, suc, ◌+◌, ◌-◌, ◌*◌, ◌%◌, ◌^◌, Bool, true, false, not, ◌&&◌, ◌||◌, List, [], ◌∷◌, ◌++◌,
  Option, none, some, ltb, leb, ◌==◌, if◌then◌else◌, update,
}
use lkc.Base.Int.{ℤ, pos, negsuc, inc, dec}
use lkc.Base.Panic.{◌>>=◌}
use lkc.Ipc.Signal.Sets.{
  SigAction, SigInfo, SigPending, SigSet, Tcb, TrapFrame, UContext, UserMem, bit_of, sig_action,
  sig_add_set, sig_and, sig_del_set_mask, sig_dfl, sig_empty_set, sig_existed, sig_gen_mask,
  sig_ign, sig_ignored, sig_or, sig_test_mask, sigchld, sigkill, sigstop, sigterm, valid_signal,
}

-- The loop of `signal_queue_pop`
unfoldable pub pop_loop : SigSet → List SigInfo → List SigInfo
pop_loop mask [] = []
pop_loop mask (q ∷ qs) =
    if valid_signal q.si_signo && mask (bit_of q.si_signo)
    then pop_loop mask qs
    else q ∷ pop_loop mask qs

unfoldable pub signal_queue_pop : SigSet → SigPending → SigPending × ℕ
signal_queue_pop mask pending = elim (sig_test_mask pending.signal mask) [
  | false ↦ (pending, 0)
  | true ↦ (
    record { list = pop_loop mask pending.list; signal = sig_del_set_mask pending.signal mask },
    1,
  )
]

unfoldable pub signal_queue_flush : SigPending → SigPending × ℕ
signal_queue_flush pending = (record { list = []; signal = sig_empty_set }, 1)

-- `opt` 0 is a user, 1 the kernel; anything else panics.
unfoldable pub signal_info_init : ℕ → ℕ → Option SigInfo
signal_info_init sig opt =
    if opt == 0
    then some (record { si_signo = sig; si_code = 0 })
    else if opt == 1
    then some (record { si_signo = sig; si_code = 128 })
    else none

abbrev pub kills : ℕ → Bool
kills sig = sig == sigkill || sig == sigstop || sig == sigterm

abbrev pub enqueue : SigInfo → Tcb → Tcb
enqueue info t = record t {
  sig_pending_cnt = inc t.sig_pending_cnt;
  pending = record {
    list = t.pending.list ++ info ∷ [];
    signal = sig_add_set t.pending.signal info.si_signo;
  };
}

abbrev pub kill_now : ℕ → Tcb → Tcb
kill_now sig t = if kills sig then record t { killed = true } else t

-- `signal_send`; `heap` is whether `kalloc` finds memory
unfoldable pub signal_send : Bool → SigInfo → Tcb → Tcb × ℕ
signal_send heap info t = elim (sig_existed t info.si_signo) [
  | true ↦ (t, 0)
  | false ↦ elim heap [
    | false ↦ (kill_now info.si_signo t, 0)
    | true ↦ (enqueue info (kill_now info.si_signo t), 1)
  ]
]

unfoldable pub sigpending_init : SigPending
sigpending_init = record { list = []; signal = sig_empty_set }

-- `signal_DFL`, with the number of calls of `waitpid`
unfoldable pub signal_dfl : Tcb → ℕ → Tcb × ℕ
signal_dfl t signo =
    if signo == sigkill
    then (record t { killed = true }, 0)
    else if signo == sigchld
    then (t, 1)
    else (t, 0)

-- With what it stores in `oldset`; `how` 0 blocks, 1 unblocks and 2 sets the mask.
unfoldable pub do_sigprocmask : ℕ → SigSet → Tcb → Tcb × SigSet × ℤ
do_sigprocmask how set t =
    if how == 0
    then (record t { blocked = sig_or t.blocked set }, t.blocked, pos 0)
    else if how == 1
    then (record t { blocked = sig_and t.blocked set }, t.blocked, pos 0)
    else if how == 2
    then (record t { blocked = set }, t.blocked, pos 0)
    else (t, t.blocked, negsuc 0)

-- `&= (~mask)` with the argument `sig_gen_mask(SIGKILL) | sig_gen_mask(SIGSTOP)` put in: the
-- complement binds to the first mask only
abbrev pub act_mask : SigSet → SigSet
act_mask set = λ i. set i && (not (sig_gen_mask sigkill i) || sig_gen_mask sigstop i)

abbrev pub with_mask : SigAction → SigAction
with_mask act = record act { sa_mask = act_mask act.sa_mask }

-- `do_sigaction`, with what it stores in `oact`
unfoldable pub do_sigaction : ℕ → Option SigAction → Tcb → Tcb × Option SigAction × ℤ
do_sigaction sig act t = elim (valid_signal sig) [
  | false ↦ (t, none, negsuc 0)
  | true ↦ elim act [
    | none ↦ (t, some (t.action (sig - 1)), pos 0)
    | some new ↦ (
      record t { action = update t.action (sig - 1) (with_mask new) },
      some (t.action (sig - 1)),
      pos 0,
    )
  ]
]

-- The address of a SIGRETURN stub, the sizes of `struct rt_sigframe` and of the `ucontext_t` before
-- the `struct ucontext` in it
pub record Layout : Type 0 where
  pub sigreturn : ℕ
  pub framesize : ℕ
  pub riscv_size : ℕ

module _ (lay : Layout) where
  abbrev pub get_sigframe : TrapFrame → ℕ
  get_sigframe tf = let sp = (tf.sp + 2 ^ 64 - lay.framesize % 2 ^ 64) % 2 ^ 64 in sp - sp % 16

  -- `&rtf->uc`
  abbrev pub uc_at : ℕ → ℕ
  uc_at frame = (frame + lay.riscv_size) % 2 ^ 64

  unfoldable pub signal_frame_setup : SigSet → TrapFrame → ℕ → ℕ → UserMem → UserMem × ℤ
  signal_frame_setup set tf frame signo mem = elim (mem.mapped (uc_at frame)) [
    | false ↦ (mem, negsuc 0)
    | true ↦
        let uc : UContext = record { tf = tf; uc_sigmask = set; sig_ing = signo } in
        let mem' : UserMem = record mem { uc = update mem.uc (uc_at frame) uc } in
        if mem'.mapped frame
        then (record mem' { riscv = update mem'.riscv frame 0 }, pos 0)
        else (mem', negsuc 0)
  ]

  -- The result of `signal_frame_setup` is not looked at.
  unfoldable pub setup_rt_frame : SigAction → ℕ → SigSet → TrapFrame → UserMem → TrapFrame × UserMem
  setup_rt_frame act signo set tf mem =
      let frame = get_sigframe tf in
      let (mem', ret) = signal_frame_setup set tf frame signo mem in
      (
        record tf {
          ra = lay.sigreturn;
          epc = act.sa_handler;
          sp = frame;
          a0 = signo;
          a1 = 0;
          a2 = frame;
        },
        mem',
      )

  unfoldable pub do_handle : Tcb → ℕ → SigAction → UserMem → Tcb × UserMem
  do_handle t signo act mem =
      let (tf, mem') = setup_rt_frame act signo t.blocked t.trapframe mem in
      (record t { trapframe = tf }, mem')

  unfoldable pub signal_frame_restore : Tcb → ℕ → UserMem → Tcb × ℤ
  signal_frame_restore t frame mem = elim (mem.mapped (uc_at frame)) [
    | false ↦ (t, negsuc 0)
    | true ↦
        let uc = mem.uc (uc_at frame) in
        let t' : Tcb = record t {
          blocked = uc.uc_sigmask;
          trapframe = uc.tf;
          sig_ing = uc.sig_ing;
        } in
        if mem.mapped frame
        then (if mem.riscv frame == 0
            then (t', pos 0)
            else (record t' { trapframe = record t'.trapframe { epc = mem.riscv frame } }, pos 0))
        else (t', negsuc 0)
  ]

  -- What the loop of `signal_handle` leaves: the thread, its pending list, the memory and the number
  -- of calls of `waitpid`
  pub record Handled : Type 0 where
    pub thread : Tcb
    pub queue : List SigInfo
    pub mem : UserMem
    pub waits : ℕ

  abbrev pub keep : SigInfo → Handled → Option Handled
  keep q r = some (record r { queue = q ∷ r.queue })

  -- One pass over the pending list; an invalid number panics
  unfoldable pub handle_loop : Tcb → UserMem → ℕ → List SigInfo → Option Handled
  handle_loop t mem waits [] = some (record { thread = t; queue = []; mem = mem; waits = waits })
  handle_loop t mem waits (q ∷ qs) = elim (valid_signal q.si_signo) [
    | false ↦ none
    | true ↦ elim (sig_ignored t q.si_signo) [
      | true ↦ handle_loop t mem waits qs >>= keep q
      | false ↦ elim ((sig_action t q.si_signo).sa_handler == sig_dfl) [
        | true ↦
            let (t', n) = signal_dfl t q.si_signo in
            handle_loop (record t' { sig_pending_cnt = dec t'.sig_pending_cnt }) mem (waits + n) qs
        | false ↦ elim ((sig_action t q.si_signo).sa_handler == sig_ign) [
          | true ↦ handle_loop t mem waits qs >>= keep q
          | false ↦
              let (t', mem') = do_handle t q.si_signo (sig_action t q.si_signo) mem in
              some (record {
                thread = record t' {
                  sig_pending_cnt = dec t'.sig_pending_cnt;
                  sig_ing = q.si_signo;
                };
                queue = qs;
                mem = mem';
                waits = waits;
              })
        ]
      ]
    ]
  ]

  abbrev pub with_queue : Handled → Tcb
  with_queue r = record r.thread { pending = record r.thread.pending { list = r.queue } }

  -- `signal_handle`: the thread, the memory, the calls of `waitpid` and the result
  unfoldable pub handle_pending : Tcb → UserMem → ℤ → Option (Tcb × UserMem × ℕ × ℕ)
  handle_pending t mem (pos zero) = some (t, mem, 0, 0)
  handle_pending t mem cnt =
      handle_loop t mem 0 t.pending.list >>= λ r. some (with_queue r, r.mem, r.waits, 1)

  unfoldable pub signal_handle : Tcb → UserMem → Option (Tcb × UserMem × ℕ × ℕ)
  signal_handle t mem = handle_pending t mem t.sig_pending_cnt
