-- ===== src/Ipc/Signal/Sets.antt =====
-- Signal numbers, the sets of signals and the structs of include/ipc/signal.h.
use lkc.Base.{
  ℕ, zero, suc, ◌+◌, ◌-◌, ◌%◌, Bool, true, false, not, ◌&&◌, ◌||◌, List, leb, ◌==◌, update,
}
use lkc.Base.Int.{ℤ}

abbrev pub sigterm : ℕ
sigterm = 15

abbrev pub sigstop : ℕ
sigstop = 17

abbrev pub sigkill : ℕ
sigkill = 9

abbrev pub sigchld : ℕ
sigchld = 20

abbrev pub sig_dfl : ℕ
sig_dfl = 0

abbrev pub sig_ign : ℕ
sig_ign = 1

abbrev pub SigSet : Type 0
SigSet = ℕ → Bool

pub record SigInfo : Type 0 where
  pub si_signo : ℕ
  pub si_code : ℕ

pub record SigAction : Type 0 where
  pub sa_handler : ℕ
  pub sa_flags : ℕ
  pub sa_mask : SigSet

pub record SigPending : Type 0 where
  pub list : List SigInfo
  pub signal : SigSet

-- The registers that the delivery writes, and all others by their place
pub record TrapFrame : Type 0 where
  pub epc : ℕ
  pub ra : ℕ
  pub sp : ℕ
  pub a0 : ℕ
  pub a1 : ℕ
  pub a2 : ℕ
  pub others : ℕ → ℕ

-- The fields of `struct tcb` that are about signals; `action` is `sig->action`.
pub record Tcb : Type 0 where
  pub killed : Bool
  pub sig_pending_cnt : ℤ
  pub action : ℕ → SigAction
  pub blocked : SigSet
  pub pending : SigPending
  pub sig_ing : ℕ
  pub trapframe : TrapFrame

pub record UContext : Type 0 where
  pub tf : TrapFrame
  pub uc_sigmask : SigSet
  pub sig_ing : ℕ

-- `riscv` is the first register of the `ucontext_t` at an address.
pub record UserMem : Type 0 where
  pub mapped : ℕ → Bool
  pub uc : ℕ → UContext
  pub riscv : ℕ → ℕ

abbrev pub valid_signal : ℕ → Bool
valid_signal sig = leb sig 64 && leb 1 sig

-- The place of a signal's bit; the shift of the machine takes its amount modulo 64
abbrev pub bit_of : ℕ → ℕ
bit_of sig = (sig + 63) % 64

abbrev pub sig_empty_set : SigSet
sig_empty_set = λ i. false

abbrev pub sig_add_set : SigSet → ℕ → SigSet
sig_add_set set sig = update set (bit_of sig) true

abbrev pub sig_del_set_mask : SigSet → SigSet → SigSet
sig_del_set_mask set mask = λ i. set i && not (mask i)

abbrev pub sig_is_member : SigSet → ℕ → Bool
sig_is_member set sig = set (bit_of sig)

abbrev pub sig_gen_mask : ℕ → SigSet
sig_gen_mask sig = λ i. bit_of sig == i

abbrev pub sig_or : SigSet → SigSet → SigSet
sig_or x y = λ i. x i || y i

abbrev pub sig_and : SigSet → SigSet → SigSet
sig_and x y = λ i. x i && y i

-- Whether one of the lowest `n` bits is set
unfoldable pub any_bit : ℕ → SigSet → Bool
any_bit zero set = false
any_bit (suc n) set = set n || any_bit n set

abbrev pub sig_test_mask : SigSet → SigSet → Bool
sig_test_mask set mask = any_bit 64 (sig_and set mask)

abbrev pub sig_ignored : Tcb → ℕ → Bool
sig_ignored t sig = sig_is_member t.blocked sig

abbrev pub sig_existed : Tcb → ℕ → Bool
sig_existed t sig = sig_is_member t.pending.signal sig

abbrev pub sig_action : Tcb → ℕ → SigAction
sig_action t signo = t.action (signo - 1)
