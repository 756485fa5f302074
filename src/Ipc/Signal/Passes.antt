-- ===== src/Ipc/Signal/Passes.antt =====
-- What one pass of `signal_handle` of src/ipc/signal.c over the pending list does.
use lkc.Base.{
  ℕ, zero, suc, ◌+◌, ◌-◌, ◌≡◌, refl, ap, ◌∙◌, Bool, true, false, not, ◌&&◌, ◌||◌, ◌==◌,
  if◌then◌else◌, List, [], ◌∷◌, ◌++◌, length, elem, IsDistinct, arith, inl, inr, ◌⊎◌,
}
use lkc.Base.Int.{ℤ, pos, negsuc, dec}
use lkc.Ipc.Signal.{Layout, Handled, setup_rt_frame}
use lkc.Ipc.Signal.Sets.{
  Tcb, SigInfo, SigAction, SigSet, UserMem, valid_signal, sig_is_member, sig_action, sig_dfl,
  sig_ign, sigkill,
}

-- The signals that a pass leaves in the list: blocked, or ignored by their action
abbrev pub stays : SigSet → (ℕ → SigAction) → SigInfo → Bool
stays blocked action q =
    sig_is_member blocked q.si_signo || (action (q.si_signo - 1)).sa_handler == sig_ign

-- The signals that run a handler
abbrev pub catches : SigSet → (ℕ → SigAction) → SigInfo → Bool
catches blocked action q =
    not (stays blocked action q) && not ((action (q.si_signo - 1)).sa_handler == sig_dfl)

-- The ones of a list that stay
abbrev pub staying : SigSet → (ℕ → SigAction) → List SigInfo → List SigInfo
staying blocked action [] = []
staying blocked action (q ∷ qs) =
    if stays blocked action q then q ∷ staying blocked action qs else staying blocked action qs

abbrev pub catches_none : SigSet → (ℕ → SigAction) → List SigInfo → Bool
catches_none blocked action [] = true
catches_none blocked action (q ∷ qs) =
    not (catches blocked action q) && catches_none blocked action qs

-- Whether one of them is a SIGKILL that is neither blocked nor ignored
abbrev pub fatal : SigSet → (ℕ → SigAction) → List SigInfo → Bool
fatal blocked action [] = false
fatal blocked action (q ∷ qs) =
    (not (stays blocked action q) && q.si_signo == sigkill) || fatal blocked action qs

abbrev pub are_valid : List SigInfo → Bool
are_valid [] = true
are_valid (q ∷ qs) = valid_signal q.si_signo && are_valid qs

abbrev pub signos : List SigInfo → List ℕ
signos [] = []
signos (q ∷ qs) = q.si_signo ∷ signos qs

-- A pass that runs no handler
pub record Defaulted (lay : Layout) (t : Tcb) (mem : UserMem) (qs : List SigInfo) (r : Handled lay)
    : Type 0 where
  pub none_caught : catches_none t.blocked t.action qs ≡ true
  pub queue : r.queue ≡ staying t.blocked t.action qs
  pub user : r.mem ≡ mem
  pub frame : r.thread.trapframe ≡ t.trapframe
  pub current : r.thread.sig_ing ≡ t.sig_ing
  pub killed : r.thread.killed ≡ (t.killed || fatal t.blocked t.action qs)

-- A pass that runs the handler of `q`
pub record Caught (lay : Layout) (t : Tcb) (mem : UserMem) (qs : List SigInfo) (r : Handled lay)
    : Type 0 where
  pub before : List SigInfo
  pub q : SigInfo
  pub after : List SigInfo
  pub list : qs ≡ before ++ q ∷ after
  pub first : catches_none t.blocked t.action before ≡ true
  pub caught : catches t.blocked t.action q ≡ true
  pub queue : r.queue ≡ staying t.blocked t.action before ++ after
  pub frame :
      (r.thread.trapframe, r.mem)
      ≡ setup_rt_frame lay (sig_action t q.si_signo) q.si_signo t.blocked t.trapframe mem
  pub current : r.thread.sig_ing ≡ q.si_signo
  pub killed : r.thread.killed ≡ (t.killed || fatal t.blocked t.action before)

-- What both leave alone
pub record Kept (lay : Layout) (t : Tcb) (qs : List SigInfo) (r : Handled lay) : Type 0 where
  pub blocked : r.thread.blocked ≡ t.blocked
  pub action : r.thread.action ≡ t.action
  pub pending : r.thread.pending ≡ t.pending
  pub valid : are_valid r.queue ≡ true
  pub fewer : (s : ℕ) → elem s (signos qs) ≡ false → elem s (signos r.queue) ≡ false
  pub distinct : IsDistinct (signos qs) → IsDistinct (signos r.queue)
  pub count :
      (n : ℕ)
      → t.sig_pending_cnt ≡ pos (n + length qs)
      → r.thread.sig_pending_cnt ≡ pos (n + length r.queue)

abbrev pub Passed : (lay : Layout) → Tcb → UserMem → List SigInfo → Handled lay → Type 0
Passed lay t mem qs r = Kept lay t qs r × (Defaulted lay t mem qs r ⊎ Caught lay t mem qs r)

pub or_assoc : (a b c : Bool) → ((a || b) || c) ≡ (a || (b || c))
or_assoc true b c = refl
or_assoc false b c = refl

abbrev pub after_default : Tcb → Bool → ℤ → Tcb
after_default t killed cnt = record t { killed = killed; sig_pending_cnt = cnt }

pub dec_lem : (c : ℤ) (n m : ℕ) → c ≡ pos (n + suc m) → dec c ≡ pos (n + m)
dec_lem (pos zero) n m h = ground arith
dec_lem (pos (suc c)) n m h = ground arith
dec_lem (negsuc c) n m h = ground arith

pub keep-Kept :
    (lay : Layout) (t : Tcb) (q : SigInfo) (qs : List SigInfo) (r : Handled lay)
    → valid_signal q.si_signo ≡ true
    → Kept lay t qs r
    → Kept lay t (q ∷ qs) (record r { queue = q ∷ r.queue })
keep-Kept lay t q qs r v k = record {
  blocked = k.blocked;
  action = k.action;
  pending = k.pending;
  valid = rw (v) k.valid;
  fewer = λ s h. ground (arith, k.fewer s);
  distinct = λ d. (k.fewer q.si_signo d.0, k.distinct d.1);
  count = λ n h. ground (arith, k.count (suc n));
}

pub default-Kept :
    (lay : Layout) (t : Tcb) (killed : Bool) (q : SigInfo) (qs : List SigInfo) (r : Handled lay)
    → Kept lay (after_default t killed (dec t.sig_pending_cnt)) qs r
    → Kept lay t (q ∷ qs) r
default-Kept lay t killed q qs r k = record {
  blocked = k.blocked;
  action = k.action;
  pending = k.pending;
  valid = k.valid;
  fewer = λ s h. ground (arith, k.fewer s);
  distinct = λ d. k.distinct d.1;
  count = λ n h. k.count n (dec_lem t.sig_pending_cnt n (length qs) h);
}

pub keep-Passed :
    (lay : Layout) (t : Tcb) (mem : UserMem) (q : SigInfo) (qs : List SigInfo) (r : Handled lay)
    → stays t.blocked t.action q ≡ true
    → valid_signal q.si_signo ≡ true
    → Passed lay t mem qs r
    → Passed lay t mem (q ∷ qs) (record r { queue = q ∷ r.queue })
keep-Passed lay t mem q qs r s v (k, inl d) = (
  keep-Kept lay t q qs r v k,
  inl (record {
    none_caught = rw (s) d.none_caught;
    queue = rw (s) (ap (λ l. q ∷ l) d.queue);
    user = d.user;
    frame = d.frame;
    current = d.current;
    killed = rw (s) d.killed;
  }),
)
keep-Passed lay t mem q qs r s v (k, inr c) = (
  keep-Kept lay t q qs r v k,
  inr (record {
    before = q ∷ c.before;
    q = c.q;
    after = c.after;
    list = ap (λ l. q ∷ l) c.list;
    first = rw (s) c.first;
    caught = c.caught;
    queue = rw (s) (ap (λ l. q ∷ l) c.queue);
    frame = c.frame;
    current = c.current;
    killed = rw (s) c.killed;
  }),
)

-- Past a signal whose action is the default
pub default-Passed :
    (lay : Layout) (t : Tcb) (killed : Bool) (mem : UserMem) (q : SigInfo) (qs : List SigInfo)
    (r : Handled lay)
    → stays t.blocked t.action q ≡ false
    → ((t.action (q.si_signo - 1)).sa_handler == sig_dfl) ≡ true
    → killed ≡ (t.killed || q.si_signo == sigkill)
    → Passed lay (after_default t killed (dec t.sig_pending_cnt)) mem qs r
    → Passed lay t mem (q ∷ qs) r
default-Passed lay t killed mem q qs r s e f (k, inl d) = (
  default-Kept lay t killed q qs r k,
  inl (record {
    none_caught = rw (s, e) d.none_caught;
    queue = rw (s) d.queue;
    user = d.user;
    frame = d.frame;
    current = d.current;
    killed = rw (s) (
        d.killed
        ∙ ap (λ b. b || fatal t.blocked t.action qs) f
        ∙ or_assoc t.killed (q.si_signo == sigkill) (fatal t.blocked t.action qs));
  }),
)
default-Passed lay t killed mem q qs r s e f (k, inr d) = (
  default-Kept lay t killed q qs r k,
  inr (record {
    before = q ∷ d.before;
    q = d.q;
    after = d.after;
    list = ap (λ l. q ∷ l) d.list;
    first = rw (s, e) d.first;
    caught = d.caught;
    queue = rw (s) d.queue;
    frame = d.frame;
    current = d.current;
    killed = rw (s) (
        d.killed
        ∙ ap (λ b. b || fatal t.blocked t.action d.before) f
        ∙ or_assoc t.killed (q.si_signo == sigkill) (fatal t.blocked t.action d.before));
  }),
)
