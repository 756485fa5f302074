-- ===== src/Proc/Sched/Life.antt =====
-- All threads of the kernel, from `tcb_init` on, under any sequence of the operations of
-- src/proc/sched.c and src/atomic/cond.c.
use mathlib.Core.Path.{subst}
use lkc.Base.{
  ℕ, zero, suc, ◌≡◌, ◌≢◌, refl, sym, ap, ◌∙◌, true, List, [], ◌∷◌, Option, none, some, ◌==◌,
  if◌then◌else◌, elem, IsDistinct, arith, Bool-cases, inl, inr, ◌⊎◌,
}
use lkc.Proc.Sched.{
  Threads, tcb_unused, tcb_runnable, tcb_running, tcb_sleeping, queue_pop, is_nil,
  tcb_q_change_state, thread_yield, thread_wakeup, thread_schedule, cond_wait, cond_signal,
  cond_broadcast, wake_loop, requeue_loop,
}
use lkc.Proc.Sched.Queued.{
  Queued, change_lem, woken, woken-Queued, asleep-Queued, changed, changed-Queued, taken,
  taken-Queued,
}
use lkc.Proc.Sched.Steps.{
  List-cases, thread_wakeup_lem, thread_yield_lem, cond_wait_lem, wake_first_lem, wake_loop_lem,
  cond_signal_lem, queue_pop_cons,
}
use lkc.Proc.Sched.Requeueing.{requeue_loop_lem}

-- The threads after `tcb_init`; a number that is no thread is in no queue, which is
-- said here by the state of a running one.
abbrev pub start : List ℕ → Threads
start ts = record {
  state = λ t. if elem t ts then tcb_unused else tcb_running;
  t_states = λ s. if s == tcb_unused then ts else [];
  waiting = λ q. [];
  wait_chan_entry = λ t. none;
  time_out = λ t. 0;
}

-- The rounds of the scheduler
abbrev pub scheduled : Threads → Threads
scheduled w = (thread_schedule w).0

-- `change` is TCB_Q_changeState as the life of a thread calls it: of a thread that does not sleep, to a
-- state other than running and sleeping.
pub data Reach (ts : List ℕ) : Threads → Type 0 where
  init : Reach ts (start ts)
  change :
      {w u : Threads} (t new : ℕ)
      → Reach ts w
      → new ≢ tcb_sleeping
      → w.state t ≢ tcb_sleeping
      → tcb_q_change_state t new w ≡ some u
      → Reach ts u
  schedule : {w : Threads} → Reach ts w → Reach ts (scheduled w)
  yield :
      {w u : Threads} (t : ℕ)
      → Reach ts w
      → w.state t ≡ tcb_running
      → thread_yield t w ≡ some u
      → Reach ts u
  wait :
      {w u : Threads} (t q : ℕ)
      → Reach ts w
      → w.state t ≡ tcb_running
      → cond_wait t q w ≡ some u
      → Reach ts u
  wakeup :
      {w u : Threads} (t : ℕ)
      → Reach ts w
      → w.state t ≡ tcb_sleeping
      → thread_wakeup t w ≡ some u
      → Reach ts u
  signal : {w u : Threads} (q : ℕ) → Reach ts w → cond_signal q w ≡ some u → Reach ts u
  broadcast :
      {w u : Threads} (fuel q : ℕ) → Reach ts w → cond_broadcast fuel q w ≡ some u → Reach ts u
  wake : {w u : Threads} (k q n : ℕ) → Reach ts w → wake_loop k q w ≡ some (u, n) → Reach ts u
  requeue :
      {w u : Threads} (k old new n : ℕ)
      → Reach ts w
      → old ≢ new
      → requeue_loop k old new w ≡ some (u, n)
      → Reach ts u

start-Queued : (ts : List ℕ) → IsDistinct ts → Queued (start ts)
start-Queued ts d = record {
  in_state = λ t s. ground arith;
  distinct = λ s. elim (Bool-cases (s == tcb_unused)) [ inl e ↦ rw (e) d | inr e ↦ rw (e) tt ];
  waits_once = λ q. tt;
  one_queue = λ t p q a b. ground arith;
  sleeping = λ t q h. ground arith;
  somewhere = λ t h. absurd (ground arith);
  entry = λ t. ground arith;
}

pub schedule_lem :
    (w : Threads) (inv : Queued w)
    → ((w.t_states tcb_runnable ≡ []) × (thread_schedule w ≡ (w, none)))
      ⊎ ((t : ℕ) × (ts : List ℕ) × (w.t_states tcb_runnable ≡ t ∷ ts)
          × (thread_schedule w ≡ (taken w inv t, some t))
          × (w.state t ≡ tcb_runnable))
unfolding thread_schedule queue_pop
schedule_lem w inv = elim (List-cases (w.t_states tcb_runnable)) [
  | inl e ↦ inl (e, rw (thread_schedule, queue_pop, e) refl)
  | inr (t, ts, e) ↦ inr (
    t,
    ts,
    e,
    rw (thread_schedule, queue_pop_cons w.t_states tcb_runnable t ts e) refl,
    runs t ts e,
  )
]
  where
    runs : (t : ℕ) (ts : List ℕ) → w.t_states tcb_runnable ≡ t ∷ ts → w.state t ≡ tcb_runnable
    runs t ts e =
        let m : elem t (w.t_states tcb_runnable) ≡ true = rw (e) (ground arith) in
        ground (arith, inv.in_state t tcb_runnable)

schedule-Queued : (w : Threads) → Queued w → Queued (scheduled w)
schedule-Queued w inv = elim (schedule_lem w inv) [
  | inl e ↦ subst (λ r. Queued r.0) (sym e.1) inv
  | inr (t, ts, e, f, r) ↦ subst (λ r. Queued r.0) (sym f) (taken-Queued w inv t r)
]

-- `some a ≡ some b`, taken apart
got : (o : Option Threads) (u v : Threads) → o ≡ some u → o ≡ some v → u ≡ v
got o u v e f = cc

null : (o : Option Threads) (u : Threads) → o ≡ none → o ≡ some u → ⊥
null o u e f = cc

got_pair :
    (o : Option (Threads × ℕ)) (r : Threads × ℕ) (u : Threads) (n : ℕ)
    → o ≡ some r
    → o ≡ some (u, n)
    → r.0 ≡ u
got_pair o r u n e f = cc

change-Queued :
    (w u : Threads) (t new : ℕ)
    → Queued w
    → new ≢ tcb_sleeping
    → w.state t ≢ tcb_sleeping
    → tcb_q_change_state t new w ≡ some u
    → Queued u
unfolding tcb_q_change_state
change-Queued w u t new inv a b e = elim (Bool-cases (new == tcb_running)) [
  | inl r ↦ absurd (null (tcb_q_change_state t new w) u (rw (tcb_q_change_state, r) refl) e)
  | inr r ↦
      subst Queued
        (got (tcb_q_change_state t new w) (changed w inv t new) u (change_lem t new w r) e)
        (changed-Queued w inv t new r a b)
]

broadcast-Queued :
    (fuel q : ℕ) (w u : Threads) → Queued w → cond_broadcast fuel q w ≡ some u → Queued u
unfolding cond_broadcast
broadcast-Queued zero q w u inv e = absurd (null none u refl e)
broadcast-Queued (suc fuel) q w u inv e = elim (List-cases (w.waiting q)) [
  | inl z ↦
      subst Queued
        (got (cond_broadcast (suc fuel) q w) w u (rw (cond_broadcast, ap is_nil z) refl) e) inv
  | inr (t, ts, z) ↦
      broadcast-Queued fuel q (woken w inv t) u (woken-Queued w inv t) (sym (round t ts z) ∙ e)
]
  where
    round :
        (t : ℕ) (ts : List ℕ)
        → w.waiting q ≡ t ∷ ts
        → cond_broadcast (suc fuel) q w ≡ cond_broadcast fuel q (woken w inv t)
    round t ts z = rw (cond_broadcast, ap is_nil z, wake_first_lem w inv q t ts z) refl

-- In every state that the life of threads leads to from distinct unused threads on, by changes of
-- state of threads that do not sleep, rounds of the scheduler, yields and waits of running threads,
-- wake-ups of sleeping ones, `cond_signal`, `cond_broadcast`, and the loops of `futex_wakeup` and,
-- between different queues, of `futex_requeue`, every thread that does not run stands in the queue
-- of its state, once, and in no other; every sleeping thread waits in exactly one queue, once, and
-- no other thread waits; and exactly the sleeping threads have an entry of a waiting queue.
pub Reach-Queued : {ts : List ℕ} {w : Threads} → IsDistinct ts → Reach ts w → Queued w
Reach-Queued {ts} d init = start-Queued ts d
Reach-Queued d (change {w} {u} t new r a b e) = change-Queued w u t new (Reach-Queued d r) a b e
Reach-Queued d (schedule {w} r) = schedule-Queued w (Reach-Queued d r)
Reach-Queued d (yield {w} {u} t r s e) =
    let inv = Reach-Queued d r in
    subst Queued (got (thread_yield t w) _ u (thread_yield_lem w inv t) e)
      (changed-Queued w inv t tcb_runnable refl (λ z. ground arith) (λ z. ground arith))
Reach-Queued d (wait {w} {u} t q r s e) =
    let inv = Reach-Queued d r in
    subst Queued (got (cond_wait t q w) _ u (cond_wait_lem w inv t q) e)
      (asleep-Queued w inv t q (λ z. ground arith))
Reach-Queued d (wakeup {w} {u} t r s e) =
    let inv = Reach-Queued d r in
    subst Queued (got (thread_wakeup t w) _ u (thread_wakeup_lem w inv t s) e)
      (woken-Queued w inv t)
Reach-Queued d (signal {w} {u} q r e) =
    let (v, f, k) = cond_signal_lem q w (Reach-Queued d r) in
    subst Queued (got (cond_signal q w) v u f e) k.1.queued
Reach-Queued d (broadcast {w} {u} fuel q r e) = broadcast-Queued fuel q w u (Reach-Queued d r) e
Reach-Queued d (wake {w} {u} k q n r e) =
    let (v, f, i) = wake_loop_lem k q w (Reach-Queued d r) in
    subst Queued (got_pair (wake_loop k q w) v u n f e) i.queued
Reach-Queued d (requeue {w} {u} k old new n r ne e) =
    let (v, f, i) = requeue_loop_lem k old new w (Reach-Queued d r) ne in
    subst Queued (got_pair (requeue_loop k old new w) v u n f e) i.queued
