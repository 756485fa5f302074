-- ===== src/Proc/Sched/Returns.antt =====
-- What each operation of src/proc/sched.c and src/atomic/cond.c returns in the states that threads reach.
use lkc.Base.{
  ℕ, ◌<◌, ◌≡◌, ◌≢◌, refl, sym, ap, ◌∙◌, false, List, [], ◌∷◌, ◌++◌, none, some, update_self,
  IsDistinct, length, erase, arith, inl, inr,
}
use lkc.Proc.Sched.{
  Threads, tcb_runnable, tcb_running, tcb_sleeping, is_some, thread_yield, thread_wakeup,
  thread_schedule, cond_wait, cond_signal, cond_broadcast,
}
use lkc.Proc.Sched.Queued.{Queued, woken, asleep, changed}
use lkc.Proc.Sched.Steps.{
  Woke, thread_wakeup_lem, thread_yield_lem, cond_wait_lem, cond_broadcast_lem, cond_signal_lem,
  take_all, runnable_last,
}
use lkc.Proc.Sched.Life.{Reach, Reach-Queued, schedule_lem, scheduled}

-- What each operation does in a state, without a panic
pub record Returns (w : Threads) : Type 0 where
  pub yield :
      (t : ℕ)
      → w.state t ≡ tcb_running
      → (u : Threads) × (thread_yield t w ≡ some u)
        × (u.t_states tcb_runnable ≡ w.t_states tcb_runnable ++ t ∷ [])
  pub wait :
      (t q : ℕ)
      → w.state t ≡ tcb_running
      → (u : Threads) × (cond_wait t q w ≡ some u) × (u.waiting q ≡ w.waiting q ++ t ∷ [])
  pub wakeup :
      (t : ℕ)
      → w.state t ≡ tcb_sleeping
      → (u : Threads) × (thread_wakeup t w ≡ some u)
        × (u.t_states tcb_runnable ≡ w.t_states tcb_runnable ++ t ∷ [])
  pub late : (t : ℕ) → w.state t ≢ tcb_sleeping → thread_wakeup t w ≡ none
  pub signal : (q : ℕ) → (u : Threads) × (cond_signal q w ≡ some u) × ((n : ℕ) × Woke w q 1 (u, n))
  pub broadcast :
      (fuel q : ℕ)
      → length (w.waiting q) < fuel
      → (u : Threads) × (cond_broadcast fuel q w ≡ some u)
        × (u.waiting q ≡ [])
        × (u.t_states tcb_runnable ≡ w.t_states tcb_runnable ++ w.waiting q)
  pub schedule :
      (t : ℕ) (ts : List ℕ)
      → w.t_states tcb_runnable ≡ t ∷ ts
      → (thread_schedule w).1 ≡ some t × ((scheduled w).t_states tcb_runnable ≡ ts)

thread_wakeup_late :
    (w : Threads) → Queued w → (t : ℕ) → w.state t ≢ tcb_sleeping → thread_wakeup t w ≡ none
unfolding thread_wakeup
thread_wakeup_late w inv t n =
    let e : is_some (w.wait_chan_entry t) ≡ false = ground (arith, inv.entry t) in
    rw (thread_wakeup, e) refl

dropped : (x : ℕ) (xs : List ℕ) → erase x (x ∷ xs) ≡ xs
dropped x xs = ground arith

Queued-Returns : (w : Threads) → Queued w → Returns w
Queued-Returns w inv = record {
  yield = λ t s. (
    changed w inv t tcb_runnable,
    thread_yield_lem w inv t,
    runnable_last w inv t (λ z. ground arith),
  );
  wait = λ t q s. (asleep w inv t q, cond_wait_lem w inv t q, update_self w.waiting q q _ refl);
  wakeup = λ t s.
      (woken w inv t, thread_wakeup_lem w inv t s, runnable_last w inv t (λ z. ground arith));
  late = λ t n. thread_wakeup_late w inv t n;
  signal = λ q. cond_signal_lem q w inv;
  broadcast = λ fuel q h.
      let (u, f, i) = cond_broadcast_lem fuel q w inv h in
      let (a, b) = take_all (w.waiting q) in
      (u, f, i.rest ∙ b, i.runnable ∙ ap (λ l. w.t_states tcb_runnable ++ l) a);
  schedule = λ t ts e. elim (schedule_lem w inv) [
    | inl n ↦ absurd (ground (arith, n.0))
    | inr (x, xs, a, b, c) ↦
        let same : x ∷ xs ≡ t ∷ ts = sym a ∙ e in
        let first : x ≡ t = cc in
        let others : xs ≡ ts = cc in
        (
          ap (λ r. r.1) b ∙ ap some first,
          ap (λ r. r.0.t_states tcb_runnable) b ∙ ap (erase x) a ∙ dropped x xs ∙ others,
        )
  ];
}

-- In every state that the changes of state, scheduler rounds, yields, waits and wake-ups of the
-- kernel lead to from distinct unused threads on, a running thread yields to the end of the
-- runnable ones, or goes to sleep at the end of a waiting queue; a sleeping thread is woken to the
-- end of the runnable ones, and a wake-up of a thread that does not sleep panics; `cond_signal`
-- wakes the first thread of a queue, if any, and keeps the rest in order; `cond_broadcast`, given
-- more fuel than threads wait, ends with the queue empty and all of them runnable, in order; and
-- the scheduler runs the first runnable thread.
pub Reach-Returns : {ts : List ℕ} {w : Threads} → IsDistinct ts → Reach ts w → Returns w
Reach-Returns {ts} {w} d r = Queued-Returns w (Reach-Queued d r)
