-- ===== src/Proc/Sched/Steps.antt =====
-- What the operations of src/proc/sched.c and src/atomic/cond.c do to queues that satisfy the invariant.
use mathlib.Core.Path.{subst}
use lkc.Base.{
  ℕ, zero, suc, ◌<◌, ◌≡◌, ◌≢◌, refl, sym, ap, ◌∙◌, true, List, [], ◌∷◌, ◌++◌, append-nil,
  append_assoc, some, ◌==◌, update_self, erase_of_not_elem, elem, length, take, drop, arith, inl,
  inr, ◌⊎◌,
}
use lkc.Base.Panic.{◌>>=◌}
use lkc.Proc.Sched.{
  Threads, Queues, tcb_runnable, tcb_sleeping, queue_remove, is_nil, queue_pop, first_node, is_some,
  tcb_q_change_state, thread_wakeup, thread_yield, cond_wait, wake_first, cond_signal,
  cond_broadcast, wake_loop,
}
use lkc.Proc.Sched.Queued.{Queued, moved_queues, woken, woken-Queued, asleep, changed}

pub thread_wakeup_lem :
    (w : Threads) (inv : Queued w) (t : ℕ)
    → w.state t ≡ tcb_sleeping
    → thread_wakeup t w ≡ some (woken w inv t)
unfolding thread_wakeup tcb_q_change_state
thread_wakeup_lem w inv t z =
    let e : is_some (w.wait_chan_entry t) ≡ true = ground (arith, inv.entry t) in rw (e, z) refl

pub thread_yield_lem :
    (w : Threads) (inv : Queued w) (t : ℕ) → thread_yield t w ≡ some (changed w inv t tcb_runnable)
unfolding thread_yield tcb_q_change_state
thread_yield_lem w inv t = rw (update_self w.state t t tcb_runnable refl) refl

pub cond_wait_lem :
    (w : Threads) (inv : Queued w) (t q : ℕ) → cond_wait t q w ≡ some (asleep w inv t q)
unfolding cond_wait tcb_q_change_state
cond_wait_lem w inv t q = rw (update_self w.state t t tcb_sleeping refl) refl

pub queue_pop_cons :
    (qs : Queues) (q t : ℕ) (ts : List ℕ)
    → qs q ≡ t ∷ ts
    → queue_pop qs q ≡ some (t, queue_remove qs t)
unfolding queue_pop
queue_pop_cons qs q t ts e = ap (λ l. first_node l >>= λ x. some (x, queue_remove qs x)) e

module _ (w : Threads) (inv : Queued w) (q t : ℕ) (ts : List ℕ) (e : w.waiting q ≡ t ∷ ts) where
  head_waits : elem t (w.waiting q) ≡ true
  head_waits = rw (e) (ground arith)

  pub head_sleeps : w.state t ≡ tcb_sleeping
  head_sleeps = inv.sleeping t q head_waits

  pub pop_here : queue_remove w.waiting t q ≡ ts
  pop_here = rw (e) (ground arith)

  pub pop_elsewhere : (p : ℕ) → p ≢ q → queue_remove w.waiting t p ≡ w.waiting p
  pop_elsewhere p ne =
      erase_of_not_elem t (w.waiting p) (ground (arith, inv.one_queue t p q, head_waits))

  pub runnable_after :
      moved_queues t tcb_runnable w tcb_runnable ≡ w.t_states tcb_runnable ++ t ∷ []
  runnable_after =
      ap (λ l. l ++ t ∷ [])
        (erase_of_not_elem t (w.t_states tcb_runnable)
          (ground (arith, inv.in_state t tcb_runnable, head_sleeps)))

  pub wake_first_lem : wake_first q w ≡ some (woken w inv t)
  unfolding wake_first tcb_q_change_state
  wake_first_lem =
      let c : is_some (w.wait_chan_entry t) ≡ true =
        inv.entry t ∙ ap (λ s. s == tcb_sleeping) head_sleeps in
      rw (wake_first, queue_pop_cons w.waiting q t ts e, head_sleeps, c) refl

pub List-cases : (l : List ℕ) → (l ≡ []) ⊎ ((t : ℕ) × (ts : List ℕ) × (l ≡ t ∷ ts))
List-cases [] = inl refl
List-cases (t ∷ ts) = inr (t, ts, refl)

-- What waking or moving threads from the front of a queue leaves of it
pub record Woke (w : Threads) (q k : ℕ) (r : Threads × ℕ) : Type 0 where
  pub queued : Queued r.0
  pub rest : r.0.waiting q ≡ drop k (w.waiting q)
  pub runnable : r.0.t_states tcb_runnable ≡ w.t_states tcb_runnable ++ take k (w.waiting q)
  pub count : r.1 ≡ length (take k (w.waiting q))
  pub others : (p : ℕ) → p ≢ q → r.0.waiting p ≡ w.waiting p

Woke-none :
    (w : Threads) (q k : ℕ)
    → Queued w
    → take k (w.waiting q) ≡ []
    → drop k (w.waiting q) ≡ w.waiting q
    → Woke w q k (w, 0)
Woke-none w q k inv e d = record {
  queued = inv;
  rest = sym d;
  runnable = rw (e, append-nil) refl;
  count = rw (e) refl;
  others = λ p ne. refl;
}

Woke-suc :
    (w : Threads) (inv : Queued w) (q t : ℕ) (ts : List ℕ) (e : w.waiting q ≡ t ∷ ts) (k : ℕ)
    (r : Threads × ℕ)
    → Woke (woken w inv t) q k r
    → Woke w q (suc k) (r.0, suc r.1)
Woke-suc w inv q t ts e k r i =
    let here : (woken w inv t).waiting q ≡ ts = pop_here w inv q t ts e in
    let took : take (suc k) (w.waiting q) ≡ t ∷ take k ts = ap (take (suc k)) e in
    record {
      queued = i.queued;
      rest = i.rest ∙ ap (drop k) here ∙ sym (ap (drop (suc k)) e);
      runnable =
          i.runnable
          ∙ ap (λ l. l ++ take k ((woken w inv t).waiting q)) (runnable_after w inv q t ts e)
          ∙ append_assoc (w.t_states tcb_runnable) (t ∷ []) (take k ((woken w inv t).waiting q))
          ∙ ap (λ l. w.t_states tcb_runnable ++ t ∷ l) (ap (take k) here)
          ∙ ap (λ l. w.t_states tcb_runnable ++ l) (sym took);
      count = ap suc (i.count ∙ ap (λ l. length (take k l)) here) ∙ sym (ap length took);
      others = λ p ne. i.others p ne ∙ pop_elsewhere w inv q t ts e p ne;
    }

pub wake_loop_lem :
    (k q : ℕ) (w : Threads)
    → Queued w
    → (r : Threads × ℕ) × (wake_loop k q w ≡ some r) × Woke w q k r
unfolding wake_loop
wake_loop_lem zero q w inv = ((w, 0), refl, Woke-none w q 0 inv refl refl)
wake_loop_lem (suc k) q w inv = elim (List-cases (w.waiting q)) [
  | inl e ↦ (
    (w, 0),
    rw (wake_loop, ap is_nil e) refl,
    Woke-none w q (suc k) inv (ap (take (suc k)) e) (ap (drop (suc k)) e ∙ sym e),
  )
  | inr (t, ts, e) ↦
      let (r, f, i) = wake_loop_lem k q (woken w inv t) (woken-Queued w inv t) in
      (
        (r.0, suc r.1),
        rw (wake_loop, ap is_nil e, wake_first_lem w inv q t ts e, f) refl,
        Woke-suc w inv q t ts e k r i,
      )
]

-- `cond_broadcast` wakes all, on more fuel than threads wait.
pub cond_broadcast_lem :
    (fuel q : ℕ) (w : Threads)
    → Queued w
    → length (w.waiting q) < fuel
    → (u : Threads) × (cond_broadcast fuel q w ≡ some u)
      × Woke w q (length (w.waiting q)) (u, length (w.waiting q))
unfolding cond_broadcast
cond_broadcast_lem zero q w inv h = absurd (omega arith)
cond_broadcast_lem (suc fuel) q w inv h = elim (List-cases (w.waiting q)) [
  | inl e ↦ (
    w,
    rw (cond_broadcast, ap is_nil e) refl,
    subst (λ n. Woke w q n (w, n)) (sym (ap length e)) (Woke-none w q 0 inv refl refl),
  )
  | inr (t, ts, e) ↦
      let n : length ((woken w inv t).waiting q) ≡ length ts =
        ap length (pop_here w inv q t ts e) in
      let (u, f, i) =
        cond_broadcast_lem fuel q (woken w inv t) (woken-Queued w inv t)
          (omega (arith, n, ap length e)) in
      (
        u,
        rw (cond_broadcast, ap is_nil e, wake_first_lem w inv q t ts e, f) refl,
        subst (λ n. Woke w q n (u, n)) (sym (ap length e ∙ ap suc (sym n)))
            (Woke-suc w inv q t ts e (length ((woken w inv t).waiting q)) _ i),
      )
]

pub cond_signal_lem :
    (q : ℕ) (w : Threads)
    → Queued w
    → (u : Threads) × (cond_signal q w ≡ some u) × ((n : ℕ) × Woke w q 1 (u, n))
unfolding cond_signal
cond_signal_lem q w inv = elim (List-cases (w.waiting q)) [
  | inl e ↦ (
    w,
    rw (cond_signal, ap is_nil e) refl,
    (0, Woke-none w q 1 inv (ap (take 1) e) (ap (drop 1) e ∙ sym e)),
  )
  | inr (t, ts, e) ↦ (
    woken w inv t,
    rw (cond_signal, ap is_nil e) (wake_first_lem w inv q t ts e),
    (
      1,
      Woke-suc w inv q t ts e 0 (woken w inv t, 0)
          (Woke-none (woken w inv t) q 0 (woken-Queued w inv t) refl refl),
    ),
  )
]

pub take_all {ℓ} : {A : Type ℓ} (l : List A) → (take (length l) l ≡ l) × (drop (length l) l ≡ [])
take_all [] = (refl, refl)
take_all (x ∷ l) = (ap (λ r. x ∷ r) (take_all l).0, (take_all l).1)

module _ (w : Threads) (inv : Queued w) (t : ℕ) where
  -- A thread that is not runnable goes to the end of the runnable ones.
  pub runnable_last :
      w.state t ≢ tcb_runnable
      → moved_queues t tcb_runnable w tcb_runnable ≡ w.t_states tcb_runnable ++ t ∷ []
  runnable_last n =
      ap (λ l. l ++ t ∷ [])
        (erase_of_not_elem t (w.t_states tcb_runnable)
          (ground (arith, inv.in_state t tcb_runnable)))
