-- ===== src/Proc/Sched/Queued.antt =====
-- Where each thread stands: the invariant of the queues of src/proc/sched.c, under each operation.
use mathlib.Core.Path.{subst}
use native.Mathlib.Decide.{ℕ_discrete}
use lkc.Base.{
  ℕ, ◌≡◌, ◌≢◌, refl, sym, ◌∙◌, true, false, not, ◌&&◌, ◌||◌, List, [], ◌∷◌, ◌++◌, none, some, ◌==◌,
  if◌then◌else◌, update, update_self, update-ne, elem, elem-erase, erase-IsDistinct, IsDistinct,
  arith, Bool-cases, inl, inr,
}
use lkc.Proc.Sched.{
  Threads, Queues, tcb_runnable, tcb_running, tcb_sleeping, queue_push_back, queue_remove, is_some,
  tcb_q_change_state,
}

pub elem-append : (a b : ℕ) (xs : List ℕ) → elem a (xs ++ b ∷ []) ≡ (elem a xs || a == b)
elem-append a b [] = ground arith
elem-append a b (x ∷ xs) = ground (arith, elem-append a b xs)

pub append-IsDistinct :
    (b : ℕ) (xs : List ℕ) → IsDistinct xs → elem b xs ≡ false → IsDistinct (xs ++ b ∷ [])
append-IsDistinct b [] d h = (refl, tt)
append-IsDistinct b (x ∷ xs) d h =
    (ground (arith, elem-append x b xs), append-IsDistinct b xs d.1 (ground arith))

-- Every thread that does not run stands in the queue of its state, once, and in no other; a thread
-- waits in at most one queue, exactly the sleeping ones wait in one, and exactly they have an entry of a
-- queue.
pub record Queued (w : Threads) : Type 0 where
  pub in_state : (t s : ℕ) → elem t (w.t_states s) ≡ (w.state t == s && not (s == tcb_running))
  pub distinct : (s : ℕ) → IsDistinct (w.t_states s)
  pub waits_once : (q : ℕ) → IsDistinct (w.waiting q)
  pub one_queue : (t p q : ℕ) → elem t (w.waiting p) ≡ true → elem t (w.waiting q) ≡ true → p ≡ q
  pub sleeping : (t q : ℕ) → elem t (w.waiting q) ≡ true → w.state t ≡ tcb_sleeping
  pub somewhere : (t : ℕ) → w.state t ≡ tcb_sleeping → (q : ℕ) × (elem t (w.waiting q) ≡ true)
  pub entry : (t : ℕ) → is_some (w.wait_chan_entry t) ≡ (w.state t == tcb_sleeping)

elem-push :
    (qs : Queues) (q t p u : ℕ)
    → elem u (queue_push_back qs q t p) ≡ (elem u (qs p) || (p == q && u == t))
elem-push qs q t p u = elim (ℕ_discrete q p) [
  | yes e ↦ ground (arith, elem-append u t (qs q))
  | no ne ↦ ground arith
]

push-IsDistinct :
    (qs : Queues) (q t p : ℕ)
    → IsDistinct (qs p)
    → elem t (qs q) ≡ false
    → IsDistinct (queue_push_back qs q t p)
push-IsDistinct qs q t p d h = elim (ℕ_discrete q p) [
  | yes e ↦
      rw (update_self qs q p (qs q ++ t ∷ []) (sym e))
        (append-IsDistinct t (qs q) (subst (λ x. IsDistinct (qs x)) (sym e) d) h)
  | no ne ↦ rw (update-ne qs q p (qs q ++ t ∷ []) (λ e. ne (sym e))) d
]

-- The two families after a change of state other than to running
abbrev pub moved_queues : ℕ → ℕ → Threads → Queues
moved_queues t new w = queue_push_back (queue_remove w.t_states t) new t

pub change_lem :
    (t new : ℕ) (w : Threads)
    → (new == tcb_running) ≡ false
    → tcb_q_change_state t new w
      ≡ some (record w { t_states = moved_queues t new w; state = update w.state t new })
unfolding tcb_q_change_state
change_lem t new w ne = rw (tcb_q_change_state, ne) refl

module _ (w : Threads) (inv : Queued w) where
  elem-remove :
      (t u s : ℕ)
      → elem u (queue_remove w.t_states t s) ≡ (if t == u then false else elem u (w.t_states s))
  elem-remove t u s = elem-erase t u (w.t_states s) (inv.distinct s)

  elem-unlink :
      (t u q : ℕ)
      → elem u (queue_remove w.waiting t q) ≡ (if t == u then false else elem u (w.waiting q))
  elem-unlink t u q = elem-erase t u (w.waiting q) (inv.waits_once q)

  moved-in_state :
      (t new : ℕ)
      → (new == tcb_running) ≡ false
      → (u s : ℕ)
      → elem u (moved_queues t new w s) ≡ (update w.state t new u == s && not (s == tcb_running))
  moved-in_state t new ne u s =
      elem-push (queue_remove w.t_states t) new t s u
      ∙ ground (arith, elem-remove t u s, inv.in_state u s)

  moved-IsDistinct : (t new : ℕ) (s : ℕ) → IsDistinct (moved_queues t new w s)
  moved-IsDistinct t new s =
      push-IsDistinct (queue_remove w.t_states t) new t s
        (erase-IsDistinct t (w.t_states s) (inv.distinct s)) (ground (arith, elem-remove t t new))

  -- A thread is woken: it leaves the queue that it waits in.
  abbrev pub woken : ℕ → Threads
  woken t = record w {
    state = update w.state t tcb_runnable;
    t_states = moved_queues t tcb_runnable w;
    waiting = queue_remove w.waiting t;
    wait_chan_entry = update w.wait_chan_entry t none;
  }

  pub woken-Queued : (t : ℕ) → Queued (woken t)
  woken-Queued t = record {
    in_state = moved-in_state t tcb_runnable refl;
    distinct = moved-IsDistinct t tcb_runnable;
    waits_once = λ q. erase-IsDistinct t (w.waiting q) (inv.waits_once q);
    one_queue = λ u p q a b.
        inv.one_queue u p q (ground (arith, elem-unlink t u p)) (ground (arith, elem-unlink t u q));
    sleeping = λ u q h. ground (arith, elem-unlink t u q, inv.sleeping u q);
    somewhere = λ u h.
        let (q, e) = inv.somewhere u (ground arith) in (q, ground (arith, elem-unlink t u q));
    entry = λ u. ground (arith, inv.entry u);
  }

  -- A thread that does not sleep goes to sleep in the queue `q`.
  abbrev pub asleep : ℕ → ℕ → Threads
  asleep t q = record w {
    state = update w.state t tcb_sleeping;
    t_states = moved_queues t tcb_sleeping w;
    waiting = queue_push_back w.waiting q t;
    wait_chan_entry = update w.wait_chan_entry t (some q);
  }

  not_waiting : (t q : ℕ) → w.state t ≢ tcb_sleeping → elem t (w.waiting q) ≡ false
  not_waiting t q n = elim (Bool-cases (elem t (w.waiting q))) [
    | inl e ↦ absurd (n (inv.sleeping t q e))
    | inr e ↦ e
  ]

  pub asleep-Queued : (t q : ℕ) → w.state t ≢ tcb_sleeping → Queued (asleep t q)
  asleep-Queued t q n = record {
    in_state = moved-in_state t tcb_sleeping refl;
    distinct = moved-IsDistinct t tcb_sleeping;
    waits_once = λ p. push-IsDistinct w.waiting q t p (inv.waits_once p) (not_waiting t q n);
    one_queue = λ u p p' a b. ground (
      arith,
      elem-push w.waiting q t p u,
      elem-push w.waiting q t p' u,
      inv.one_queue u p p',
      not_waiting t p n,
      not_waiting t p' n,
    );
    sleeping = λ u p h. ground (arith, elem-push w.waiting q t p u, inv.sleeping u p);
    somewhere = λ u h. elim (ℕ_discrete u t) [
      | yes e ↦ (q, ground (arith, elem-push w.waiting q t q u))
      | no ne ↦
          let (p, e) = inv.somewhere u (ground arith) in
          (p, ground (arith, elem-push w.waiting q t p u))
    ];
    entry = λ u. ground (arith, inv.entry u);
  }

  -- A thread that does not sleep gets another state than these two.
  abbrev pub changed : ℕ → ℕ → Threads
  changed t new = record w { state = update w.state t new; t_states = moved_queues t new w }

  pub changed-Queued :
      (t new : ℕ)
      → (new == tcb_running) ≡ false
      → new ≢ tcb_sleeping
      → w.state t ≢ tcb_sleeping
      → Queued (changed t new)
  changed-Queued t new a b n = record {
    in_state = moved-in_state t new a;
    distinct = moved-IsDistinct t new;
    waits_once = inv.waits_once;
    one_queue = inv.one_queue;
    sleeping = λ u q h. ground (arith, inv.sleeping u q h);
    somewhere = λ u h. inv.somewhere u (ground arith);
    entry = λ u. ground (arith, inv.entry u);
  }

  -- A runnable thread is taken by a processor.
  abbrev pub taken : ℕ → Threads
  taken t = record w { state = update w.state t tcb_running; t_states = queue_remove w.t_states t }

  pub taken-Queued : (t : ℕ) → w.state t ≡ tcb_runnable → Queued (taken t)
  taken-Queued t r = record {
    in_state = λ u s. ground (arith, elem-remove t u s, inv.in_state u s);
    distinct = λ s. erase-IsDistinct t (w.t_states s) (inv.distinct s);
    waits_once = inv.waits_once;
    one_queue = inv.one_queue;
    sleeping = λ u q h. ground (arith, inv.sleeping u q h);
    somewhere = λ u h. inv.somewhere u (ground arith);
    entry = λ u. ground (arith, inv.entry u);
  }

  -- A waiting thread goes to the end of another queue.
  abbrev pub requeued : ℕ → ℕ → Threads
  requeued t q = record w { waiting = queue_push_back (queue_remove w.waiting t) q t }

  pub requeued-Queued : (t q : ℕ) → w.state t ≡ tcb_sleeping → Queued (requeued t q)
  requeued-Queued t q z = record {
    in_state = inv.in_state;
    distinct = inv.distinct;
    waits_once = λ p.
        push-IsDistinct (queue_remove w.waiting t) q t p
          (erase-IsDistinct t (w.waiting p) (inv.waits_once p)) (ground (arith, elem-unlink t t q));
    one_queue = λ u p p' a b. ground (
      arith,
      elem-push (queue_remove w.waiting t) q t p u,
      elem-push (queue_remove w.waiting t) q t p' u,
      elem-unlink t u p,
      elem-unlink t u p',
      inv.one_queue u p p',
    );
    sleeping = λ u p h.
        ground (
          arith,
          elem-push (queue_remove w.waiting t) q t p u,
          elem-unlink t u p,
          inv.sleeping u p,
        );
    somewhere = λ u h. elim (ℕ_discrete u t) [
      | yes e ↦ (q, ground (arith, elem-push (queue_remove w.waiting t) q t q u))
      | no ne ↦
          let (p, e) = inv.somewhere u h in
          (p, ground (arith, elem-push (queue_remove w.waiting t) q t p u, elem-unlink t u p))
    ];
    entry = inv.entry;
  }
