-- ===== src/Proc/Sched/Requeueing.antt =====
-- What the loop of `futex_requeue` of src/atomic/futex.c does to the queues of src/proc/sched.c.
use lkc.Base.{
  ℕ, zero, suc, ◌≡◌, ◌≢◌, refl, sym, ap, ◌∙◌, List, [], ◌∷◌, ◌++◌, append-nil, append_assoc, some,
  update_self, update-ne, length, take, drop, inl, inr,
}
use lkc.Proc.Sched.{Threads, Queues, queue_remove, is_nil, requeue_loop}
use lkc.Proc.Sched.Queued.{Queued, requeued, requeued-Queued}
use lkc.Proc.Sched.Steps.{pop_here, pop_elsewhere, head_sleeps, List-cases, queue_pop_cons}

-- What moving threads from the front of one queue to the end of another leaves
pub record Moved (w : Threads) (old new k : ℕ) (r : Threads × ℕ) : Type 0 where
  pub queued : Queued r.0
  pub rest : r.0.waiting old ≡ drop k (w.waiting old)
  pub arrived : r.0.waiting new ≡ w.waiting new ++ take k (w.waiting old)
  pub count : r.1 ≡ length (take k (w.waiting old))
  pub others : (p : ℕ) → p ≢ old → p ≢ new → r.0.waiting p ≡ w.waiting p
  pub state : r.0.state ≡ w.state
  pub t_states : r.0.t_states ≡ w.t_states
  pub entries : r.0.wait_chan_entry ≡ w.wait_chan_entry

Moved-none :
    (w : Threads) (old new k : ℕ)
    → Queued w
    → take k (w.waiting old) ≡ []
    → drop k (w.waiting old) ≡ w.waiting old
    → Moved w old new k (w, 0)
Moved-none w old new k inv e d = record {
  queued = inv;
  rest = sym d;
  arrived = rw (e, append-nil) refl;
  count = rw (e) refl;
  others = λ p a b. refl;
  state = refl;
  t_states = refl;
  entries = refl;
}

Moved-suc :
    (w : Threads) (inv : Queued w) (old new t : ℕ) (ts : List ℕ) (e : w.waiting old ≡ t ∷ ts)
    (k : ℕ) (r : Threads × ℕ)
    → old ≢ new
    → Moved (requeued w inv t new) old new k r
    → Moved w old new (suc k) (r.0, suc r.1)
Moved-suc w inv old new t ts e k r ne i =
    let unlinked : Queues = queue_remove w.waiting t in
    let here : (requeued w inv t new).waiting old ≡ ts =
      update-ne unlinked new old (unlinked new ++ t ∷ []) ne ∙ pop_here w inv old t ts e in
    let there : (requeued w inv t new).waiting new ≡ w.waiting new ++ t ∷ [] =
      update_self unlinked new new (unlinked new ++ t ∷ []) refl
      ∙ ap (λ l. l ++ t ∷ []) (pop_elsewhere w inv old t ts e new (λ x. ne (sym x))) in
    let took : take (suc k) (w.waiting old) ≡ t ∷ take k ts = ap (take (suc k)) e in
    record {
      queued = i.queued;
      rest = i.rest ∙ ap (drop k) here ∙ sym (ap (drop (suc k)) e);
      arrived =
          i.arrived
          ∙ ap (λ l. l ++ take k ((requeued w inv t new).waiting old)) there
          ∙ append_assoc (w.waiting new) (t ∷ []) (take k ((requeued w inv t new).waiting old))
          ∙ ap (λ l. w.waiting new ++ t ∷ l) (ap (take k) here)
          ∙ ap (λ l. w.waiting new ++ l) (sym took);
      count = ap suc (i.count ∙ ap (λ l. length (take k l)) here) ∙ sym (ap length took);
      others = λ p a b.
          i.others p a b
          ∙ update-ne unlinked new p (unlinked new ++ t ∷ []) b
          ∙ pop_elsewhere w inv old t ts e p a;
      state = i.state;
      t_states = i.t_states;
      entries = i.entries;
    }

pub requeue_loop_lem :
    (k old new : ℕ) (w : Threads)
    → Queued w
    → old ≢ new
    → (r : Threads × ℕ) × (requeue_loop k old new w ≡ some r) × Moved w old new k r
unfolding requeue_loop
requeue_loop_lem zero old new w inv ne = ((w, 0), refl, Moved-none w old new 0 inv refl refl)
requeue_loop_lem (suc k) old new w inv ne = elim (List-cases (w.waiting old)) [
  | inl e ↦ (
    (w, 0),
    rw (requeue_loop, ap is_nil e) refl,
    Moved-none w old new (suc k) inv (ap (take (suc k)) e) (ap (drop (suc k)) e ∙ sym e),
  )
  | inr (t, ts, e) ↦
      let z = head_sleeps w inv old t ts e in
      let (r, f, i) =
        requeue_loop_lem k old new (requeued w inv t new) (requeued-Queued w inv t new z) ne in
      (
        (r.0, suc r.1),
        rw (requeue_loop, ap is_nil e, queue_pop_cons w.waiting old t ts e, z, f) refl,
        Moved-suc w inv old new t ts e k r ne i,
      )
]

-- `cond_signal` wakes the first, if any.
