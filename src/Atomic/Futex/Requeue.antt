-- ===== src/Atomic/Futex/Requeue.antt =====
-- `futex_requeue` of src/atomic/futex.c.
use mathlib.Core.Path.{subst}
use lkc.Base.{
  ℕ, zero, suc, ◌≡◌, ◌≢◌, refl, sym, ap, ◌∙◌, Bool, true, false, ◌&&◌, List, [], ◌++◌, append-nil,
  Option, none, some, ◌==◌, if◌then◌else◌, length, take, drop, arith, inl, inr,
}
use lkc.Base.Int.{ℤ, pos_part}
use lkc.Klib.Hash.Refines.{view}
use lkc.Proc.Sched.{is_nil, tcb_runnable}
use lkc.Proc.Sched.Queued.{Queued}
use lkc.Proc.Sched.Steps.{List-cases}
use lkc.Proc.Sched.Requeueing.{Moved, requeue_loop_lem}
use lkc.Atomic.Futex.{Futexes, NewFutex, requeue_rest, futex_requeue}
use lkc.Atomic.Futex.Waking.{
  Ready, unlocked, unlocked-Ready, view-unlocked, get_futex_found, get_futex_absent,
  free_if_empty_lem, Awake, wakeup_some,
}

-- What the second half of a call leaves
pub record Rest (f : Futexes) (old new k : ℕ) (r : Futexes × ℕ) : Type 0 where
  pub moved : Moved f.threads old new k (r.0.threads, r.1)
  pub ready : Ready r.0.futex_map

module _ (memory : NewFutex) (f : Futexes) (ready : Ready f.futex_map)
    (inv : Queued f.threads) where
  requeue_rest-none :
      (uaddr1 uaddr2 : ℕ) (nr : ℤ)
      → view f.futex_map uaddr1 ≡ none
      → requeue_rest memory uaddr1 uaddr2 nr f
        ≡ some (record f { futex_map = unlocked f.futex_map }, 0)
  unfolding requeue_rest
  requeue_rest-none uaddr1 uaddr2 nr v =
      rw (requeue_rest, get_futex_absent f ready uaddr1 none v) refl

  requeue_rest-some :
      (uaddr1 uaddr2 old new : ℕ) (nr : ℤ)
      → view f.futex_map uaddr1 ≡ some old
      → view f.futex_map uaddr2 ≡ some new
      → old ≢ new
      → (r : Futexes × ℕ) × (requeue_rest memory uaddr1 uaddr2 nr f ≡ some r)
        × Rest f old new (pos_part nr) r
  unfolding requeue_rest
  requeue_rest-some uaddr1 uaddr2 old new nr v w ne =
      let g : Futexes = record f { futex_map = unlocked f.futex_map } in
      let gr = unlocked-Ready f.futex_map ready in
      let h : Futexes = record g { futex_map = unlocked g.futex_map } in
      let hr = unlocked-Ready g.futex_map gr in
      let (r, e, i) = requeue_loop_lem (pos_part nr) old new f.threads inv ne in
      let (u, a, b, c, d) = free_if_empty_lem (record h { threads = r.0 }) hr uaddr1 old in
      (
        (u, r.1),
        rw
            (
              requeue_rest,
              get_futex_found f ready uaddr1 none true old v,
              get_futex_found g gr uaddr2 memory false new (view-unlocked f.futex_map uaddr2 ∙ w),
              e,
              a,
            )
            refl,
        record {
          moved = subst (λ x. Moved f.threads old new (pos_part nr) (x, r.1)) (sym b) i;
          ready = c;
        },
      )

-- What a call leaves: of the threads that wait at the first address the first `k` are runnable, the next
-- `m` wait at the second, and the rest stay
pub record Requeued (f : Futexes) (old new k m : ℕ) (r : Futexes × ℕ) : Type 0 where
  pub rest : r.0.threads.waiting old ≡ drop m (drop k (f.threads.waiting old))
  pub arrived :
      r.0.threads.waiting new ≡ f.threads.waiting new ++ take m (drop k (f.threads.waiting old))
  pub runnable :
      r.0.threads.t_states tcb_runnable
      ≡ f.threads.t_states tcb_runnable ++ take k (f.threads.waiting old)
  pub count : r.1 ≡ length (take m (drop k (f.threads.waiting old)))
  pub queued : Queued r.0.threads
  pub ready : Ready r.0.futex_map

take_of_nil : (m : ℕ) (l : List ℕ) → l ≡ [] → (take m l ≡ []) × (drop m l ≡ [])
take_of_nil zero l e = (refl, e)
take_of_nil (suc m) l e = (ap (take (suc m)) e, ap (drop (suc m)) e)

freed_entry :
    (b : Bool) (u : ℕ) (o : Option ℕ) → b ≡ true → (if b && u == u then none else o) ≡ none
freed_entry b u o e = ground arith

kept_entry : (b c : Bool) (o : Option ℕ) → b ≡ false → (if b && c then none else o) ≡ o
kept_entry b c o e = ground arith

module _ (memory : NewFutex) (f : Futexes) (ready : Ready f.futex_map) (inv : Queued f.threads)
    (uaddr1 uaddr2 old new : ℕ) (nr_wake nr_requeue : ℤ) (v : view f.futex_map uaddr1 ≡ some old)
    (w : view f.futex_map uaddr2 ≡ some new) (ne : old ≢ new) where
  abbrev left : List ℕ
  left = drop (pos_part nr_wake) (f.threads.waiting old)

  Requeued-none :
      (r : Futexes × ℕ)
      → Awake f uaddr1 old (pos_part nr_wake) r
      → left ≡ []
      → Requeued f old new
          (pos_part nr_wake)
          (pos_part nr_requeue)
          (record r.0 { futex_map = unlocked r.0.futex_map }, 0)
  Requeued-none r a e =
      let (t, d) = take_of_nil (pos_part nr_requeue) left e in
      record {
        rest = a.woke.rest ∙ e ∙ sym d;
        arrived =
            a.woke.others new (λ x. ne (sym x))
            ∙ sym (append-nil (f.threads.waiting new))
            ∙ ap (λ l. f.threads.waiting new ++ l) (sym t);
        runnable = a.woke.runnable;
        count = sym (ap length t);
        queued = a.woke.queued;
        ready = unlocked-Ready r.0.futex_map a.ready;
      }

  Requeued-some :
      (r s : Futexes × ℕ)
      → Awake f uaddr1 old (pos_part nr_wake) r
      → Rest r.0 old new (pos_part nr_requeue) s
      → Requeued f old new (pos_part nr_wake) (pos_part nr_requeue) s
  Requeued-some r s a b = record {
    rest = b.moved.rest ∙ ap (drop (pos_part nr_requeue)) a.woke.rest;
    arrived =
        b.moved.arrived
        ∙ ap (λ l. l ++ take (pos_part nr_requeue) (r.0.threads.waiting old))
            (a.woke.others new (λ x. ne (sym x)))
        ∙ ap (λ l. f.threads.waiting new ++ take (pos_part nr_requeue) l) a.woke.rest;
    runnable = ap (λ q. q tcb_runnable) b.moved.t_states ∙ a.woke.runnable;
    count = b.moved.count ∙ ap (λ l. length (take (pos_part nr_requeue) l)) a.woke.rest;
    queued = b.moved.queued;
    ready = b.ready;
  }

  -- On queues that satisfy the invariant and a table of futexes between two calls that has two
  -- different futexes at the two addresses, `futex_requeue` returns: the first `nr_wake` threads
  -- that wait at the first address are runnable, in order, the next `nr_requeue` wait at the end of
  -- those of the second address, in order, the rest stay in order, and the result is the number of
  -- the moved threads alone.
  pub futex_requeue_lem :
      (r : Futexes × ℕ) × (futex_requeue memory uaddr1 nr_wake uaddr2 nr_requeue f ≡ some r)
      × Requeued f old new (pos_part nr_wake) (pos_part nr_requeue) r
  unfolding futex_requeue
  futex_requeue_lem =
      let (r, e, a) = wakeup_some f ready inv uaddr1 old nr_wake v in
      elim (List-cases left) [
        | inl z ↦ (
          (record r.0 { futex_map = unlocked r.0.futex_map }, 0),
          rw (futex_requeue, e)
              (requeue_rest-none memory r.0 a.ready a.woke.queued uaddr1 uaddr2 nr_requeue
                (a.reads uaddr1 ∙ freed_entry (is_nil left) uaddr1 _ (ap is_nil z))),
          Requeued-none r a z,
        )
        | inr (t, ts, z) ↦
            let (s, g, b) =
              requeue_rest-some memory r.0 a.ready a.woke.queued uaddr1 uaddr2 old new nr_requeue
                (a.reads uaddr1 ∙ kept_entry (is_nil left) _ _ (ap is_nil z) ∙ v)
                (a.reads uaddr2 ∙ kept_entry (is_nil left) _ _ (ap is_nil z) ∙ w) ne in
            (s, rw (futex_requeue, e) g, Requeued-some r s a b)
      ]
