-- ===== src/Ipc/Signal/Delivery.antt =====
-- One pass of `signal_handle` of src/ipc/signal.c over the pending list.
use lkc.Base.{
  ℕ, zero, suc, ◌+◌, ◌≡◌, ◌≢◌, refl, ap, ◌∙◌, Bool, true, false, ◌||◌, ◌==◌, List, [], ◌∷◌, length,
  some, arith, Bool-cases, inl, inr,
}
use lkc.Base.Int.{ℤ, pos, negsuc, dec}
use lkc.Base.Panic.{◌>>=◌}
use lkc.Ipc.Signal.{
  Layout, Handled, do_handle, signal_dfl, handle_loop, keep, with_queue, signal_handle,
  handle_pending,
}
use lkc.Ipc.Signal.Sets.{
  Tcb, SigInfo, UserMem, valid_signal, sig_ignored, sig_action, sig_dfl, sig_ign, sigkill,
}
use lkc.Ipc.Signal.Passes.{are_valid, Passed, dec_lem, after_default, keep-Passed, default-Passed}

signal_dfl_lem :
    (t : Tcb) (sig : ℕ) → (signal_dfl t sig).0 ≡ record t { killed = t.killed || sig == sigkill }
unfolding signal_dfl
signal_dfl_lem t sig = elim (Bool-cases (sig == sigkill)) [
  | inl e ↦ rw (signal_dfl, e) (ground arith)
  | inr e ↦ rw (signal_dfl, e) (ground arith)
]

module _ (lay : Layout) (t : Tcb) (mem : UserMem) (waits : ℕ) (q : SigInfo) (qs : List SigInfo)
    (v : valid_signal q.si_signo ≡ true) where
  pub handle_loop_blocked :
      sig_ignored t q.si_signo ≡ true
      → handle_loop lay t mem waits (q ∷ qs) ≡ (handle_loop lay t mem waits qs >>= keep lay q)
  unfolding handle_loop
  handle_loop_blocked i = rw (handle_loop, v, i) refl

  pub handle_loop_default :
      sig_ignored t q.si_signo ≡ false
      → ((sig_action t q.si_signo).sa_handler == sig_dfl) ≡ true
      → handle_loop lay t mem waits (q ∷ qs)
        ≡ handle_loop lay
            (after_default t (t.killed || q.si_signo == sigkill) (dec t.sig_pending_cnt))
            mem
            (waits + (signal_dfl t q.si_signo).1)
            qs
  unfolding handle_loop
  handle_loop_default i d = rw (handle_loop, v, i, d, signal_dfl_lem t q.si_signo) refl

  pub handle_loop_ignored :
      sig_ignored t q.si_signo ≡ false
      → ((sig_action t q.si_signo).sa_handler == sig_dfl) ≡ false
      → ((sig_action t q.si_signo).sa_handler == sig_ign) ≡ true
      → handle_loop lay t mem waits (q ∷ qs) ≡ (handle_loop lay t mem waits qs >>= keep lay q)
  unfolding handle_loop
  handle_loop_ignored i d g = rw (handle_loop, v, i, d, g) refl

  abbrev caught_at : Handled lay
  caught_at =
      let (t', mem') = do_handle lay t q.si_signo (sig_action t q.si_signo) mem in
      record {
        thread = record t' { sig_pending_cnt = dec t'.sig_pending_cnt; sig_ing = q.si_signo };
        queue = qs;
        mem = mem';
        waits = waits;
      }

  handle_loop_caught :
      sig_ignored t q.si_signo ≡ false
      → ((sig_action t q.si_signo).sa_handler == sig_dfl) ≡ false
      → ((sig_action t q.si_signo).sa_handler == sig_ign) ≡ false
      → handle_loop lay t mem waits (q ∷ qs) ≡ some caught_at
  unfolding handle_loop
  handle_loop_caught i d g = rw (handle_loop, v, i, d, g) refl

-- Where every number in the list is valid, the loop returns.
handle_loop_lem :
    (lay : Layout) (t : Tcb) (mem : UserMem) (waits : ℕ) (qs : List SigInfo)
    → are_valid qs ≡ true
    → (r : Handled lay) × (handle_loop lay t mem waits qs ≡ some r) × Passed lay t mem qs r
unfolding handle_loop do_handle
handle_loop_lem lay t mem waits [] v = (
  record { thread = t; queue = []; mem = mem; waits = waits },
  refl,
  (
    record {
      blocked = refl;
      action = refl;
      pending = refl;
      valid = refl;
      fewer = λ s h. h;
      distinct = λ d. d;
      count = λ n h. h;
    },
    inl (record {
      none_caught = refl;
      queue = refl;
      user = refl;
      frame = refl;
      current = refl;
      killed = ground arith;
    }),
  ),
)
handle_loop_lem lay t mem waits (q ∷ qs) v =
    let v1 : valid_signal q.si_signo ≡ true = ground arith in
    let v2 : are_valid qs ≡ true = ground arith in
    elim (Bool-cases (sig_ignored t q.si_signo)) [
      | inl i ↦
          let (r, e, p) = handle_loop_lem lay t mem waits qs v2 in
          (
            record r { queue = q ∷ r.queue },
            handle_loop_blocked lay t mem waits q qs v1 i ∙ ap (λ o. o >>= keep lay q) e,
            keep-Passed lay t mem q qs r (rw (i) refl) v1 p,
          )
      | inr i ↦ elim (Bool-cases ((sig_action t q.si_signo).sa_handler == sig_dfl)) [
        | inl d ↦
            let killed : Bool = t.killed || q.si_signo == sigkill in
            let (r, e, p) =
              handle_loop_lem lay (after_default t killed (dec t.sig_pending_cnt)) mem
                (waits + (signal_dfl t q.si_signo).1) qs v2 in
            (
              r,
              handle_loop_default lay t mem waits q qs v1 i d ∙ e,
              default-Passed lay t killed mem q qs r (ground arith) d refl p,
            )
        | inr d ↦ elim (Bool-cases ((sig_action t q.si_signo).sa_handler == sig_ign)) [
          | inl g ↦
              let (r, e, p) = handle_loop_lem lay t mem waits qs v2 in
              (
                record r { queue = q ∷ r.queue },
                handle_loop_ignored lay t mem waits q qs v1 i d g ∙ ap (λ o. o >>= keep lay q) e,
                keep-Passed lay t mem q qs r (rw (i, g) refl) v1 p,
              )
          | inr g ↦ (
            caught_at lay t mem waits q qs v1,
            handle_loop_caught lay t mem waits q qs v1 i d g,
            (
              record {
                blocked = refl;
                action = refl;
                pending = refl;
                valid = v2;
                fewer = λ s h. ground arith;
                distinct = λ d. d.1;
                count = λ n h. dec_lem t.sig_pending_cnt n (length qs) h;
              },
              inr (record {
                before = [];
                q = q;
                after = qs;
                list = refl;
                first = refl;
                caught = rw (i, d, g) refl;
                queue = refl;
                frame = refl;
                current = refl;
                killed = ground arith;
              }),
            ),
          )
        ]
      ]
    ]

counted :
    (lay : Layout) (t : Tcb) (mem : UserMem) (cnt : ℤ) (r : Handled lay)
    → cnt ≢ pos 0
    → handle_loop lay t mem 0 t.pending.list ≡ some r
    → handle_pending lay t mem cnt ≡ some (with_queue lay r, r.mem, r.waits, 1)
unfolding handle_pending
counted lay t mem (pos zero) r ne e = absurd (ne refl)
counted lay t mem (pos (suc n)) r ne e = rw (e) refl
counted lay t mem (negsuc n) r ne e = rw (e) refl

-- Where signals are counted as pending and every number in the list is valid, `signal_handle`
-- returns 1. Every signal that is blocked, or ignored by its action, stays pending, in order. Of
-- the others, those with the default action leave the list, up to the first one that is caught:
-- there the pass ends, with the rest of the list kept, its frame set up, its number in `sig_ing`
-- and the registers pointing to its handler. Where none is caught, the registers, `sig_ing` and the
-- memory stay as they are. The thread is killed exactly by a SIGKILL that leaves the list by
-- default. The mask and the actions do not change, and the count goes down with the length of the
-- list.
pub signal_handle_lem :
    (lay : Layout) (t : Tcb) (mem : UserMem)
    → are_valid t.pending.list ≡ true
    → t.sig_pending_cnt ≢ pos 0
    → (r : Handled lay) × (signal_handle lay t mem ≡ some (with_queue lay r, r.mem, r.waits, 1))
      × Passed lay t mem t.pending.list r
unfolding signal_handle
signal_handle_lem lay t mem v ne =
    let (r, e, p) = handle_loop_lem lay t mem 0 t.pending.list v in
    (r, counted lay t mem t.sig_pending_cnt r ne e, p)
