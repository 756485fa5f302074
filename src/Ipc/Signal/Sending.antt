-- ===== src/Ipc/Signal/Sending.antt =====
-- What `signal_send` of src/ipc/signal.c does to the pending signals of a thread.
use mathlib.Core.Path.{subst}
use lkc.Base.{
  ℕ, ◌≡◌, refl, sym, ap, ◌∙◌, Bool, true, false, ◌||◌, ◌==◌, if◌then◌else◌, List, [], ◌∷◌, ◌++◌,
  length, length-append, elem, IsDistinct, arith, Bool-cases, inl, inr,
}
use lkc.Base.Int.{pos, inc}
use lkc.Ipc.Signal.{Layout, Handled, signal_send, kills, kill_now, enqueue, with_queue}
use lkc.Ipc.Signal.Sets.{Tcb, SigInfo, bit_of, valid_signal, sig_is_member, sig_existed}
use lkc.Ipc.Signal.Passes.{are_valid, signos, Kept}

-- The list of accepted signals after a call of `signal_send` with the result `r`
abbrev pub accepted : ℕ → ℕ → List ℕ → List ℕ
accepted r sig acc = if r == 1 then sig ∷ acc else acc

pub record PendingSound (acc : List ℕ) (t : Tcb) : Type 0 where
  pub valid : are_valid t.pending.list ≡ true
  pub count : t.sig_pending_cnt ≡ pos (length t.pending.list)
  pub distinct : IsDistinct (signos t.pending.list)
  pub listed : (s : ℕ) → elem s acc ≡ false → elem s (signos t.pending.list) ≡ false
  pub members : (s : ℕ) → valid_signal s ≡ true → sig_is_member t.pending.signal s ≡ elem s acc
  pub once : IsDistinct acc

-- What another call keeps of a thread
pub same-PendingSound :
    (acc : List ℕ) (t t' : Tcb)
    → t'.pending ≡ t.pending
    → t'.sig_pending_cnt ≡ t.sig_pending_cnt
    → PendingSound acc t
    → PendingSound acc t'
same-PendingSound acc t t' p c s = record {
  valid = rw (p) s.valid;
  count = rw (p, c) s.count;
  distinct = rw (p) s.distinct;
  listed = rw (p) s.listed;
  members = rw (p) s.members;
  once = s.once;
}

are_valid-append :
    (qs : List SigInfo) (q : SigInfo)
    → are_valid qs ≡ true
    → valid_signal q.si_signo ≡ true
    → are_valid (qs ++ q ∷ []) ≡ true
are_valid-append [] q h v = rw (v) refl
are_valid-append (x ∷ qs) q h v = ground (arith, are_valid-append qs q)

elem-signos-append :
    (s : ℕ) (qs : List SigInfo) (q : SigInfo)
    → elem s (signos (qs ++ q ∷ [])) ≡ (elem s (signos qs) || s == q.si_signo)
elem-signos-append s [] q = ground arith
elem-signos-append s (x ∷ qs) q = ground (arith, elem-signos-append s qs q)

IsDistinct-signos-append :
    (qs : List SigInfo) (q : SigInfo)
    → IsDistinct (signos qs)
    → elem q.si_signo (signos qs) ≡ false
    → IsDistinct (signos (qs ++ q ∷ []))
IsDistinct-signos-append [] q d h = (refl, tt)
IsDistinct-signos-append (x ∷ qs) q d h = (
  ground (arith, elem-signos-append x.si_signo qs q),
  IsDistinct-signos-append qs q d.1 (ground arith),
)

bit_of_inj : (a b : ℕ) → valid_signal a ≡ true → valid_signal b ≡ true → bit_of a ≡ bit_of b → a ≡ b
bit_of_inj a b va vb e = ground arith

enqueue-PendingSound :
    (acc : List ℕ) (t : Tcb) (info : SigInfo)
    → PendingSound acc t
    → valid_signal info.si_signo ≡ true
    → sig_existed t info.si_signo ≡ false
    → PendingSound (info.si_signo ∷ acc) (enqueue info t)
enqueue-PendingSound acc t info s v e =
    let new : elem info.si_signo acc ≡ false = sym (s.members info.si_signo v) ∙ e in
    record {
      valid = are_valid-append t.pending.list info s.valid v;
      count = ap inc s.count ∙ ap pos (omega (arith, length-append t.pending.list (info ∷ [])));
      distinct =
          IsDistinct-signos-append t.pending.list info s.distinct (s.listed info.si_signo new);
      listed = λ x h. ground (arith, elem-signos-append x t.pending.list info, s.listed x);
      members = λ x vx. elim (Bool-cases (x == info.si_signo)) [
        | inl y ↦ ground arith
        | inr n ↦ ground (arith, s.members x vx, bit_of_inj x info.si_signo vx v)
      ];
      once = (new, s.once);
    }

signal_send_existed :
    (heap : Bool) (info : SigInfo) (t : Tcb)
    → sig_existed t info.si_signo ≡ true
    → signal_send heap info t ≡ (t, 0)
unfolding signal_send
signal_send_existed heap info t e = rw (signal_send, e) refl

signal_send_new :
    (heap : Bool) (info : SigInfo) (t : Tcb)
    → sig_existed t info.si_signo ≡ false
    → signal_send heap info t ≡ (
        if heap
        then (enqueue info (kill_now info.si_signo t), 1)
        else (kill_now info.si_signo t, 0))
unfolding signal_send
signal_send_new true info t e = rw (signal_send, e) refl
signal_send_new false info t e = rw (signal_send, e) refl

kill_now_keeps :
    (sig : ℕ) (t : Tcb)
    → ((kill_now sig t).pending ≡ t.pending)
      × ((kill_now sig t).sig_pending_cnt ≡ t.sig_pending_cnt)
kill_now_keeps sig t = elim (Bool-cases (kills sig)) [
  | inl e ↦ rw (e) (refl, refl)
  | inr e ↦ rw (e) (refl, refl)
]

kill_now-PendingSound :
    (acc : List ℕ) (sig : ℕ) (t : Tcb) → PendingSound acc t → PendingSound acc (kill_now sig t)
kill_now-PendingSound acc sig t s =
    let (p, c) = kill_now_keeps sig t in same-PendingSound acc t (kill_now sig t) p c s

abbrev AfterSend : List ℕ → ℕ → Tcb × ℕ → Type 0
AfterSend acc sig r = PendingSound (accepted r.1 sig acc) r.0

pub signal_send-PendingSound :
    (acc : List ℕ) (t : Tcb) (heap : Bool) (info : SigInfo)
    → PendingSound acc t
    → valid_signal info.si_signo ≡ true
    → AfterSend acc info.si_signo (signal_send heap info t)
signal_send-PendingSound acc t heap info s v = elim (Bool-cases (sig_existed t info.si_signo)) [
  | inl e ↦ subst (AfterSend acc info.si_signo) (sym (signal_send_existed heap info t e)) s
  | inr e ↦
      let u : Tcb = kill_now info.si_signo t in
      let su = kill_now-PendingSound acc info.si_signo t s in
      let eu : sig_existed u info.si_signo ≡ false =
        ap (λ p. sig_is_member p.signal info.si_signo) (kill_now_keeps info.si_signo t).0 ∙ e in
      subst (AfterSend acc info.si_signo) (sym (signal_send_new heap info t e)) (sent heap u su eu)
]
  where
    sent :
        (heap : Bool) (u : Tcb)
        → PendingSound acc u
        → sig_existed u info.si_signo ≡ false
        → AfterSend acc info.si_signo (if heap then (enqueue info u, 1) else (u, 0))
    sent true u su eu = enqueue-PendingSound acc u info su v eu
    sent false u su eu = su

pub Kept-PendingSound :
    (lay : Layout) (acc : List ℕ) (t : Tcb) (r : Handled lay)
    → Kept lay t t.pending.list r
    → PendingSound acc t
    → PendingSound acc (with_queue lay r)
Kept-PendingSound lay acc t r k s = record {
  valid = k.valid;
  count = k.count 0 (s.count ∙ ap pos (omega arith)) ∙ ap pos (omega arith);
  distinct = k.distinct s.distinct;
  listed = λ x h. k.fewer x (s.listed x h);
  members = λ x v. ap (λ p. sig_is_member p.signal x) k.pending ∙ s.members x v;
  once = s.once;
}
