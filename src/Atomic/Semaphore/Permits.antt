-- ===== src/Atomic/Semaphore/Permits.antt =====
-- What the semaphore of src/atomic/semaphore.c promises: it hands out no more permits than there are, and
-- no thread sleeps while a permit is to be had.
use lkc.Base.{
  ℕ, ◌+◌, ◌-◌, ◌≤◌, ◌<◌, ◌≡◌, refl, Bool, true, false, [], ◌∷◌, Option, arith, length,
  length-append, length-erase, elem, erase, ◌∙◌,
}
use lkc.Base.Int.{pos_part, neg_part, inc_parts}
use lkc.Atomic.Semaphore.{Sem, cond_signal, sema_wait, sema_resume, sema_signal}
use lkc.Atomic.Semaphore.System.{
  System, start, made_ready, Step, wait_pass, wait_sleep, signal, resume_pass, resume_sleep,
  interrupt, exit, Reach, init, next,
}

pub record Inv (permits : ℕ) (s : System) : Type 0 where
  pub balance : s.passes + s.sem.wakeup + pos_part s.sem.value ≡ permits + s.signals
  pub sleepers :
      length s.sem.waiting + length s.ready + s.exits ≡ s.sem.wakeup + neg_part s.sem.value
  pub tokens : s.sem.wakeup ≤ length s.ready + s.exits

Inv-wait_pass :
    {permits : ℕ} {s : System} (t : ℕ) {m : Sem}
    → sema_wait s.sem t ≡ (m, true)
    → Inv permits s
    → Inv permits (record s { sem = m; passes = s.passes + 1 })
unfolding sema_wait
Inv-wait_pass t e v = ground arith

Inv-wait_sleep :
    {permits : ℕ} {s : System} (t : ℕ) {m : Sem}
    → sema_wait s.sem t ≡ (m, false)
    → Inv permits s
    → Inv permits (record s { sem = m })
unfolding sema_wait
Inv-wait_sleep {s} t e v = ground (arith, length-append s.sem.waiting (t ∷ []))

Inv-signal :
    {permits : ℕ} {s : System} (m : Sem) (woken : Option ℕ)
    → sema_signal s.sem ≡ (m, woken)
    → Inv permits s
    → Inv permits (record s { sem = m; ready = made_ready woken s.ready; signals = s.signals + 1 })
unfolding sema_signal cond_signal
Inv-signal {s} m woken e v = ground (arith, inc_parts s.sem.value)

Inv-resume_pass :
    {permits : ℕ} {s : System} (t : ℕ) {m : Sem}
    → elem t s.ready ≡ true
    → sema_resume s.sem t ≡ (m, true)
    → Inv permits s
    → Inv permits (record s { sem = m; ready = erase t s.ready; passes = s.passes + 1 })
unfolding sema_resume
Inv-resume_pass {s} t h e v = ground (arith, length-erase t s.ready h)

Inv-resume_sleep :
    {permits : ℕ} {s : System} (t : ℕ) {m : Sem}
    → elem t s.ready ≡ true
    → sema_resume s.sem t ≡ (m, false)
    → Inv permits s
    → Inv permits (record s { sem = m; ready = erase t s.ready })
unfolding sema_resume
Inv-resume_sleep {s} t h e v =
    ground (arith, length-erase t s.ready h, length-append s.sem.waiting (t ∷ []))

Inv-interrupt :
    {permits : ℕ} {s : System} (t : ℕ)
    → elem t s.sem.waiting ≡ true
    → Inv permits s
    → Inv permits
        (record s { sem = record s.sem { waiting = erase t s.sem.waiting }; ready = t ∷ s.ready })
Inv-interrupt {s} t h v = ground (arith, length-erase t s.sem.waiting h)

Inv-exit :
    {permits : ℕ} {s : System} (t : ℕ)
    → elem t s.ready ≡ true
    → Inv permits s
    → Inv permits (record s { ready = erase t s.ready; exits = s.exits + 1 })
Inv-exit {s} t h v = ground (arith, length-erase t s.ready h)

Step-Inv :
    {kills : Bool} {permits : ℕ} {s u : System} → Step kills s u → Inv permits s → Inv permits u
Step-Inv (wait_pass t e) v = Inv-wait_pass t e v
Step-Inv (wait_sleep t e) v = Inv-wait_sleep t e v
Step-Inv (signal {m} {woken} e) v = Inv-signal m woken e v
Step-Inv (resume_pass t h e) v = Inv-resume_pass t h e v
Step-Inv (resume_sleep t h e) v = Inv-resume_sleep t h e v
Step-Inv (interrupt t h) v = Inv-interrupt t h v
Step-Inv (exit t k h) v = Inv-exit t h v

start-Inv : (permits : ℕ) → Inv permits (start permits)
start-Inv permits = ground arith

Reach-Inv : {kills : Bool} {permits : ℕ} {s : System} → Reach kills permits s → Inv permits s
Reach-Inv {permits} init = start-Inv permits
Reach-Inv (next r t) = Step-Inv t (Reach-Inv r)

-- Without kills no thread exits.
Step-exits : {s u : System} → Step false s u → u.exits ≡ s.exits
Step-exits (wait_pass t e) = refl
Step-exits (wait_sleep t e) = refl
Step-exits (signal e) = refl
Step-exits (resume_pass t h e) = refl
Step-exits (resume_sleep t h e) = refl
Step-exits (interrupt t h) = refl
Step-exits (exit t k h) = absurd (ground arith)

Reach-exits : {permits : ℕ} {s : System} → Reach false permits s → s.exits ≡ 0
Reach-exits init = refl
Reach-exits (next r t) = Step-exits t ∙ Reach-exits r

-- In every reachable state of the threads on one semaphore, killed threads included, the returned
-- calls of `sema_wait`, the wake-up tokens and the positive part of the value are together the
-- initial permits and the signals; so no more calls return than there were permits and signals.
pub Reach-Balance :
    {kills : Bool} {permits : ℕ} {s : System}
    → Reach kills permits s
    → (s.passes + s.sem.wakeup + pos_part s.sem.value ≡ permits + s.signals)
      × (s.passes ≤ permits + s.signals)
Reach-Balance r = let v = Reach-Inv r in ground arith

-- In every state that is reachable without kills there are at most as many wake-up tokens as
-- threads that were woken and have not run yet; and when a thread sleeps and none is woken, as many
-- calls of `sema_wait` returned as there are permits and signals.
pub Reach-NoLostWakeup :
    {permits : ℕ} {s : System}
    → Reach false permits s
    → (s.sem.wakeup ≤ length s.ready)
      × (0 < length s.sem.waiting → s.ready ≡ [] → s.passes ≡ permits + s.signals)
Reach-NoLostWakeup r = let v = Reach-Inv r in let e = Reach-exits r in ground arith

-- In a reachable state in which no thread sleeps or is woken and as many signals as returned calls
-- of `sema_wait` were made, the positive part of the value is the initial permits less the threads
-- killed in `cond_wait`.
pub Reach-PermitsLost :
    {kills : Bool} {permits : ℕ} {s : System}
    → Reach kills permits s
    → s.sem.waiting ≡ []
    → s.ready ≡ []
    → s.signals ≡ s.passes
    → pos_part s.sem.value ≡ permits - s.exits
Reach-PermitsLost r w q e = let v = Reach-Inv r in ground arith
