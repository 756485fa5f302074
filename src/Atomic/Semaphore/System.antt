-- ===== src/Atomic/Semaphore/System.antt =====
-- The threads that use one semaphore of src/atomic/semaphore.c, interleaved in any order: calls, signals
-- from src/proc/tcb_life.c, and the `do_exit` in `cond_wait` of src/atomic/cond.c.
use lkc.Base.{ℕ, ◌+◌, ◌≡◌, Bool, true, false, List, [], ◌∷◌, Option, none, some, elem, erase}
use lkc.Base.Int.{pos}
use lkc.Atomic.Semaphore.{Sem, sema_init, sema_wait, sema_resume, sema_signal}

-- `ready` holds the threads that were woken and have not returned from `cond_wait` yet. The counters
-- are no part of the code: calls of `sema_wait` that returned, calls of `sema_signal`, threads that
-- exited in `cond_wait`.
pub record System : Type 0 where
  pub sem : Sem
  pub ready : List ℕ
  pub passes : ℕ
  pub signals : ℕ
  pub exits : ℕ

abbrev pub start : ℕ → System
start permits = record {
  sem = sema_init (pos permits);
  ready = [];
  passes = 0;
  signals = 0;
  exits = 0;
}

abbrev pub made_ready : Option ℕ → List ℕ → List ℕ
made_ready none ready = ready
made_ready (some t) ready = t ∷ ready

-- `kills` tells whether threads are killed.
pub data Step (kills : Bool) (s : System) : System → Type 0 where
  wait_pass :
      (t : ℕ) {m : Sem}
      → sema_wait s.sem t ≡ (m, true)
      → Step kills s (record s { sem = m; passes = s.passes + 1 })
  wait_sleep :
      (t : ℕ) {m : Sem} → sema_wait s.sem t ≡ (m, false) → Step kills s (record s { sem = m })
  signal :
      {m : Sem} {woken : Option ℕ}
      → sema_signal s.sem ≡ (m, woken)
      → Step kills s
          (record s { sem = m; ready = made_ready woken s.ready; signals = s.signals + 1 })
  resume_pass :
      (t : ℕ) {m : Sem}
      → elem t s.ready ≡ true
      → sema_resume s.sem t ≡ (m, true)
      → Step kills s (record s { sem = m; ready = erase t s.ready; passes = s.passes + 1 })
  resume_sleep :
      (t : ℕ) {m : Sem}
      → elem t s.ready ≡ true
      → sema_resume s.sem t ≡ (m, false)
      → Step kills s (record s { sem = m; ready = erase t s.ready })
  -- `thread_wakeup` of a sleeping thread that is sent a signal
  interrupt :
      (t : ℕ)
      → elem t s.sem.waiting ≡ true
      → Step kills s
          (record s { sem = record s.sem { waiting = erase t s.sem.waiting }; ready = t ∷ s.ready })
  -- `do_exit` of a killed thread after its wake-up
  exit :
      (t : ℕ)
      → kills ≡ true
      → elem t s.ready ≡ true
      → Step kills s (record s { ready = erase t s.ready; exits = s.exits + 1 })

pub data Reach (kills : Bool) (permits : ℕ) : System → Type 0 where
  init : Reach kills permits (start permits)
  next : {s u : System} → Reach kills permits s → Step kills s u → Reach kills permits u
