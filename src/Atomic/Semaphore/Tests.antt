-- ===== src/Atomic/Semaphore/Tests.antt =====
-- Short runs of the semaphore of src/atomic/semaphore.c.
use lkc.Base.{ℕ, ◌+◌, ◌-◌, ◌≤◌, ◌<◌, ◌≡◌, refl, Bool, true, false, List, [], ◌∷◌}
use lkc.Base.Int.{pos, negsuc}
use lkc.Atomic.Semaphore.{Sem, cond_signal, sema_wait, sema_resume, sema_signal}
use lkc.Atomic.Semaphore.System.{
  System, Reach, init, next, wait_pass, wait_sleep, signal, resume_pass, interrupt, exit,
}
use lkc.Atomic.Semaphore.Permits.{Reach-Balance, Reach-NoLostWakeup, Reach-PermitsLost}

abbrev sem_with : ℕ → List ℕ → Sem
sem_with wakeup waiting = record { value = pos 0; wakeup = wakeup; waiting = waiting }

-- One permit: thread 1 takes it, thread 2 sleeps.
abbrev one_asleep : System
one_asleep = record {
  sem = record { value = negsuc 0; wakeup = 0; waiting = 2 ∷ [] };
  ready = [];
  passes = 1;
  signals = 0;
  exits = 0;
}

Reach-one_asleep : (kills : Bool) → Reach kills 1 one_asleep
unfolding sema_wait
Reach-one_asleep kills = next (next init (wait_pass 1 refl)) (wait_sleep 2 refl)

-- Thread 1 signals, thread 2 returns.
abbrev handed_over : System
handed_over = record { sem = sem_with 0 []; ready = []; passes = 2; signals = 1; exits = 0 }

Reach-handed_over : (kills : Bool) → Reach kills 1 handed_over
unfolding sema_resume sema_signal cond_signal
Reach-handed_over kills =
    next (next (Reach-one_asleep kills) (signal refl)) (resume_pass 2 refl refl)

-- Thread 2 is killed in its sleep, then thread 1 signals.
abbrev killed_asleep : System
killed_asleep = record { sem = sem_with 1 []; ready = []; passes = 1; signals = 1; exits = 1 }

Reach-killed_asleep : Reach true 1 killed_asleep
unfolding sema_resume sema_signal cond_signal
Reach-killed_asleep =
    next (next (next (Reach-one_asleep true) (interrupt 2 refl)) (exit 2 refl refl)) (signal refl)

Reach-Balance_example : (2 + 0 + 0 ≡ 1 + 1) × (2 ≤ 1 + 1)
Reach-Balance_example =
    Reach-Balance {kills = true} {permits = 1} {s = handed_over} (Reach-handed_over true)

Reach-NoLostWakeup_example : (0 ≤ 0) × (0 < 1 → one_asleep.ready ≡ [] → 1 ≡ 1 + 0)
Reach-NoLostWakeup_example =
    Reach-NoLostWakeup {permits = 1} {s = one_asleep} (Reach-one_asleep false)

Reach-PermitsLost_example : 0 ≡ 1 - 1
Reach-PermitsLost_example =
    Reach-PermitsLost {kills = true} {permits = 1} {s = killed_asleep} Reach-killed_asleep refl refl
      refl
