-- ===== src/Proc/Sched/Tests.antt =====
-- Threads and queues at concrete values.
use lkc.Base.{ℕ, refl, List, [], ◌∷◌, some, update, arith, IsDistinct}
use lkc.Proc.Sched.{
  Threads, tcb_runnable, tcb_sleeping, tcb_q_change_state, thread_schedule, cond_wait, queue_pop,
  queue_push_back, queue_remove,
}
use lkc.Proc.Sched.Queued.{Queued}
use lkc.Proc.Sched.Life.{Reach, start, scheduled, Reach-Queued}
use lkc.Proc.Sched.Returns.{Returns, Reach-Returns}

abbrev three : List ℕ
three = 1 ∷ 2 ∷ 3 ∷ []

-- Thread 2 is made runnable, runs, and waits in the queue 70.
abbrev ready_two : Threads
ready_two = record (start three) {
  t_states = queue_push_back (queue_remove (start three).t_states 2) tcb_runnable 2;
  state = update (start three).state 2 tcb_runnable;
}

abbrev two_waits : Threads
two_waits = record (scheduled ready_two) {
  t_states = queue_push_back (queue_remove (scheduled ready_two).t_states 2) tcb_sleeping 2;
  state = update (scheduled ready_two).state 2 tcb_sleeping;
  waiting = queue_push_back (scheduled ready_two).waiting 70 2;
  wait_chan_entry = update (scheduled ready_two).wait_chan_entry 2 (some 70);
}

three-IsDistinct : IsDistinct three
three-IsDistinct = (refl, (refl, (refl, tt)))

ready_two-Reach : Reach three ready_two
unfolding tcb_q_change_state
ready_two-Reach =
    Reach.change 2 tcb_runnable Reach.init (λ e. ground arith) (λ e. ground arith) refl

two_waits-Reach : Reach three two_waits
unfolding tcb_q_change_state thread_schedule queue_pop cond_wait
two_waits-Reach = Reach.wait 2 70 (Reach.schedule ready_two-Reach) refl refl

Reach-Queued_example : Queued two_waits
Reach-Queued_example = Reach-Queued three-IsDistinct two_waits-Reach

Reach-Returns_example : Returns two_waits
Reach-Returns_example = Reach-Returns three-IsDistinct two_waits-Reach
