-- ===== src/Proc/Sched.antt =====
-- Threads and their queues: src/proc/sched.c on src/lib/queue.c, and src/atomic/cond.c.
--
-- A thread and a queue are numbers, a family of queues of one type a function from queues to lists of
-- threads, first thread first. A node is linked into its queue by one list head, so that to remove it
-- takes it out of whatever queue of the family it is in. A panic, a failed ASSERT and a null pointer that
-- is followed are `none`. The lock of a queue makes each of its operations one step.
pub mod Queued
pub mod Steps
pub mod Life
pub mod Requeueing
pub mod Returns
mod Tests
use lkc.Base.{
  ℕ, zero, suc, ◌+◌, ◌%◌, Bool, true, false, not, ◌&&◌, List, [], ◌∷◌, ◌++◌, Option, none, some,
  ◌==◌, if◌then◌else◌, update, erase,
}
use lkc.Base.Panic.{◌>>=◌, ◌>>◌, assert}

-- `enum thread_state`
abbrev pub tcb_unused : ℕ
tcb_unused = 0

abbrev pub tcb_used : ℕ
tcb_used = 1

abbrev pub tcb_runnable : ℕ
tcb_runnable = 2

abbrev pub tcb_running : ℕ
tcb_running = 3

abbrev pub tcb_sleeping : ℕ
tcb_sleeping = 4

abbrev pub Queues : Type 0
Queues = ℕ → List ℕ

abbrev pub is_nil : List ℕ → Bool
is_nil [] = true
is_nil (t ∷ ts) = false

abbrev pub queue_isempty : Queues → ℕ → Bool
queue_isempty qs q = is_nil (qs q)

abbrev pub queue_push_back : Queues → ℕ → ℕ → Queues
queue_push_back qs q t = update qs q (qs q ++ t ∷ [])

abbrev pub queue_remove : Queues → ℕ → Queues
queue_remove qs t = λ q. erase t (qs q)

-- `Queue_pop`, which removes the node
abbrev pub first_node : List ℕ → Option ℕ
first_node [] = none
first_node (t ∷ ts) = some t

unfoldable pub queue_pop : Queues → ℕ → Option (ℕ × Queues)
queue_pop qs q = first_node (qs q) >>= λ t. some (t, queue_remove qs t)

-- `state` and `wait_chan_entry` by thread, `t_states` by state, `waiting` by the address of the queue
pub record Threads : Type 0 where
  pub state : ℕ → ℕ
  pub t_states : Queues
  pub waiting : Queues
  pub wait_chan_entry : ℕ → Option ℕ
  pub time_out : ℕ → ℕ

-- `TCB_Q_changeState`; there is no queue of running threads
unfoldable pub tcb_q_change_state : ℕ → ℕ → Threads → Option Threads
tcb_q_change_state t new w =
    if new == tcb_running
    then none
    else some (record w {
      t_states = queue_push_back (queue_remove w.t_states t) new t;
      state = update w.state t new;
    })

-- `thread_sched`, up to the switch to the scheduler
abbrev pub thread_sched : ℕ → Threads → Option Threads
thread_sched t w = if w.state t == tcb_running then none else some w

unfoldable pub thread_yield : ℕ → Threads → Option Threads
thread_yield t w = tcb_q_change_state t tcb_runnable w >>= thread_sched t

abbrev pub is_some : Option ℕ → Bool
is_some none = false
is_some (some q) = true

-- `thread_wakeup` and `thread_wakeup_atomic`
unfoldable pub thread_wakeup : ℕ → Threads → Option Threads
thread_wakeup t w =
    assert (is_some (w.wait_chan_entry t))
    >> assert (w.state t == tcb_sleeping)
    >> tcb_q_change_state t tcb_runnable (record w {
      waiting = queue_remove w.waiting t;
      wait_chan_entry = update w.wait_chan_entry t none;
    })

-- One round of `thread_scheduler`: the thread that runs, if any
unfoldable pub thread_schedule : Threads → Threads × Option ℕ
thread_schedule w = elim (queue_pop w.t_states tcb_runnable) [
  | none ↦ (w, none)
  | some r ↦ (record w { t_states = r.1; state = update w.state r.0 tcb_running }, some r.0)
]

-- `cond_wait` on the queue `q`, up to the switch to another thread
unfoldable pub cond_wait : ℕ → ℕ → Threads → Option Threads
cond_wait t q w = tcb_q_change_state t tcb_sleeping w >>= λ w'. thread_sched t (record w' {
  waiting = queue_push_back w'.waiting q t;
  wait_chan_entry = update w'.wait_chan_entry t (some q);
})

-- The body of the loops that wake the first thread of a queue; it is there
unfoldable pub wake_first : ℕ → Threads → Option Threads
wake_first q w = queue_pop w.waiting q >>= λ r.
    assert (w.state r.0 == tcb_sleeping)
    >> assert (is_some (w.wait_chan_entry r.0))
    >> tcb_q_change_state r.0 tcb_runnable
        (record w { waiting = r.1; wait_chan_entry = update w.wait_chan_entry r.0 none })

unfoldable pub cond_signal : ℕ → Threads → Option Threads
cond_signal q w = if queue_isempty w.waiting q then some w else wake_first q w

-- `cond_broadcast`, on fuel
unfoldable pub cond_broadcast : ℕ → ℕ → Threads → Option Threads
cond_broadcast zero q w = none
cond_broadcast (suc fuel) q w = elim (queue_isempty w.waiting q) [
  | true ↦ some w
  | false ↦ wake_first q w >>= cond_broadcast fuel q
]

-- The loop of `futex_wakeup` with `k` threads to go, and the number of threads that it wakes
unfoldable pub wake_loop : ℕ → ℕ → Threads → Option (Threads × ℕ)
wake_loop zero q w = some (w, 0)
wake_loop (suc k) q w = elim (queue_isempty w.waiting q) [
  | true ↦ some (w, 0)
  | false ↦ wake_first q w >>= λ w'. wake_loop k q w' >>= λ r. some (r.0, suc r.1)
]

-- The loop of `futex_requeue`, from the queue `old` to the queue `new`
unfoldable pub requeue_loop : ℕ → ℕ → ℕ → Threads → Option (Threads × ℕ)
requeue_loop zero old new w = some (w, 0)
requeue_loop (suc k) old new w = elim (queue_isempty w.waiting old) [
  | true ↦ some (w, 0)
  | false ↦ queue_pop w.waiting old >>= λ r.
      assert (w.state r.0 == tcb_sleeping)
      >> requeue_loop k old new (record w { waiting = queue_push_back r.1 new r.0 })
      >>= λ s. some (s.0, suc s.1)
]
