-- ===== src/Atomic/Futex.antt =====
-- The futexes of src/atomic/futex.c, on the threads of src/proc/sched.c and the hash table of
-- src/lib/hash.c.
--
-- A `struct futex` is the address of its waiting queue. What kzalloc and kmalloc give for a new futex and
-- the hash node of it are parameters, as is the word that copyin reads. The lock of the process makes
-- `futex_wakeup` and each half of `futex_requeue` one step. A panic is `none`.
pub mod Waking
pub mod Requeue
mod Tests
use lkc.Base.{
  ℕ, zero, suc, ◌+◌, ◌-◌, ◌*◌, ◌/◌, ◌%◌, ◌^◌, ◌≤◌, ◌<◌, Bool, true, false, List, [], Option, none,
  some, ltb, ◌==◌, if◌then◌else◌, update,
}
use lkc.Base.Int.{ℤ, pos, negsuc, pos_part}
use lkc.Base.Panic.{◌>>=◌}
use lkc.Klib.Hash.{HashKey, HashTable, HashNode, hash_lookup, hash_insert, hash_delete}
use lkc.Proc.Sched.{
  Threads, tcb_sleeping, tcb_q_change_state, queue_push_back, queue_isempty, thread_sched,
  wake_loop, requeue_loop,
}

pub record Futexes : Type 0 where
  pub threads : Threads
  pub futex_map : HashTable

-- Memory for a futex and its hash node: the address of the one, and what the other holds
abbrev pub NewFutex : Type 0
NewFutex = Option (ℕ × Option HashKey)

abbrev pub at_address : ℕ → HashKey
at_address uaddr = record { key_id = 0; key_p = uaddr; key_name = [] }

-- `futex_init`: the waiting queue is empty
abbrev pub futex_init : ℕ → Threads → Threads
futex_init fp w = record w { waiting = update w.waiting fp [] }

-- `get_futex`, with the futex, if any
unfoldable pub get_futex : NewFutex → ℕ → Bool → Futexes → Option (Futexes × Option ℕ)
get_futex memory uaddr must_exist f = hash_lookup f.futex_map (at_address uaddr) true false >>= λ l.
    elim l.2 [
      | some node ↦ some (record f { futex_map = l.0 }, some node.value)
      | none ↦
          if must_exist
          then some (record f { futex_map = l.0 }, none)
          else (memory >>= λ new. hash_insert new.1 l.0 (at_address uaddr) new.0 false >>= λ r.
              some (record { threads = futex_init new.0 f.threads; futex_map = r.0 }, some new.0))
    ]

unfoldable pub futex_free : ℕ → Futexes → Option Futexes
futex_free uaddr f = hash_delete f.futex_map (at_address uaddr) false true >>= λ r.
    some (record f { futex_map = r.0 })

pub data FutexOutcome : Type 0 where
  returned : ℤ → FutexOutcome
  sleeps : FutexOutcome

-- The sleep of the thread `t` in the queue `fp`, up to the switch to another thread
unfoldable pub futex_sleep : ℕ → ℕ → Option ℕ → Threads → Option Threads
futex_sleep t fp timeout w = tcb_q_change_state t tcb_sleeping w >>= λ w'.
    thread_sched t (record w' {
      waiting = queue_push_back w'.waiting fp t;
      time_out = elim timeout [ none ↦ w'.time_out | some ns ↦ update w'.time_out t ns ];
      wait_chan_entry = update w'.wait_chan_entry t (some fp);
    })

-- `futex_wait` of the thread `t`; `word` is what `copyin` reads, `timeout` in nanoseconds
unfoldable pub futex_wait :
    NewFutex → ℕ → Option ℕ → ℕ → ℕ → Option ℕ → Futexes → Option (Futexes × FutexOutcome)
futex_wait memory t word uaddr val timeout f = elim word [
  | none ↦ some (f, returned (negsuc 0))
  | some u_val ↦ elim (u_val == val) [
    | false ↦ some (f, returned (pos 0))
    | true ↦ get_futex memory uaddr false f >>= λ g. g.1 >>= λ fp.
        futex_sleep t fp timeout g.0.threads >>= λ w. some (record g.0 { threads = w }, sleeps)
  ]
]

-- The result of `futex_wait` after its sleep; `ret` is that of `thread_sched`
unfoldable pub futex_wait_end : Option ℕ → ℤ → ℤ
futex_wait_end none ret = pos 0
futex_wait_end (some ns) (pos n) = if n == 0 then pos 0 else negsuc 0
futex_wait_end (some ns) (negsuc n) = negsuc 0

-- `futex_free` where nobody waits any more
unfoldable pub free_if_empty : ℕ → ℕ → Futexes → Option Futexes
free_if_empty uaddr fp f = if queue_isempty f.threads.waiting fp then futex_free uaddr f else some f

unfoldable pub futex_wakeup : ℕ → ℤ → Futexes → Option (Futexes × ℕ)
futex_wakeup uaddr nr_wake f = get_futex none uaddr true f >>= λ g. elim g.1 [
  | none ↦ some (g.0, 0)
  | some fp ↦ wake_loop (pos_part nr_wake) fp g.0.threads >>= λ r.
      free_if_empty uaddr fp (record g.0 { threads = r.0 }) >>= λ f'. some (f', r.1)
]

-- `futex_requeue` after its call of `futex_wakeup`
unfoldable pub requeue_rest : NewFutex → ℕ → ℕ → ℤ → Futexes → Option (Futexes × ℕ)
requeue_rest memory uaddr1 uaddr2 nr_requeue f = get_futex none uaddr1 true f >>= λ g. elim g.1 [
  | none ↦ some (g.0, 0)
  | some fp_old ↦ get_futex memory uaddr2 false g.0 >>= λ h. h.1 >>= λ fp_new.
      requeue_loop (pos_part nr_requeue) fp_old fp_new h.0.threads >>= λ r.
      free_if_empty uaddr1 fp_old (record h.0 { threads = r.0 }) >>= λ f'. some (f', r.1)
]

unfoldable pub futex_requeue : NewFutex → ℕ → ℤ → ℕ → ℤ → Futexes → Option (Futexes × ℕ)
futex_requeue memory uaddr1 nr_wake uaddr2 nr_requeue f =
    futex_wakeup uaddr1 nr_wake f >>= λ r. requeue_rest memory uaddr1 uaddr2 nr_requeue r.0

-- A `uint32` as an `int`
abbrev pub to_int : ℕ → ℤ
to_int v = if ltb v (2 ^ 31) then pos v else negsuc (2 ^ 32 - 1 - v)

-- `op & ~(128 | 256)`
abbrev pub futex_cmd : ℕ → ℕ
futex_cmd op = op - op / 128 % 4 * 128

unfoldable pub do_futex :
    NewFutex
    → ℕ
    → Option ℕ
    → ℕ
    → ℕ
    → ℕ
    → Option ℕ
    → ℕ
    → ℕ
    → Futexes
    → Option (Futexes × FutexOutcome)
do_futex memory t word uaddr op val timeout uaddr2 val2 f =
    if futex_cmd op == 0
    then futex_wait memory t word uaddr val timeout f
    else if futex_cmd op == 1
    then (futex_wakeup uaddr (to_int val) f >>= λ r. some (r.0, returned (pos r.1)))
    else if futex_cmd op == 3
    then (futex_requeue memory uaddr (to_int val) uaddr2 (to_int val2) f >>= λ r.
        some (r.0, returned (pos r.1)))
    else none
