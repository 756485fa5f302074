-- ===== src/Atomic/Futex/Tests.antt =====
-- Futexes at concrete values.
use lkc.Base.{ℕ, ◌≡◌, refl, false, List, [], ◌∷◌, none, some, ◌==◌, if◌then◌else◌, arith, ◌⊎◌, elem}
use lkc.Base.Int.{pos}
use lkc.Klib.Hash.{HashTable, futex_map}
use lkc.Klib.Hash.Chains.{value_at, node_at, word}
use lkc.Klib.Hash.Refines.{view}
use lkc.Proc.Sched.{Threads, tcb_sleeping, tcb_running}
use lkc.Proc.Sched.Queued.{Queued}
use lkc.Atomic.Futex.{Futexes, at_address, futex_wakeup, futex_requeue}
use lkc.Atomic.Futex.Waking.{Ready, Unchanged, Awake, futex_wakeup_lem}
use lkc.Atomic.Futex.Requeue.{Requeued, futex_requeue_lem}

abbrev sleepers : List ℕ
sleepers = 1 ∷ 2 ∷ 3 ∷ []

-- Three threads wait in the futex 70 at the address 40; nobody waits in the futex 80 at 44.
abbrev asleep_three : Threads
asleep_three = record {
  state = λ t. if elem t sleepers then tcb_sleeping else tcb_running;
  t_states = λ s. if s == tcb_sleeping then sleepers else [];
  waiting = λ q. if q == 70 then sleepers else [];
  wait_chan_entry = λ t. if elem t sleepers then some 70 else none;
  time_out = λ t. 0;
}

asleep_three-Queued : Queued asleep_three
asleep_three-Queued = record {
  in_state = λ t s. ground arith;
  distinct = λ s. ground arith;
  waits_once = λ q. ground arith;
  one_queue = λ t p q a b. ground arith;
  sleeping = λ t q h. ground arith;
  somewhere = λ t h. (70, ground arith);
  entry = λ t. ground arith;
}

abbrev table : HashTable
table = record {
  locked = false;
  type = futex_map;
  size = 4;
  head = λ i.
      if i == 0
      then record { key = at_address 40; value = 70 }
        ∷ record { key = at_address 44; value = 80 }
        ∷ []
      else [];
}

table-Ready : Ready table
unfolding word
table-Ready = record {
  consistent = record { free = refl; sized = omega arith; distinct = λ i. ground arith };
  type = refl;
}

abbrev three_wait : Futexes
three_wait = record { threads = asleep_three; futex_map = table }

futex_wakeup_lem_example :
    (r : Futexes × ℕ) × (futex_wakeup 40 (pos 2) three_wait ≡ some r)
    × (((view table 40 ≡ none) × Unchanged three_wait r)
        ⊎ ((fp : ℕ) × (view table 40 ≡ some fp) × Awake three_wait 40 fp 2 r))
futex_wakeup_lem_example = futex_wakeup_lem three_wait table-Ready asleep_three-Queued 40 (pos 2)

table-view : (view table 40 ≡ some 70) × (view table 44 ≡ some 80)
unfolding view value_at node_at word
table-view = (refl, refl)

futex_requeue_lem_example :
    (r : Futexes × ℕ) × (futex_requeue none 40 (pos 1) 44 (pos 5) three_wait ≡ some r)
    × Requeued three_wait 70 80 1 5 r
futex_requeue_lem_example =
    futex_requeue_lem none three_wait table-Ready asleep_three-Queued 40 44 70 80 (pos 1) (pos 5)
      table-view.0 table-view.1 (λ e. ground arith)
