-- ===== src/Atomic/Semaphore.antt =====
-- The counting semaphore: src/atomic/semaphore.c, on the condition variable of src/atomic/cond.c.
--
-- A thread is its tid. `waiting` is the waiting queue of `sem_cond`, first thread first. The lock
-- `sem_lock` makes the code between two sleeps one step; `sema_wait` is two functions, up to the first
-- `cond_wait` and from a return of `cond_wait` on. `value` does not overflow here.
pub mod System
pub mod Permits
mod Tests
use lkc.Base.{
  ℕ, zero, suc, ◌+◌, ◌-◌, Bool, true, false, List, [], ◌∷◌, ◌++◌, Option, none, some, ◌==◌,
  if◌then◌else◌,
}
use lkc.Base.Int.{ℤ, inc, dec, is_neg, is_nonpos}

pub record Sem : Type 0 where
  pub value : ℤ
  pub wakeup : ℕ
  pub waiting : List ℕ

abbrev pub sema_init : ℤ → Sem
sema_init value = record { value = value; wakeup = 0; waiting = [] }

-- `cond_wait`, up to the switch to another thread
abbrev pub cond_sleep : Sem → ℕ → Sem
cond_sleep s t = record s { waiting = s.waiting ++ (t ∷ []) }

-- `cond_signal`, with the thread that is made runnable
unfoldable pub cond_signal : Sem → Sem × Option ℕ
cond_signal s = elim s.waiting [ [] ↦ (s, none) | t ∷ ts ↦ (record s { waiting = ts }, some t) ]

-- `sema_wait` up to its end (`true`) or its first sleep (`false`)
unfoldable pub sema_wait : Sem → ℕ → Sem × Bool
sema_wait s t =
    let s' = record s { value = dec s.value } in
    if is_neg s'.value then (cond_sleep s' t, false) else (s', true)

-- `sema_wait` after a return of `cond_wait`: the test of the loop, then its end or one more sleep
unfoldable pub sema_resume : Sem → ℕ → Sem × Bool
sema_resume s t =
    if s.wakeup == 0 then (cond_sleep s t, false) else (record s { wakeup = s.wakeup - 1 }, true)

unfoldable pub sema_signal : Sem → Sem × Option ℕ
sema_signal s =
    let s' = record s { value = inc s.value } in
    if is_nonpos s'.value then cond_signal (record s' { wakeup = s'.wakeup + 1 }) else (s', none)
