-- ===== src/Atomic/Futex/Waking.antt =====
-- `futex_wakeup` of src/atomic/futex.c.
use mathlib.Core.Path.{subst}
use lkc.Base.{
  ℕ, ◌%◌, ◌≡◌, refl, sym, ap, ◌∙◌, Bool, true, false, ◌&&◌, none, some, ◌==◌, if◌then◌else◌, drop,
  Bool-cases, Option-cases, inl, inr, ◌⊎◌,
}
use lkc.Base.Int.{ℤ, pos_part}
use lkc.Klib.Hash.{HashTable, HashNode, futex_map}
use lkc.Klib.Hash.Chains.{word, value_of, value_at, node_at}
use lkc.Klib.Hash.Refines.{Consistent, view, node_of, hash_lookup_release, hash_delete_lem}
use lkc.Proc.Sched.{Threads, is_nil}
use lkc.Proc.Sched.Queued.{Queued}
use lkc.Proc.Sched.Steps.{Woke, wake_loop_lem}
use lkc.Atomic.Futex.{
  Futexes, NewFutex, at_address, get_futex, futex_free, free_if_empty, futex_wakeup,
}

-- The table of futexes between two calls: a table of pointers, with its lock free
pub record Ready (t : HashTable) : Type 0 where
  pub consistent : Consistent t
  pub type : t.type ≡ futex_map

pub unlocked : HashTable → HashTable
unlocked t = record t { locked = false }

pub unlocked-Ready : (t : HashTable) → Ready t → Ready (unlocked t)
unfolding unlocked
unlocked-Ready t r = record {
  consistent = record { free = refl; sized = r.consistent.sized; distinct = r.consistent.distinct };
  type = r.type;
}

pub word_of : (t : HashTable) → Ready t → (uaddr : ℕ) → word t.type (at_address uaddr) ≡ uaddr
unfolding word
word_of t r uaddr = ap (λ ty. word ty (at_address uaddr)) r.type

-- The node of an address, by what the table says of it
pub node_value :
    (t : HashTable)
    → Ready t
    → (uaddr : ℕ) → value_of t.type (node_of t (at_address uaddr)) ≡ view t uaddr
unfolding view value_at
node_value t r uaddr =
    ap (λ w. value_of t.type (node_at t.type w (t.head (w % t.size)))) (word_of t r uaddr)

pub node_found :
    (t : HashTable) (uaddr fp : ℕ)
    → Ready t
    → view t uaddr ≡ some fp
    → (n : HashNode) × (node_of t (at_address uaddr) ≡ some n) × (n.value ≡ fp)
node_found t uaddr fp r v = elim (Option-cases (node_of t (at_address uaddr))) [
  | inl e ↦ absurd (clash (sym v ∙ sym (node_value t r uaddr) ∙ ap (value_of t.type) e))
  | inr (n, e) ↦ (n, e, same n (sym v ∙ sym (node_value t r uaddr) ∙ ap (value_of t.type) e))
]
  where
    clash : some fp ≡ none → ⊥
    clash c = cc

    same : (n : HashNode) → some fp ≡ some n.value → n.value ≡ fp
    same n c = cc

pub node_absent :
    (t : HashTable) (uaddr : ℕ)
    → Ready t
    → view t uaddr ≡ none
    → node_of t (at_address uaddr) ≡ none
node_absent t uaddr r v = elim (Option-cases (node_of t (at_address uaddr))) [
  | inl e ↦ e
  | inr (n, e) ↦ absurd (clash n (sym v ∙ sym (node_value t r uaddr) ∙ ap (value_of t.type) e))
]
  where
    clash : (n : HashNode) → none ≡ some n.value → ⊥
    clash n c = cc

pub with_threads : Futexes → Threads → HashTable → Futexes
with_threads f w t = record f { threads = w; futex_map = t }

module _ (f : Futexes) (r : Ready f.futex_map) (uaddr : ℕ) where
  pub get_futex_found :
      (memory : NewFutex) (must_exist : Bool) (fp : ℕ)
      → view f.futex_map uaddr ≡ some fp
      → get_futex memory uaddr must_exist f
        ≡ some (record f { futex_map = unlocked f.futex_map }, some fp)
  unfolding get_futex unlocked
  get_futex_found memory must_exist fp v =
      let (n, e, s) = node_found f.futex_map uaddr fp r v in
      rw (get_futex, hash_lookup_release f.futex_map (at_address uaddr) r.consistent.free, e, s)
        refl

  pub get_futex_absent :
      (memory : NewFutex)
      → view f.futex_map uaddr ≡ none
      → get_futex memory uaddr true f ≡ some (record f { futex_map = unlocked f.futex_map }, none)
  unfolding get_futex unlocked
  get_futex_absent memory v =
      let e = node_absent f.futex_map uaddr r v in
      rw (get_futex, hash_lookup_release f.futex_map (at_address uaddr) r.consistent.free, e) refl

  -- The table without the address
  pub futex_free_lem :
      (u : Futexes) × (futex_free uaddr f ≡ some u)
      × (u.threads ≡ f.threads)
      × Ready u.futex_map
      × ((q : ℕ) → view u.futex_map q ≡ (if uaddr == q then none else view f.futex_map q))
  unfolding futex_free
  futex_free_lem =
      let (d, e, b) = hash_delete_lem f.futex_map (at_address uaddr) r.consistent in
      (
        record f { futex_map = d.0 },
        rw (futex_free, e) refl,
        refl,
        record { consistent = b.consistent; type = b.type ∙ r.type },
        λ q.
            b.reads q
            ∙ ap (λ w. if w == q then none else view f.futex_map q) (word_of f.futex_map r uaddr),
      )

  pub free_if_empty_lem :
      (fp : ℕ)
      → (u : Futexes) × (free_if_empty uaddr fp f ≡ some u)
        × (u.threads ≡ f.threads)
        × Ready u.futex_map
        × ((q : ℕ)
            → view u.futex_map q
              ≡ (if is_nil (f.threads.waiting fp) && uaddr == q then none else view f.futex_map q))
  unfolding free_if_empty
  free_if_empty_lem fp = elim (Bool-cases (is_nil (f.threads.waiting fp))) [
    | inl e ↦ let (u, a, b, c, d) = futex_free_lem in (u, rw (free_if_empty, e) a, b, c, rw (e) d)
    | inr e ↦ (f, rw (free_if_empty, e) refl, refl, r, rw (e) (λ q. refl))
  ]

-- What a call that finds the futex `fp` at the address leaves, with the number that it returns
pub record Awake (f : Futexes) (uaddr fp k : ℕ) (r : Futexes × ℕ) : Type 0 where
  pub woke : Woke f.threads fp k (r.0.threads, r.1)
  pub ready : Ready r.0.futex_map
  pub reads :
      (q : ℕ)
      → view r.0.futex_map q ≡ (
          if is_nil (drop k (f.threads.waiting fp)) && uaddr == q then none else view f.futex_map q)

-- What a call that finds none leaves
pub record Unchanged (f : Futexes) (r : Futexes × ℕ) : Type 0 where
  pub count : r.1 ≡ 0
  pub threads : r.0.threads ≡ f.threads
  pub ready : Ready r.0.futex_map
  pub reads : (q : ℕ) → view r.0.futex_map q ≡ view f.futex_map q

pub view-unlocked : (t : HashTable) (q : ℕ) → view (unlocked t) q ≡ view t q
unfolding view unlocked
view-unlocked t q = refl

module _ (f : Futexes) (ready : Ready f.futex_map) (inv : Queued f.threads) where
  wakeup_nothing :
      (uaddr : ℕ) (nr_wake : ℤ)
      → view f.futex_map uaddr ≡ none
      → (r : Futexes × ℕ) × (futex_wakeup uaddr nr_wake f ≡ some r) × Unchanged f r
  unfolding futex_wakeup
  wakeup_nothing uaddr nr_wake v = (
    (record f { futex_map = unlocked f.futex_map }, 0),
    rw (futex_wakeup, get_futex_absent f ready uaddr none v) refl,
    record {
      count = refl;
      threads = refl;
      ready = unlocked-Ready f.futex_map ready;
      reads = view-unlocked f.futex_map;
    },
  )

  pub wakeup_some :
      (uaddr fp : ℕ) (nr_wake : ℤ)
      → view f.futex_map uaddr ≡ some fp
      → (r : Futexes × ℕ) × (futex_wakeup uaddr nr_wake f ≡ some r)
        × Awake f uaddr fp (pos_part nr_wake) r
  unfolding futex_wakeup
  wakeup_some uaddr fp nr_wake v =
      let (r, e, i) = wake_loop_lem (pos_part nr_wake) fp f.threads inv in
      let g : Futexes = record { threads = r.0; futex_map = unlocked f.futex_map } in
      let (u, a, b, c, d) = free_if_empty_lem g (unlocked-Ready f.futex_map ready) uaddr fp in
      (
        (u, r.1),
        rw (futex_wakeup, get_futex_found f ready uaddr none true fp v, e, a) refl,
        record {
          woke = subst (λ w. Woke f.threads fp (pos_part nr_wake) (w, r.1)) (sym b) i;
          ready = c;
          reads = λ q.
              d q
              ∙ ap (λ l. if is_nil l && uaddr == q then none else view (unlocked f.futex_map) q)
                  i.rest
              ∙ ap
                  (λ o.
                    if is_nil (drop (pos_part nr_wake) (f.threads.waiting fp)) && uaddr == q
                    then none
                    else o)
                  (view-unlocked f.futex_map q);
        },
      )

  -- On queues that satisfy the invariant and a table of futexes between two calls, `futex_wakeup`
  -- returns. Where the table has no futex at the address, it returns 0 and changes no thread and no
  -- entry of the table. Otherwise it makes the first `nr_wake` waiting threads, or all if there are
  -- fewer, runnable in their order, returns their number, keeps the rest waiting in order and all
  -- other queues as they are, and takes the futex out of the table exactly if nobody waits any
  -- more.
  pub futex_wakeup_lem :
      (uaddr : ℕ) (nr_wake : ℤ)
      → (r : Futexes × ℕ) × (futex_wakeup uaddr nr_wake f ≡ some r)
        × (((view f.futex_map uaddr ≡ none) × Unchanged f r)
            ⊎ ((fp : ℕ) × (view f.futex_map uaddr ≡ some fp)
                × Awake f uaddr fp (pos_part nr_wake) r))
  futex_wakeup_lem uaddr nr_wake = elim (Option-cases (view f.futex_map uaddr)) [
    | inl v ↦ let (r, e, i) = wakeup_nothing uaddr nr_wake v in (r, e, inl (v, i))
    | inr (fp, v) ↦ let (r, e, i) = wakeup_some uaddr fp nr_wake v in (r, e, inr (fp, v, i))
  ]
