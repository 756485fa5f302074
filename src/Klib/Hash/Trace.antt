-- ===== src/Klib/Hash/Trace.antt =====
-- Any sequence of calls on a table of src/lib/hash.c, against the same calls on a finite map.
use mathlib.Core.Path.{subst}
use lkc.Base.{
  ℕ, ◌%◌, ◌<◌, ◌≡◌, refl, sym, ap, ◌∙◌, true, false, List, [], ◌∷◌, Option, none, some, ◌==◌,
  if◌then◌else◌,
}
use lkc.Base.Panic.{◌>>=◌}
use lkc.Klib.Hash.{
  HashType, HashKey, HashNode, HashTable, hash_lookup, hash_insert, hash_delete,
  hash_table_entry_init,
}
use lkc.Klib.Hash.Chains.{word, Fits, value_of, value_at, node_at}
use lkc.Klib.Hash.Refines.{
  Consistent, Becomes, view, node_of, hash_insert_lem, hash_delete_lem, hash_lookup_release,
}

-- A call; that of `hash_insert` comes with what the memory of the new node holds.
pub data Call : Type 0 where
  insert : HashKey → HashKey → ℕ → Call
  delete : HashKey → Call

unfoldable pub call : HashTable → Call → Option (HashTable × List ℕ)
call t (insert old key value) = hash_insert (some old) t key value false
call t (delete key) = hash_delete t key false true

unfoldable pub run : HashTable → List Call → Option HashTable
run t [] = some t
run t (c ∷ cs) = call t c >>= λ r. run r.0 cs

-- The same on a map from words to values
abbrev pub Dict : Type 0
Dict = ℕ → Option ℕ

abbrev pub set_key : Dict → ℕ → Option ℕ → Dict
set_key m w v = λ q. if w == q then v else m q

abbrev pub map_call : HashType → Dict → Call → Dict
map_call type m (insert old key value) = set_key m (word type key) (some value)
map_call type m (delete key) = set_key m (word type key) none

unfoldable pub map_run : HashType → Dict → List Call → Dict
map_run type m [] = m
map_run type m (c ∷ cs) = map_run type (map_call type m c) cs

abbrev pub FitCall : HashType → Call → Type 0
FitCall type (insert old key value) = Fits type key
FitCall type (delete key) = Unit

abbrev pub FitCalls : HashType → List Call → Type 0
FitCalls type [] = Unit
FitCalls type (c ∷ cs) = FitCall type c × FitCalls type cs

-- A consistent table that reads as `m`
pub record Represents (type : HashType) (m : Dict) (t : HashTable) : Type 0 where
  pub consistent : Consistent t
  pub kind : t.type ≡ type
  pub reads : (q : ℕ) → view t q ≡ m q

becomes :
    (type : HashType) (m : Dict) (t : HashTable) (key : HashKey) (v : Option ℕ)
    (r : HashTable × List ℕ)
    → Represents type m t
    → Becomes t key v r
    → Represents type (set_key m (word type key) v) r.0
becomes type m t key v r p b = record {
  consistent = b.consistent;
  kind = b.type ∙ p.kind;
  reads = λ q.
      b.reads q
      ∙ ap (λ ty. if word ty key == q then v else view t q) p.kind
      ∙ ap (λ o. if word type key == q then v else o) (p.reads q);
}

call_lem :
    (type : HashType) (m : Dict) (t : HashTable) (c : Call)
    → Represents type m t
    → FitCall type c
    → (r : HashTable × List ℕ) × (call t c ≡ some r) × Represents type (map_call type m c) r.0
unfolding call
call_lem type m t (insert old key value) p f =
    let (r, e, b) =
      hash_insert_lem t key p.consistent old value (subst (λ ty. Fits ty key) (sym p.kind) f) in
    (r, e, becomes type m t key (some value) r p b)
call_lem type m t (delete key) p f =
    let (r, e, b) = hash_delete_lem t key p.consistent in (r, e, becomes type m t key none r p b)

run_lem :
    (type : HashType) (cs : List Call) (m : Dict) (t : HashTable)
    → Represents type m t
    → FitCalls type cs
    → (t' : HashTable) × (run t cs ≡ some t') × Represents type (map_run type m cs) t'
unfolding run map_run
run_lem type [] m t p f = (t, refl, p)
run_lem type (c ∷ cs) m t p f =
    let (r, e, p') = call_lem type m t c p f.0 in
    let (t', e', p'') = run_lem type cs (map_call type m c) r.0 p' f.1 in (t', rw (e) e', p'')

-- What a lookup on the table finds, for every key
abbrev pub Finds : HashType → Dict → HashTable → Type 0
Finds type m t =
    (key : HashKey)
    → (r : HashTable × ℕ × Option HashNode) × (hash_lookup t key true false ≡ some r)
      × (value_of type r.2 ≡ m (word type key))

finds : (type : HashType) (m : Dict) (t : HashTable) → Represents type m t → Finds type m t
unfolding view value_at
finds type m t p key = (
  (record t { locked = false }, word t.type key % t.size, node_of t key),
  hash_lookup_release t key p.consistent.free,
  ap (λ ty. value_of ty (node_of t key)) (sym p.kind)
      ∙ p.reads (word t.type key)
      ∙ ap (λ ty. m (word ty key)) p.kind,
)

-- After `hash_table_entry_init` with memory for the chains, on a table that is not locked and whose
-- size is not 0, any sequence of calls of `hash_insert` and `hash_delete` returns, where kmalloc
-- finds memory for each new node and the names, in a table of names, are not empty and shorter than
-- 63 bytes; and then `hash_lookup` returns for every key and finds what a finite map holds after
-- the same calls, keys being the same where their numbers, their pointers or the hashes of their
-- names are equal.
pub run-Finds :
    (t0 : HashTable) (cs : List Call)
    → t0.locked ≡ false
    → 0 < t0.size
    → FitCalls t0.type cs
    → (t : HashTable) × ((hash_table_entry_init true t0 >>= λ t1. run t1 cs) ≡ some t)
      × Finds t0.type (map_run t0.type (λ q. none) cs) t
unfolding hash_table_entry_init view value_at node_at
run-Finds t0 cs e z f =
    let (t, r, p) =
      run_lem t0.type cs (λ q. none) (record t0 { head = λ i. [] })
        (record {
          consistent = record { free = e; sized = z; distinct = λ i. tt };
          kind = refl;
          reads = λ q. nothing q;
        })
        f in
    (t, r, finds t0.type _ t p)
  where
    nothing : (q : ℕ) → view (record t0 { head = λ i. [] }) q ≡ none
    nothing q = refl
