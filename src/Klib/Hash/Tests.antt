-- ===== src/Klib/Hash/Tests.antt =====
-- The hash tables at concrete values.
use lkc.Base.{ℕ, ◌≡◌, refl, true, false, List, [], ◌∷◌, none, some, arith}
use lkc.Base.Panic.{◌>>=◌}
use lkc.Klib.Hash.{HashKey, HashTable, tid_map, hash_table_entry_init, hash_str, hash_str_loop}
use lkc.Klib.Hash.Trace.{Call, Finds, map_run, run, run-Finds}

abbrev tid : ℕ → HashKey
tid n = record { key_id = n; key_p = 0; key_name = [] }

abbrev named : List ℕ → HashKey
named name = record { key_id = 0; key_p = 0; key_name = name }

abbrev table : HashTable
table = record { locked = false; type = tid_map; size = 4; head = λ i. [] }

-- 2 and 6 share a chain.
abbrev calls : List Call
calls =
    Call.insert (tid 0) (tid 2) 20
    ∷ Call.insert (tid 0) (tid 6) 60
    ∷ Call.insert (tid 0) (tid 2) 21
    ∷ Call.delete (tid 6)
    ∷ []

run-Finds_example :
    (t : HashTable) × ((hash_table_entry_init true table >>= λ t1. run t1 calls) ≡ some t)
    × Finds tid_map (map_run tid_map (λ q. none) calls) t
run-Finds_example = run-Finds table calls refl (omega arith) (tt, (tt, (tt, (tt, tt))))

-- "Aa" and "BB" have one hash: a table of names takes them for one key.
hash_str_collides : hash_str (65 ∷ 97 ∷ []) ≡ hash_str (66 ∷ 66 ∷ [])
unfolding hash_str hash_str_loop
hash_str_collides = refl
