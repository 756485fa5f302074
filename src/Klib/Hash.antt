-- ===== src/Klib/Hash.antt =====
-- The hash tables of src/lib/hash.c and include/lib/hash.h.
--
-- A table is read by its chains. What a `void *key` points to is seen in its three readings, of which the
-- type of the table chooses one. A lock that is taken twice or released while free, and a null pointer
-- that is followed, are `none`. Beside its result an operation returns the values that it frees.
pub mod Chains
pub mod Refines
pub mod Trace
mod Tests
use lkc.Base.{
  ℕ, zero, suc, ◌+◌, ◌*◌, ◌%◌, ◌^◌, Bool, true, false, not, ◌&&◌, ◌||◌, List, [], ◌∷◌, ◌++◌, Option,
  none, some, ltb, ◌==◌, if◌then◌else◌, length, update,
}
use lkc.Base.Panic.{◌>>=◌}

pub data HashType : Type 0 where
  pid_map tid_map ipc_idx_map futex_map inode_map : HashType

-- `NAME_LONG_MAX / 4`
abbrev pub name_max : ℕ
name_max = 63

pub record HashKey : Type 0 where
  pub key_id : ℕ
  pub key_p : ℕ
  pub key_name : List ℕ

pub record HashNode : Type 0 where
  pub key : HashKey
  pub value : ℕ

pub record HashTable : Type 0 where
  pub locked : Bool
  pub type : HashType
  pub size : ℕ
  pub head : ℕ → List HashNode

-- `acquire(&table->lock)` and `release(&table->lock)`
abbrev pub acquire : HashTable → Option HashTable
acquire table = if table.locked then none else some (record table { locked = true })

abbrev pub release : HashTable → Option HashTable
release table = if table.locked then some (record table { locked = false }) else none

abbrev pub release_if : Bool → HashTable → Option HashTable
release_if flag table = if flag then release table else some table

-- The loop of `hash_str`
unfoldable pub hash_str_loop : ℕ → List ℕ → ℕ
hash_str_loop h [] = h
hash_str_loop h (c ∷ cs) = hash_str_loop ((h * 31 + c) % 2 ^ 64) cs

unfoldable pub hash_str : List ℕ → ℕ
hash_str name = hash_str_loop 0 name

unfoldable pub hash_index : HashType → ℕ → HashKey → ℕ
hash_index pid_map size key = key.key_id % size
hash_index tid_map size key = key.key_id % size
hash_index ipc_idx_map size key = key.key_id % size
hash_index futex_map size key = key.key_p % size
hash_index inode_map size key = hash_str key.key_name % size

-- `hash_get_entry`: the index of the chain, and the table with its lock taken
unfoldable pub hash_get_entry : HashTable → HashKey → Bool → Option (HashTable × ℕ)
hash_get_entry table key holding = (if holding then some table else acquire table) >>= λ table'.
    some (table', hash_index table.type table.size key)

-- `hash_val`, whose case of FUTEX_MAP goes on into that of INODE_MAP
unfoldable pub hash_val : HashType → HashNode → ℕ
hash_val pid_map node = node.key.key_id
hash_val tid_map node = node.key.key_id
hash_val ipc_idx_map node = node.key.key_id
hash_val futex_map node = hash_str node.key.key_name
hash_val inode_map node = hash_str node.key.key_name

unfoldable pub hash_bool : HashType → HashNode → HashKey → Bool
hash_bool pid_map node key = node.key.key_id == key.key_id
hash_bool tid_map node key = node.key.key_id == key.key_id
hash_bool ipc_idx_map node key = node.key.key_id == key.key_id
hash_bool futex_map node key = node.key.key_p == key.key_p
hash_bool inode_map node key = hash_str node.key.key_name == hash_str key.key_name

-- `safestrcpy(node->key_name, key, strlen(key))`: an empty name copies nothing, and one that is too
-- long is written over the rest of the node
abbrev pub assign_name : List ℕ → List ℕ → Option (List ℕ)
assign_name old [] = some old
assign_name old (c ∷ cs) = if ltb (length (c ∷ cs)) name_max then some (c ∷ cs) else none

-- `hash_assign`, on the key that the memory of a node holds
unfoldable pub hash_assign : HashType → HashKey → HashKey → Option HashKey
hash_assign pid_map old key = some (record old { key_id = key.key_id })
hash_assign tid_map old key = some (record old { key_id = key.key_id })
hash_assign ipc_idx_map old key = some (record old { key_id = key.key_id })
hash_assign futex_map old key = some (record old { key_p = key.key_p })
hash_assign inode_map old key =
    assign_name old.key_name key.key_name >>= λ name. some (record old { key_name = name })

-- The loop of `hash_lookup`
unfoldable pub find_node : HashType → HashKey → List HashNode → Option HashNode
find_node type key [] = none
find_node type key (n ∷ ns) = if hash_bool type n key then some n else find_node type key ns

-- `hash_lookup`: the table, the index of the chain and the node
unfoldable pub hash_lookup :
    HashTable → HashKey → Bool → Bool → Option (HashTable × ℕ × Option HashNode)
hash_lookup table key rel holding = hash_get_entry table key holding >>= λ e.
    release_if rel e.0 >>= λ table'. some (table', e.1, find_node table.type key (table.head e.1))

abbrev pub owns_values : HashType → Bool
owns_values pid_map = false
owns_values tid_map = false
owns_values ipc_idx_map = false
owns_values futex_map = true
owns_values inode_map = true

-- `node->value = value`, `node` being the one that the lookup found
unfoldable pub set_value : HashType → HashKey → ℕ → List HashNode → List HashNode
set_value type key value [] = []
set_value type key value (n ∷ ns) =
    if hash_bool type n key
    then record n { value = value } ∷ ns
    else n ∷ set_value type key value ns

-- `list_del_reinit(&node->list)`
unfoldable pub del_node : HashType → HashKey → List HashNode → List HashNode
del_node type key [] = []
del_node type key (n ∷ ns) = if hash_bool type n key then ns else n ∷ del_node type key ns

abbrev pub freed : HashType → Option HashNode → List ℕ
freed type none = []
freed type (some n) = if owns_values type then n.value ∷ [] else []

abbrev pub set_head : HashTable → ℕ → List HashNode → HashTable
set_head table i chain = record table { head = update table.head i chain }

-- `hash_insert`; `memory` is what the node of `kmalloc` holds, or none
unfoldable pub hash_insert :
    Option HashKey → HashTable → HashKey → ℕ → Bool → Option (HashTable × List ℕ)
hash_insert memory table key value holding = hash_lookup table key false holding >>= λ l. elim l.2 [
  | none ↦ memory >>= λ old. hash_assign table.type old key >>= λ k.
      release (set_head l.0 l.1 (l.0.head l.1 ++ record { key = k; value = value } ∷ []))
      >>= λ table'. some (table', [])
  | some n ↦
      release (set_head l.0 l.1 (set_value table.type key value (l.0.head l.1))) >>= λ table'.
      some (table', freed table.type (some n))
]

unfoldable pub hash_delete : HashTable → HashKey → Bool → Bool → Option (HashTable × List ℕ)
hash_delete table key holding rel = hash_lookup table key false holding >>= λ l. elim l.2 [
  | none ↦ release_if rel l.0 >>= λ table'. some (table', [])
  | some n ↦
      release_if rel (set_head l.0 l.1 (del_node table.type key (l.0.head l.1))) >>= λ table'.
      some (table', freed table.type (some n))
]

-- The values of one chain that `hash_destroy` frees, then those of `n` chains from `i` on
unfoldable pub destroy_chain : HashType → List HashNode → List ℕ
destroy_chain type [] = []
destroy_chain type (n ∷ ns) = freed type (some n) ++ destroy_chain type ns

unfoldable pub destroy_loop : HashTable → ℕ → ℕ → List ℕ
destroy_loop table i zero = []
destroy_loop table i (suc n) =
    destroy_chain table.type (table.head i) ++ destroy_loop table (suc i) n

unfoldable pub hash_destroy : HashTable → Option (HashTable × List ℕ)
hash_destroy table = acquire table >>= λ table'.
    release table' >>= λ table''. some (table'', destroy_loop table' 0 table.size)

-- `heap` is whether `kzalloc` finds memory for the chains.
unfoldable pub hash_table_entry_init : Bool → HashTable → Option HashTable
hash_table_entry_init heap table = if heap then some (record table { head = λ i. [] }) else none
