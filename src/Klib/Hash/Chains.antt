-- ===== src/Klib/Hash/Chains.antt =====
-- One chain of a table of src/lib/hash.c, read as a map from words.
use lkc.Base.{
  ℕ, ◌%◌, ◌<◌, ◌≡◌, refl, false, ◌||◌, List, [], ◌∷◌, ◌++◌, Option, none, some, ◌==◌, if◌then◌else◌,
  length, elem, IsDistinct, arith,
}
use lkc.Klib.Hash.{
  HashType, HashKey, HashNode, name_max, hash_str, hash_index, hash_bool, hash_assign, assign_name,
  find_node, set_value, del_node, pid_map, tid_map, ipc_idx_map, futex_map, inode_map,
}

-- What two keys of a table are compared by
unfoldable pub word : HashType → HashKey → ℕ
word pid_map key = key.key_id
word tid_map key = key.key_id
word ipc_idx_map key = key.key_id
word futex_map key = key.key_p
word inode_map key = hash_str key.key_name

pub hash_bool-word :
    (type : HashType) (n : HashNode) (key : HashKey)
    → hash_bool type n key ≡ (word type n.key == word type key)
unfolding hash_bool word
hash_bool-word pid_map n key = refl
hash_bool-word tid_map n key = refl
hash_bool-word ipc_idx_map n key = refl
hash_bool-word futex_map n key = refl
hash_bool-word inode_map n key = refl

pub hash_index-word :
    (type : HashType) (size : ℕ) (key : HashKey) → hash_index type size key ≡ word type key % size
unfolding hash_index word
hash_index-word pid_map size key = refl
hash_index-word tid_map size key = refl
hash_index-word ipc_idx_map size key = refl
hash_index-word futex_map size key = refl
hash_index-word inode_map size key = refl

-- A key that a node can hold: a name is not empty and is shorter than the node's array.
abbrev pub Fits : HashType → HashKey → Type 0
Fits pid_map key = Unit
Fits tid_map key = Unit
Fits ipc_idx_map key = Unit
Fits futex_map key = Unit
Fits inode_map key = (0 < length key.key_name) × (length key.key_name < name_max)

pub hash_assign_lem :
    (type : HashType) (old key : HashKey)
    → Fits type key
    → (k : HashKey) × (hash_assign type old key ≡ some k) × (word type k ≡ word type key)
unfolding hash_assign word
hash_assign_lem pid_map old key f = (_, refl, refl)
hash_assign_lem tid_map old key f = (_, refl, refl)
hash_assign_lem ipc_idx_map old key f = (_, refl, refl)
hash_assign_lem futex_map old key f = (_, refl, refl)
hash_assign_lem inode_map old key f =
    let e = assigned key.key_name f in (record old { key_name = key.key_name }, rw (e) refl, refl)
  where
    assigned :
        (name : List ℕ)
        → (0 < length name) × (length name < name_max)
        → assign_name old.key_name name ≡ some name
    assigned [] f = absurd (omega arith)
    assigned (c ∷ cs) f = ground arith

module _ (type : HashType) where
  abbrev pub words : List HashNode → List ℕ
  words [] = []
  words (n ∷ ns) = word type n.key ∷ words ns

  unfoldable pub node_at : ℕ → List HashNode → Option HashNode
  node_at w [] = none
  node_at w (n ∷ ns) = if word type n.key == w then some n else node_at w ns

  abbrev pub value_of : Option HashNode → Option ℕ
  value_of none = none
  value_of (some n) = some n.value

  unfoldable pub value_at : ℕ → List HashNode → Option ℕ
  value_at w ns = value_of (node_at w ns)

  pub find_node_lem :
      (key : HashKey) (ns : List HashNode) → find_node type key ns ≡ node_at (word type key) ns
  unfolding find_node node_at
  find_node_lem key [] = refl
  find_node_lem key (n ∷ ns) = rw (hash_bool-word type n key, find_node_lem key ns) refl

  pub node_at-eq-none :
      (w : ℕ) (ns : List HashNode) → elem w (words ns) ≡ false → node_at w ns ≡ none
  unfolding node_at
  node_at-eq-none w [] h = refl
  node_at-eq-none w (n ∷ ns) h = ground (arith, node_at-eq-none w ns)

  pub elem-eq-false : (w : ℕ) (ns : List HashNode) → node_at w ns ≡ none → elem w (words ns) ≡ false
  unfolding node_at
  elem-eq-false w [] h = refl
  elem-eq-false w (n ∷ ns) h = ground (arith, elem-eq-false w ns)

  module _ (w : ℕ) where
    pub node_at-append :
        (ns : List HashNode) (m : HashNode)
        → node_at (word type m.key) ns ≡ none
        → value_at w (ns ++ m ∷ []) ≡ (if word type m.key == w then some m.value else value_at w ns)
    unfolding node_at value_at
    node_at-append [] m h = ground arith
    node_at-append (n ∷ ns) m h = ground (arith, node_at-append ns m)

    pub elem-words-append :
        (ns : List HashNode) (m : HashNode)
        → elem w (words (ns ++ m ∷ [])) ≡ (elem w (words ns) || w == word type m.key)
    elem-words-append [] m = ground arith
    elem-words-append (n ∷ ns) m = ground (arith, elem-words-append ns m)

    pub value_at-set_value :
        (key : HashKey) (v : ℕ) (ns : List HashNode) (old : HashNode)
        → node_at (word type key) ns ≡ some old
        → value_at w (set_value type key v ns)
          ≡ (if word type key == w then some v else value_at w ns)
    unfolding node_at value_at set_value
    value_at-set_value key v [] old h = ground arith
    value_at-set_value key v (n ∷ ns) old h =
        ground (arith, hash_bool-word type n key, value_at-set_value key v ns old)

    pub value_at-del_node :
        (key : HashKey) (ns : List HashNode)
        → IsDistinct (words ns)
        → value_at w (del_node type key ns) ≡ (if word type key == w then none else value_at w ns)
    unfolding node_at value_at del_node
    value_at-del_node key [] d = ground arith
    value_at-del_node key (n ∷ ns) d =
        ground
          (arith, hash_bool-word type n key, value_at-del_node key ns d.1, node_at-eq-none w ns)

    pub elem-words-del_node :
        (key : HashKey) (ns : List HashNode)
        → elem w (words ns) ≡ false
        → elem w (words (del_node type key ns)) ≡ false
    unfolding del_node
    elem-words-del_node key [] h = refl
    elem-words-del_node key (n ∷ ns) h = ground (arith, elem-words-del_node key ns)

  pub append-IsDistinct :
      (ns : List HashNode) (m : HashNode)
      → IsDistinct (words ns)
      → elem (word type m.key) (words ns) ≡ false
      → IsDistinct (words (ns ++ m ∷ []))
  append-IsDistinct [] m d h = (refl, tt)
  append-IsDistinct (n ∷ ns) m d h = (
    ground (arith, elem-words-append (word type n.key) ns m),
    append-IsDistinct ns m d.1 (ground arith),
  )

  pub words-set_value :
      (key : HashKey) (v : ℕ) (ns : List HashNode) → words (set_value type key v ns) ≡ words ns
  unfolding set_value
  words-set_value key v [] = refl
  words-set_value key v (n ∷ ns) = ground (arith, words-set_value key v ns)

  pub del_node-IsDistinct :
      (key : HashKey) (ns : List HashNode)
      → IsDistinct (words ns)
      → IsDistinct (words (del_node type key ns))
  unfolding del_node
  del_node-IsDistinct key [] d = d
  del_node-IsDistinct key (n ∷ ns) d =
      ground
        (arith, del_node-IsDistinct key ns d.1, elem-words-del_node (word type n.key) key ns d.0)
