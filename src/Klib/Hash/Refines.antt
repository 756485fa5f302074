-- ===== src/Klib/Hash/Refines.antt =====
-- The hash tables of src/lib/hash.c against finite maps.
use mathlib.Core.Path.{subst}
use native.Mathlib.Decide.{ℕ_discrete}
use lkc.Base.{
  ℕ, ◌%◌, ◌<◌, ◌≡◌, ◌≢◌, refl, sym, ap, ◌∙◌, true, false, List, [], ◌∷◌, ◌++◌, Option, none, some,
  ◌==◌, if◌then◌else◌, IsDistinct, update_self, update-ne, arith, Option-cases, inl, inr,
}
use lkc.Klib.Hash.{
  HashKey, HashNode, HashTable, hash_get_entry, hash_lookup, hash_insert, hash_delete, set_value,
  del_node, freed, set_head,
}
use lkc.Klib.Hash.Chains.{
  word, hash_index-word, Fits, hash_assign_lem, words, node_at, value_of, value_at, find_node_lem,
  node_at-append, value_at-set_value, value_at-del_node, append-IsDistinct, words-set_value,
  del_node-IsDistinct, elem-eq-false,
}

-- A table between two operations: free, and no key twice in a chain
pub record Consistent (t : HashTable) : Type 0 where
  pub free : t.locked ≡ false
  pub sized : 0 < t.size
  pub distinct : (i : ℕ) → IsDistinct (words t.type (t.head i))

-- The chain of a word, and what the table says of it
abbrev pub chain_of : HashTable → ℕ → List HashNode
chain_of t w = t.head (w % t.size)

abbrev pub node_of : HashTable → HashKey → Option HashNode
node_of t key = node_at t.type (word t.type key) (chain_of t (word t.type key))

unfoldable pub view : HashTable → ℕ → Option ℕ
view t w = value_at t.type w (chain_of t w)

abbrev pub with_chain : HashTable → HashKey → List HashNode → HashTable
with_chain t key chain = set_head t (word t.type key % t.size) chain

-- hash_lookup, with the lock kept and with the lock given back
hash_lookup_keep :
    (t : HashTable) (key : HashKey)
    → t.locked ≡ false
    → hash_lookup t key false false
      ≡ some (record t { locked = true }, word t.type key % t.size, node_of t key)
unfolding hash_lookup hash_get_entry
hash_lookup_keep t key e =
    rw (hash_lookup, hash_get_entry, e, hash_index-word t.type t.size key, find_node_lem t.type key)
      refl

pub hash_lookup_release :
    (t : HashTable) (key : HashKey)
    → t.locked ≡ false
    → hash_lookup t key true false
      ≡ some (record t { locked = false }, word t.type key % t.size, node_of t key)
unfolding hash_lookup hash_get_entry
hash_lookup_release t key e =
    rw (hash_lookup, hash_get_entry, e, hash_index-word t.type t.size key, find_node_lem t.type key)
      refl

equal : (a b : ℕ) → a ≡ b → (a == b) ≡ true
equal a b e = ground arith

other : (a b : ℕ) → a ≢ b → (a == b) ≡ false
other a b ne = ground arith

module _ (t : HashTable) (key : HashKey) where
  with_chain-view :
      (chain : List HashNode) (v : Option ℕ) (q : ℕ)
      → value_at t.type q chain
        ≡ (if word t.type key == q then v else value_at t.type q (chain_of t (word t.type key)))
      → view (with_chain t key chain) q ≡ (if word t.type key == q then v else view t q)
  unfolding view
  with_chain-view chain v q h = elim (ℕ_discrete (q % t.size) (word t.type key % t.size)) [
    | yes e ↦
        let h' : value_at t.type q chain
            ≡ (if word t.type key == q then v else value_at t.type q (chain_of t q)) =
          subst
            (λ i.
              value_at t.type q chain
              ≡ (if word t.type key == q then v else value_at t.type q (t.head i)))
            (sym e) h in
        ap (value_at t.type q) (update_self t.head _ _ chain e) ∙ h'
    | no ne ↦
        let k : (word t.type key == q) ≡ false =
          other (word t.type key) q (λ e. ne (sym (ap (λ x. x % t.size) e))) in
        rw (k) (ap (value_at t.type q) (update-ne t.head _ _ chain ne))
  ]

  with_chain-Consistent :
      (chain : List HashNode)
      → Consistent t
      → IsDistinct (words t.type chain)
      → Consistent (record (with_chain t key chain) { locked = false })
  with_chain-Consistent chain c d = record {
    free = refl;
    sized = c.sized;
    distinct = λ i. elim (ℕ_discrete i (word t.type key % t.size)) [
      | yes e ↦ rw (update_self t.head _ i chain e) d
      | no ne ↦ rw (update-ne t.head _ i chain ne) (c.distinct i)
    ];
  }

-- What an operation that returns leaves: a consistent table of the same kind, which maps the word of
-- the key to `v` and is otherwise the same map, with the freed values
pub record Becomes (t : HashTable) (key : HashKey) (v : Option ℕ) (r : HashTable × List ℕ)
    : Type 0 where
  pub consistent : Consistent r.0
  pub type : r.0.type ≡ t.type
  pub size : r.0.size ≡ t.size
  pub reads : (q : ℕ) → view r.0 q ≡ (if word t.type key == q then v else view t q)
  pub frees : r.1 ≡ freed t.type (node_of t key)

module _ (t : HashTable) (key : HashKey) (c : Consistent t) where
  abbrev unlocked : List HashNode → HashTable
  unlocked chain = record (with_chain t key chain) { locked = false }

  insert_new :
      (old : HashKey) (value : ℕ)
      → Fits t.type key
      → node_of t key ≡ none
      → (r : HashTable × List ℕ) × (hash_insert (some old) t key value false ≡ some r)
        × Becomes t key (some value) r
  unfolding hash_insert view
  insert_new old value f n =
      let (k, assigned, same) = hash_assign_lem t.type old key f in
      let chain = chain_of t (word t.type key) in
      let node : HashNode = record { key = k; value = value } in
      (
        (unlocked (chain ++ node ∷ []), []),
        rw (hash_insert, hash_lookup_keep t key c.free, n, assigned) refl,
        record {
          consistent = with_chain-Consistent t key (chain ++ node ∷ []) c (
              append-IsDistinct t.type chain node (c.distinct _)
                (rw (same) (elem-eq-false t.type (word t.type key) chain n)));
          type = refl;
          size = refl;
          reads = λ q. with_chain-view t key (chain ++ node ∷ []) (some value) q (
              subst
                (λ w.
                  value_at t.type q (chain ++ node ∷ [])
                  ≡ (if w == q then some value else value_at t.type q chain))
                same (node_at-append t.type q chain node (rw (same) n)));
          frees = rw (n) refl;
        },
      )

  insert_over :
      (memory : Option HashKey) (value : ℕ) (n : HashNode)
      → node_of t key ≡ some n
      → (r : HashTable × List ℕ) × (hash_insert memory t key value false ≡ some r)
        × Becomes t key (some value) r
  unfolding hash_insert view
  insert_over memory value n e =
      let chain = chain_of t (word t.type key) in
      (
        (unlocked (set_value t.type key value chain), freed t.type (some n)),
        rw (hash_insert, hash_lookup_keep t key c.free, e) refl,
        record {
          consistent =
              with_chain-Consistent t key (set_value t.type key value chain) c
                (rw (words-set_value t.type key value chain) (c.distinct _));
          type = refl;
          size = refl;
          reads = λ q.
              with_chain-view t key (set_value t.type key value chain) (some value) q
                (value_at-set_value t.type q key value chain n e);
          frees = rw (e) refl;
        },
      )

  -- With memory for a node, and a key that fits, hash_insert returns.
  pub hash_insert_lem :
      (old : HashKey) (value : ℕ)
      → Fits t.type key
      → (r : HashTable × List ℕ) × (hash_insert (some old) t key value false ≡ some r)
        × Becomes t key (some value) r
  hash_insert_lem old value f = elim (Option-cases (node_of t key)) [
    | inl n ↦ insert_new old value f n
    | inr (n, e) ↦ insert_over (some old) value n e
  ]

  delete_found :
      (n : HashNode)
      → node_of t key ≡ some n
      → (r : HashTable × List ℕ) × (hash_delete t key false true ≡ some r) × Becomes t key none r
  unfolding hash_delete view
  delete_found n e =
      let chain = chain_of t (word t.type key) in
      (
        (unlocked (del_node t.type key chain), freed t.type (some n)),
        rw (hash_delete, hash_lookup_keep t key c.free, e) refl,
        record {
          consistent =
              with_chain-Consistent t key (del_node t.type key chain) c
                (del_node-IsDistinct t.type key chain (c.distinct _));
          type = refl;
          size = refl;
          reads = λ q.
              with_chain-view t key (del_node t.type key chain) none q
                (value_at-del_node t.type q key chain (c.distinct _));
          frees = rw (e) refl;
        },
      )

  delete_missing :
      node_of t key ≡ none
      → (r : HashTable × List ℕ) × (hash_delete t key false true ≡ some r) × Becomes t key none r
  unfolding hash_delete view value_at
  delete_missing e = (
    (record t { locked = false }, []),
    rw (hash_delete, hash_lookup_keep t key c.free, e) refl,
    record {
      consistent = record { free = refl; sized = c.sized; distinct = c.distinct };
      type = refl;
      size = refl;
      reads = λ q. elim (ℕ_discrete (word t.type key) q) [
        | yes w ↦ rw (equal (word t.type key) q w) (
            subst (λ x. value_of t.type (node_at t.type x (chain_of t x)) ≡ none) w
              (ap (value_of t.type) e))
        | no ne ↦ rw (other (word t.type key) q ne) refl
      ];
      frees = rw (e) refl;
    },
  )

  pub hash_delete_lem :
      (r : HashTable × List ℕ) × (hash_delete t key false true ≡ some r) × Becomes t key none r
  hash_delete_lem = elim (Option-cases (node_of t key)) [
    | inl e ↦ delete_missing e
    | inr (n, e) ↦ delete_found n e
  ]
