-- ===== src/Store.antt =====
-- src/stores/store.c, and GetHexaStore of src/hexastore/hexastore.c: the trie maps that Redis keeps
-- under its keys. The values of a store are addresses of nodes or edges.
use redis_graph.Base.{
  ℕ, Option, none, some, Run, ok, fault, ◌>>=◌, Text, codes, text_eq, List, ◌∷◌, ◌++◌,
  if◌then◌else◌,
}
use redis_graph.Trie.{TrieMap}
use redis_graph.Hexastore.{Triplet}

pub data StoreType : Type 0 where
  store_node store_edge : StoreType

abbrev type_name : StoreType → Text
type_name store_node = codes "NODE"
type_name store_edge = codes "EDGE"

abbrev label_name : Option Text → Text
label_name none = codes "ALL"
label_name (some l) = l

-- Store_ID: `"%s_%s_%s_%s"`.
unfoldable pub store_id : StoreType → Text → Option Text → Text
store_id t graph label =
    codes "redis_graph_store_" ++ (graph ++ b'_' ∷ (type_name t ++ b'_' ∷ label_name label))

-- The two kinds of trie that the module keeps under a Redis key.
pub data Value (nodes : TrieMap ℕ) (triplets : TrieMap Triplet) : Type 0 where
  store : nodes.Map → Value nodes triplets
  hexastore : triplets.Map → Value nodes triplets

module _ (nodes : TrieMap ℕ) (triplets : TrieMap Triplet) where
  -- The keys of the Redis database that the module can reach.
  abbrev pub Keyspace : Type 0
  Keyspace = Text → Option (Value nodes triplets)

  abbrev pub put : Keyspace → Text → Option (Value nodes triplets) → Keyspace
  put ks k v j = if text_eq k j then v else ks j

  -- GetStore by the key's name: an empty key gets a new store. A key of the other kind is read as a
  -- store by the code.
  unfoldable pub get_store : Keyspace → Text → Run (nodes.Map × Keyspace)
  get_store ks k = elim (ks k) [
    | none ↦ ok (nodes.empty, put ks k (some (store nodes.empty)))
    | some v ↦ elim v [ store s ↦ ok (s, ks) | hexastore x ↦ fault ]
  ]

  unfoldable pub get_hexastore : Keyspace → Text → Run (triplets.Map × Keyspace)
  get_hexastore ks k = elim (ks k) [
    | none ↦ ok (triplets.empty, put ks k (some (hexastore triplets.empty)))
    | some v ↦ elim v [ store s ↦ fault | hexastore x ↦ ok (x, ks) ]
  ]

  -- Store_Insert into the store under a key.
  unfoldable pub store_insert : Keyspace → Text → Text → ℕ → Run Keyspace
  unfolding get_store
  store_insert ks k name a = do
    r ← get_store ks k
    ok (put r.1 k (some (store (nodes.add r.0 name a))))

  unfoldable pub store_remove : Keyspace → Text → Text → Run Keyspace
  unfolding get_store
  store_remove ks k name = do
    r ← get_store ks k
    ok (put r.1 k (some (store (nodes.delete r.0 name))))

  -- Store_Get: `none` is NULL.
  unfoldable pub store_get : Keyspace → Text → Text → Run (Option ℕ × Keyspace)
  unfolding get_store
  store_get ks k name = do r ← get_store ks k; ok (nodes.find r.0 name, r.1)

  -- Store_Search and its iterator, to the end.
  unfoldable pub store_search : Keyspace → Text → Text → Run (List (Text × ℕ) × Keyspace)
  unfolding get_store
  store_search ks k prefix = do r ← get_store ks k; ok (nodes.entries r.0 prefix, r.1)

  -- RedisModule_DeleteKey
  abbrev pub delete_key : Keyspace → Text → Keyspace
  delete_key ks k = put ks k none
