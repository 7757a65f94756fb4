-- ===== src/Commands/Remove.antt =====
-- What REMOVEEDGE and DELETE take out of the database.
use redis_graph.Base.{
  ℕ, Bool, false, ◌||◌, none, some, ok, fault, Text, codes, text_eq, List, [], ◌∷◌, ◌++◌, ◌≡◌, ◌⊎◌,
  inl, inr, refl, ◌∙◌, arith, any, if◌then◌else◌,
}
use redis_graph.Value.{Machine}
use redis_graph.Trie.{TrieMap}
use redis_graph.Hexastore.{Triplet}
use redis_graph.Store.{
  store_node, store_edge, store_id, store, Keyspace, get_store, store_search, delete_key,
}
use redis_graph.Commands.{
  wrong_arity, simple, Db, remove_edge, delete_named, delete_store, delete_graph,
}

abbrev pub is_named : Text → List (Text × ℕ) → Bool
is_named k es = any (λ e. text_eq e.0 k) es

text_eq-same_start : (s t u : Text) → text_eq (s ++ t) (s ++ u) ≡ text_eq t u
text_eq-same_start [] t u = refl
text_eq-same_start (c ∷ s) t u = ground (arith, text_eq-same_start s t u)

module _ (m : Machine) (nodes : TrieMap ℕ) (triplets : TrieMap Triplet) where
  -- REMOVEEDGE never removes an edge: with any arguments, it either refuses their number or uses an
  -- identifier that is not set.
  pub remove_edge_never :
      (db : Db m nodes triplets) (argv : List Text)
      → (remove_edge m nodes triplets db argv ≡ ok (wrong_arity, db))
        ⊎ (remove_edge m nodes triplets db argv ≡ fault)
  unfolding remove_edge
  remove_edge_never db [] = inl refl
  remove_edge_never db (a ∷ []) = inl refl
  remove_edge_never db (a ∷ b ∷ []) = inr refl
  remove_edge_never db (a ∷ b ∷ c ∷ rest) = inl (ground arith)

  delete_named-find :
      (ks : Keyspace nodes triplets) (es : List (Text × ℕ)) (j : Text)
      → delete_named m nodes triplets ks es j ≡ (if is_named j es then none else ks j)
  unfolding delete_named
  delete_named-find ks [] j = refl
  delete_named-find ks (e ∷ es) j =
      delete_named-find (delete_key nodes triplets ks e.0) es j ∙ ground arith

  store_search-store :
      (ks : Keyspace nodes triplets) (k p : Text) (s : nodes.Map)
      → ks k ≡ some (store s)
      → store_search nodes triplets ks k p ≡ ok (nodes.entries s p, ks)
  unfolding store_search get_store
  store_search-store ks k p s h = ground (arith, h)

  delete_store-find :
      (ks : Keyspace nodes triplets) (k : Text) (s : nodes.Map)
      → ks k ≡ some (store s)
      → (ks' : Keyspace nodes triplets) × (delete_store m nodes triplets ks k ≡ ok ks')
        × ((j : Text)
            → ks' j ≡ (if text_eq k j || is_named j (nodes.entries s []) then none else ks j))
  unfolding delete_store
  delete_store-find ks k s h = (
    delete_key nodes triplets (delete_named m nodes triplets ks (nodes.entries s [])) k,
    rw (store_search-store ks k [] s h) refl,
    λ j. ground (arith, delete_named-find ks (nodes.entries s []) j),
  )

  store_names_apart :
      (g : Text) → text_eq (store_id store_node g none) (store_id store_edge g none) ≡ false
  unfolding store_id
  store_names_apart g = text_eq-same_start g _ _

  -- DELETE of a graph with a store of nodes and one of edges deletes these two keys and every key
  -- that is called like the id of a node or an edge, and no other, and leaves the heap, if no node's
  -- id is called like the store of edges.
  pub delete_graph-keys :
      (db : Db m nodes triplets) (command graph : Text) (s e : nodes.Map)
      → db.keys (store_id store_node graph none) ≡ some (store s)
      → db.keys (store_id store_edge graph none) ≡ some (store e)
      → is_named (store_id store_edge graph none) (nodes.entries s []) ≡ false
      → (db' : Db m nodes triplets) × (delete_graph m nodes triplets db (command ∷ graph ∷ [])
          ≡ ok (simple (codes "OK"), db'))
        × (db'.heap ≡ db.heap)
        × ((j : Text)
            → db'.keys j ≡ (
                if (text_eq (store_id store_node graph none) j || is_named j (nodes.entries s []))
                  || (text_eq (store_id store_edge graph none) j || is_named j (nodes.entries e []))
                then none
                else db.keys j))
  unfolding delete_graph
  delete_graph-keys db command graph s e hs he clear =
      let nk = store_id store_node graph none in
      let ek = store_id store_edge graph none in
      let (ks, done, found) = delete_store-find db.keys nk s hs in
      let still : ks ek ≡ some (store e) = found ek ∙ rw (store_names_apart graph, clear) he in
      let (ks', done', found') = delete_store-find ks ek e still in
      (
        record db { keys = ks' },
        rw (done, done') refl,
        refl,
        λ j. ground (arith, found j, found' j),
      )
