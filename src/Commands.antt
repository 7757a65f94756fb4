-- ===== src/Commands.antt =====
-- src/module.c: the commands that change a graph. `argv` starts with the command's name; an argument
-- that is used although it was not given is an unset pointer. The next identifier is a parameter,
-- as is what an allocated value holds before it is set.
pub mod Remove
pub mod Create
pub mod Link
pub mod Ask
use redis_graph.Base.{
  ℕ, zero, suc, ◌+◌, ◌%◌, Bool, true, false, not, ◌||◌, Option, none, some, Run, ok, fault, ◌>>=◌,
  deref, Text, codes, List, [], ◌∷◌, ◌++◌, length, get_elem?, ltb, ◌==◌, if◌then◌else◌, ℤ,
  print_int,
}
use redis_graph.Value.{Machine, SiValue, string_val_c}
use redis_graph.Value.Parse.{from_string}
use redis_graph.Graph.{Heap, Node, Edge, Property, new_node, new_edge, add_properties, connect_node}
use redis_graph.Trie.{TrieMap}
use redis_graph.Hexastore.{
  Triplet, new_triplet, triplet_from_edge, insert_all_perm, remove_all_perm,
}
use redis_graph.Store.{
  StoreType, store_node, store_edge, store_id, Value, hexastore, Keyspace, put, get_hexastore,
  store_insert, store_get, store_search, delete_key,
}

pub data Reply : Type 0 where
  wrong_arity : Reply
  simple : Text → Reply

-- The properties of a command, as their names and values come; the values are parsed or taken as
-- strings.
unfoldable pub read_properties : (Text → SiValue) → List Text → List Property
read_properties value (k ∷ v ∷ rest) =
    record { name = k; value = value v } ∷ read_properties value rest
read_properties value _ = []

abbrev pub drop_args : ℕ → List Text → List Text
drop_args zero args = args
drop_args (suc n) [] = []
drop_args (suc n) (a ∷ args) = drop_args n args

module _ (m : Machine) (nodes : TrieMap ℕ) (triplets : TrieMap Triplet) where
  pub record Db : Type 0 where
    pub heap : Heap
    pub keys : Keyspace nodes triplets

  -- A node with the next id, the label and the properties, at the end of the heap.
  unfoldable pub made_node : ℤ → Option Text → List Property → Node
  unfolding new_node add_properties
  made_node id label ps =
      let n = new_node id label in record n { entity = add_properties n.entity ps }

  unfoldable pub made_edge : ℤ → ℕ → ℕ → Text → List Property → Edge
  unfolding new_edge add_properties
  made_edge id s d r ps =
      let e = new_edge id s d (some r) in record e { entity = add_properties e.entity ps }

  -- Store_Insert into the label's store, if there is a label.
  unfoldable pub insert_labelled :
      Keyspace nodes triplets → Text → Option Text → Text → ℕ → Run (Keyspace nodes triplets)
  unfolding store_insert
  insert_labelled ks graph none id a = ok ks
  insert_labelled ks graph (some l) id a =
      store_insert nodes triplets ks (store_id store_node graph (some l)) id a

  abbrev pub place_node : Db → ℤ → Text → Option Text → List Property → Run (Reply × Db)
  place_node db id graph label ps = do
    let a = length db.heap.nodes
    let n = made_node id label ps
    ks ← store_insert nodes triplets db.keys (store_id store_node graph none) (print_int id) a
    ks' ← insert_labelled ks graph label (print_int id) a
    ok (
      simple (print_int id),
      record { heap = record db.heap { nodes = db.heap.nodes ++ n ∷ [] }; keys = ks' },
    )

  -- MGraph_CreateNode: an odd number of arguments has a label.
  unfoldable pub create_node : SiValue → ℤ → Db → List Text → Run (Reply × Db)
  unfolding read_properties
  create_node unset id db argv =
      let labelled = (do
        graph ← deref (get_elem? argv 1)
        l ← deref (get_elem? argv 2)
        let ps = read_properties (from_string m unset) (drop_args 3 argv)
        place_node db id graph (some l) ps) in
      let plain = (do
        graph ← deref (get_elem? argv 1)
        place_node db id graph none (read_properties (from_string m unset) (drop_args 2 argv))) in
      if ltb (length argv) 4
      then ok (wrong_arity, db)
      else (if length argv % 2 == 1 then labelled else plain)

  -- What MGraph_AddEdge does with the two nodes that it found.
  unfoldable pub place_edge : Db → ℤ → Text → ℕ → Text → ℕ → List Property → Run (Reply × Db)
  unfolding store_insert get_hexastore
  place_edge db id graph s r d ps = do
    let a = length db.heap.edges
    let name = print_int id
    let h : Heap = record db.heap { edges = db.heap.edges ++ made_edge id s d r ps ∷ [] }
    ks ← store_insert nodes triplets db.keys (store_id store_edge graph none) name a
    ks' ← store_insert nodes triplets ks (store_id store_edge graph (some r)) name a
    h' ← connect_node h s d a
    t ← new_triplet h' (some s) (some a) (some d)
    hx ← get_hexastore nodes triplets ks' graph
    x ← insert_all_perm triplets h' hx.0 t
    ok (
      simple name,
      record { heap = h'; keys = put nodes triplets hx.1 graph (some (hexastore x)) },
    )

  abbrev pub place_between :
      Db → ℤ → Text → Option ℕ → Text → Option ℕ → List Property → Run (Reply × Db)
  place_between db id graph (some s) r (some d) ps = place_edge db id graph s r d ps
  place_between db id graph _ r _ ps = ok (simple (codes "Error, missing node(s)"), db)

  -- MGraph_AddEdge
  unfoldable pub add_edge : ℤ → Db → List Text → Run (Reply × Db)
  unfolding store_get read_properties place_edge
  add_edge id db argv =
      let run = (do
        graph ← deref (get_elem? argv 1)
        src ← deref (get_elem? argv 2)
        r ← deref (get_elem? argv 3)
        dest ← deref (get_elem? argv 4)
        s ← store_get nodes triplets db.keys (store_id store_node graph none) src
        d ← store_get nodes triplets s.1 (store_id store_node graph none) dest
        let ps = read_properties string_val_c (drop_args 5 argv)
        place_between (record db { keys = d.1 }) id graph s.0 r d.0 ps) in
      if ltb (length argv) 5 || (length argv % 2 == 0) then ok (wrong_arity, db) else run

  -- What MGraph_RemoveEdge does with the edge that it found: the edge stays in its stores.
  unfoldable pub unlink_edge : Db → Text → Option ℕ → Run (Reply × Db)
  unfolding triplet_from_edge get_hexastore remove_all_perm
  unlink_edge db graph none = ok (simple (codes "Error, missing edge"), db)
  unlink_edge db graph (some a) = do
    t ← triplet_from_edge db.heap a
    hx ← get_hexastore nodes triplets db.keys graph
    x ← remove_all_perm triplets db.heap hx.0 t
    let ks = put nodes triplets hx.1 graph (some (hexastore x))
    ok (simple (codes "OK"), record db { keys = ks })

  -- MGraph_RemoveEdge
  unfoldable pub remove_edge : Db → List Text → Run (Reply × Db)
  unfolding store_get
  remove_edge db argv =
      let run = (do
        graph ← deref (get_elem? argv 1)
        name ← deref (get_elem? argv 2)
        e ← store_get nodes triplets db.keys (store_id store_edge graph none) name
        unlink_edge (record db { keys = e.1 }) graph e.0) in
      if not (length argv == 2) then ok (wrong_arity, db) else run

  -- The loop of MGraph_DeleteGraph: the Redis keys that are called like the ids of the store.
  unfoldable pub delete_named : Keyspace nodes triplets → List (Text × ℕ) → Keyspace nodes triplets
  delete_named ks [] = ks
  delete_named ks (e ∷ es) = delete_named (delete_key nodes triplets ks e.0) es

  -- One half of MGraph_DeleteGraph, for the nodes or the edges.
  unfoldable pub delete_store : Keyspace nodes triplets → Text → Run (Keyspace nodes triplets)
  unfolding store_search delete_named
  delete_store ks k = do
    found ← store_search nodes triplets ks k []
    ok (delete_key nodes triplets (delete_named found.1 found.0) k)

  -- MGraph_DeleteGraph
  unfoldable pub delete_graph : Db → List Text → Run (Reply × Db)
  unfolding delete_store
  delete_graph db argv =
      let run = (do
        graph ← deref (get_elem? argv 1)
        ks ← delete_store db.keys (store_id store_node graph none)
        ks' ← delete_store ks (store_id store_edge graph none)
        ok (simple (codes "OK"), record db { keys = ks' })) in
      if not (length argv == 2) then ok (wrong_arity, db) else run
