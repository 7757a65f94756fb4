-- ===== src/Tests/Commands.antt =====
-- The commands: the theorems at an empty database and at one with a graph.
use redis_graph.Base.{get_elem?}
use redis_graph.Hexastore.{Parts, key_parts}
use redis_graph.Hexastore.Update.{is_key}
use redis_graph.Store.{hexastore}
use redis_graph.Commands.{place_edge, made_edge}
use redis_graph.Commands.Link.{place_edge-hexastore}
use redis_graph.Tests.{ann, bob}
use redis_graph.Base.{
  ℕ, ◌||◌, true, none, some, ok, fault, Text, codes, text_eq, List, [], ◌∷◌, ◌++◌, ◌≡◌, ◌⊎◌, inl,
  refl, arith, if◌then◌else◌, length, pos, print_int,
}
use redis_graph.Value.{double_val}
use redis_graph.Value.Parse.{from_string}
use redis_graph.Trie.Assoc.{assoc}
use redis_graph.Hexastore.{Triplet}
use redis_graph.Store.{store_node, store_edge, store_id, store, put}
use redis_graph.Commands.{
  wrong_arity, simple, Db, remove_edge, delete_graph, create_node, made_node, read_properties,
}
use redis_graph.Commands.Remove.{is_named, remove_edge_never, delete_graph-keys}
use redis_graph.Commands.Create.{Holds, create_node_labelled}
use redis_graph.Tests.{machine, heap}

abbrev Database : Type 0
Database = Db machine (assoc ℕ) (assoc Triplet)

abbrev no_keys : Database
no_keys = record { heap = heap; keys = λ k. none }

remove_edge_never_example :
    (remove_edge machine
        (assoc ℕ)
        (assoc Triplet)
        no_keys
        (codes "cmd" ∷ codes "g" ∷ codes "5" ∷ [])
      ≡ ok (wrong_arity, no_keys))
    ⊎ (remove_edge machine
          (assoc ℕ)
          (assoc Triplet)
          no_keys
          (codes "cmd" ∷ codes "g" ∷ codes "5" ∷ [])
        ≡ fault)
remove_edge_never_example =
    remove_edge_never machine (assoc ℕ) (assoc Triplet) no_keys
      (codes "cmd" ∷ codes "g" ∷ codes "5" ∷ [])

abbrev node_key : Text
node_key = store_id store_node (codes "g") none

abbrev edge_key : Text
edge_key = store_id store_edge (codes "g") none

abbrev ann_only : List (Text × ℕ)
ann_only = (codes "7", 0) ∷ []

abbrev one_graph : Database
one_graph = record {
  heap = heap;
  keys =
      put (assoc ℕ) (assoc Triplet)
        (put (assoc ℕ) (assoc Triplet) (λ k. none) edge_key (some (store []))) node_key
        (some (store ann_only));
}

delete_graph-keys_example :
    (db' : Database) × (delete_graph machine
        (assoc ℕ)
        (assoc Triplet)
        one_graph
        (codes "cmd" ∷ codes "g" ∷ [])
      ≡ ok (simple (codes "OK"), db'))
    × (db'.heap ≡ one_graph.heap)
    × ((j : Text)
        → db'.keys j ≡ (
            if (text_eq node_key j || is_named j ((assoc ℕ).entries ann_only []))
              || (text_eq edge_key j || is_named j ((assoc ℕ).entries [] []))
            then none
            else one_graph.keys j))
unfolding store_id
delete_graph-keys_example =
    delete_graph-keys machine (assoc ℕ) (assoc Triplet) one_graph (codes "cmd") (codes "g") ann_only
      [] refl refl refl

abbrev age_33 : List Text
age_33 = codes "age" ∷ codes "33" ∷ []

create_node_labelled_example :
    (db' : Database) × (create_node machine
        (assoc ℕ)
        (assoc Triplet)
        (double_val 0)
        (pos 9)
        no_keys
        (codes "cmd" ∷ codes "g" ∷ codes "person" ∷ age_33)
      ≡ ok (simple (print_int (pos 9)), db'))
    × Holds machine
        (assoc ℕ)
        (assoc Triplet)
        db'.keys
        node_key
        (print_int (pos 9))
        (length no_keys.heap.nodes)
    × Holds machine
        (assoc ℕ)
        (assoc Triplet)
        db'.keys
        (store_id store_node (codes "g") (some (codes "person")))
        (print_int (pos 9))
        (length no_keys.heap.nodes)
    × ((j : Text)
        → ((text_eq node_key j
              || text_eq (store_id store_node (codes "g") (some (codes "person"))) j)
            ≡ true)
          ⊎ (db'.keys j ≡ no_keys.keys j))
    × (db'.heap.nodes
        ≡ no_keys.heap.nodes
          ++ made_node machine
              (assoc ℕ)
              (assoc Triplet)
              (pos 9)
              (some (codes "person"))
              (read_properties (from_string machine (double_val 0)) age_33)
            ∷ [])
create_node_labelled_example =
    create_node_labelled machine (assoc ℕ) (assoc Triplet) (double_val 0) (pos 9) no_keys
      (codes "cmd") (codes "g") (codes "person") age_33 1 (omega arith) (omega arith) (inl refl)
      (inl refl)

-- A graph without edges, whose hexastore is there.
abbrev no_edges : Database
no_edges = record {
  heap = heap;
  keys = put (assoc ℕ) (assoc Triplet) (λ k. none) (codes "g") (some (hexastore []));
}

place_edge-hexastore_example :
    (db' : Database) × (x' : (assoc Triplet).Map) × (t : Triplet) × (parts : Parts) × (place_edge
        machine
        (assoc ℕ)
        (assoc Triplet)
        no_edges
        (pos 9)
        (codes "g")
        0
        (codes "likes")
        1
        []
      ≡ ok (simple (print_int (pos 9)), db'))
    × (db'.keys (codes "g") ≡ some (hexastore x'))
    × (key_parts db'.heap t ≡ ok parts)
    × (t.subject ≡ some 0)
    × (t.predicate ≡ some (length no_edges.heap.edges))
    × (t.object ≡ some 1)
    × (get_elem? db'.heap.edges (length no_edges.heap.edges)
        ≡ some (made_edge machine (assoc ℕ) (assoc Triplet) (pos 9) 0 1 (codes "likes") []))
    × ((j : Text)
        → (assoc Triplet).find x' j
          ≡ (if is_key parts j then some t else (assoc Triplet).find [] j))
unfolding store_id
place_edge-hexastore_example =
    place_edge-hexastore machine (assoc ℕ) (assoc Triplet) (pos 9) no_edges (codes "g")
      (codes "likes") 0 1 ann bob [] [] refl refl (omega arith) (omega arith) (inl refl) (inl refl)
      refl refl refl
