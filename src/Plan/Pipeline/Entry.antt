-- ===== src/Plan/Pipeline/Entry.antt =====
-- src/execution_plan/execution_plan.c: the graph of a pattern of one node, and the scan that it gets.
use redis_graph.Base.{
  ℕ, true, [], ◌∷◌, ◌++◌, some, ok, Text, length, refl, ◌≡◌, ==_iff, ◌==◌, get_elem?,
  get_elem?-last,
}
use redis_graph.Graph.{
  Graph, Heap, new_node, invalid_id, n_degree_nodes, node_ref, node_alias, alias_of, slot_of,
}
use redis_graph.Store.{get_store, store_id, store_node}
use redis_graph.Plan.Operations.{
  Libs, Keys, Scan, scan_of, new_node_by_label_scan, node_by_label_scan,
}
use redis_graph.Plan.{new_op_node}
use redis_graph.Plan.Draft.{Draft, entry_operations}

-- The graph of the pattern, with its node behind the nodes of the heap.
abbrev pub node_graph : Heap → Text → Graph
node_graph h alias = record {
  nodes = length h.nodes ∷ [];
  edges = [];
  node_aliases = some alias ∷ [];
  edge_aliases = [];
}

abbrev pub with_place : Heap → Text → Heap
with_place h label = record h { nodes = h.nodes ++ new_node invalid_id (some label) ∷ [] }

module _ (h : Heap) (alias label : Text) where
  place_at :
      get_elem? (with_place h label).nodes (length h.nodes)
      ≡ some (new_node invalid_id (some label))
  place_at = get_elem?-last h.nodes (new_node invalid_id (some label))

  place_same : (length h.nodes == length h.nodes) ≡ true
  place_same = (==_iff (length h.nodes) (length h.nodes)).1 refl

  -- The node is an entry node, and none that two edges lead to.
  pub entries_lem :
      n_degree_nodes (with_place h label) 0 (length h.nodes ∷ []) ≡ ok (length h.nodes ∷ [])
  unfolding n_degree_nodes new_node
  entries_lem = rw place_at refl

  pub shared_lem : n_degree_nodes (with_place h label) 2 (length h.nodes ∷ []) ≡ ok []
  unfolding n_degree_nodes new_node
  shared_lem = rw place_at refl

  module _ (libs : Libs) (store : libs.nodes.Map) where
    abbrev pub place_scan : Scan libs
    place_scan = record {
      node = 0;
      original = length h.nodes;
      store = store;
      iter = libs.nodes.entries store [];
      modifies = some alias ∷ [];
    }

    scan_of_lem : scan_of libs store (node_graph h alias) 0 (length h.nodes) ≡ place_scan
    unfolding node_alias alias_of
    scan_of_lem = rw place_same refl

    new_node_by_label_scan_lem :
        (ks ks' : Keys libs) (name : Text)
        → get_store libs.nodes libs.triplets ks (store_id store_node name (some label))
          ≡ ok (store, ks')
        → new_node_by_label_scan libs ks name (node_graph h alias) 0 label ≡ ok (place_scan, ks')
    unfolding new_node_by_label_scan
    new_node_by_label_scan_lem ks ks' name found = rw (found, scan_of_lem) refl

    -- The entry node gets a scan.
    pub entry_operations_lem :
        (fuel : ℕ) (leftover : ℕ → ℕ) (d : Draft libs) (ks' : Keys libs) (name : Text)
        → get_store libs.nodes libs.triplets d.keys (store_id store_node name (some label))
          ≡ ok (store, ks')
        → entry_operations
            (node_graph h alias)
            name
            (with_place h label)
            leftover
            fuel
            d
            (length h.nodes)
          ≡ ok (
            length d.nodes ∷ [],
            record {
              nodes = d.nodes ++ new_op_node (node_by_label_scan place_scan) ∷ [];
              keys = ks';
            },
          )
    unfolding entry_operations new_node node_ref slot_of
    entry_operations_lem fuel leftover d ks' name found =
        rw (place_at, place_same, new_node_by_label_scan_lem d.keys ks' name found) refl
