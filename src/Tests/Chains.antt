-- ===== src/Tests/Chains.antt =====
-- The execution plans of paths: the theorems on what the two people know of each other.
use redis_graph.Base.{
  ℕ, codes, [], ◌∷◌, List, ok, false, none, some, refl, ◌≡◌, negsuc, ◌>>=◌, ◌++◌, arith,
  ok-injective, inl, inr, sym, ◌∙◌, print_int, ◌+◌, ◌≤◌,
}
use redis_graph.Value.{double_val, bits}
use redis_graph.Trie.Assoc.{assoc}
use redis_graph.Graph.{
  Heap, Graph, new_node, new_edge, add_node, n_degree_nodes, node_ref, node_alias, edge_ref,
  edge_alias, connect_nodes, get_entity_by_alias, get_node_by_alias, get_property, find_by_alias,
}
use redis_graph.Filter.{FilterNode, null, gt}
use redis_graph.Filter.Prune.{contains_node, min_filter_tree, remove_pred_nodes}
use redis_graph.Value.Compare.{cmp_double, cmp_generic}
use redis_graph.Hexastore.{Triplet, sop, sp, unknow, to_string, get_kind}
use redis_graph.Query.{
  AstEntity, Query, ReturnElement, n_prop, n_entity, n_link, left_to_right, contains_aggregation,
}
use redis_graph.Store.{hexastore, put}
use redis_graph.Plan.{OpNode, stream_uninitialized}
use redis_graph.Plan.Streams.Select.{filtering, world_of}
use redis_graph.Plan.Consume.{find_changes}
use redis_graph.ResultSet.{new_result_set}
use redis_graph.Plan.Streams.Executed.{
  IsPlanOf, rows, source_depth, IsOpenSource, run_execution_plan-collect,
}
use redis_graph.Plan.Streams.Root.{collect}
use redis_graph.Filter.Apply.{apply_filters}
use redis_graph.Plan.Streams.Chains.{graphs, Chain, plain, label_scan, filtered, expanded}
use redis_graph.Plan.Operations.{
  Keys, Scan, ExpandAll, Operation, expand_all_uninitialized, filter_uninitialized, produce_results,
  new_produce_results, expand_all, node_by_label_scan, op_modifies,
}
use redis_graph.Plan.Start.{ExecutionPlan, new_execution_plan, run_execution_plan}
use redis_graph.Tests.{machine}
use redis_graph.Plan.Streams.Matches.{IsOpen}
use redis_graph.Tests.Plans.{libs, people, keys, aged, entity_a, older_filter}

-- The triplet of the stored edge.
abbrev pub stored : Triplet
stored = record { subject = some 0; predicate = some 0; object = some 1; kind = sop }

abbrev known : Keys libs
known =
    put (assoc ℕ) (assoc Triplet) keys (codes "g")
      (some (hexastore ((codes "SPO:7:knows@5:71", stored) ∷ [])))

abbrev entity_e : AstEntity
entity_e = record {
  alias = some (codes "e");
  label = some (codes "knows");
  properties = none;
  type = n_link;
  direction = left_to_right;
}

abbrev entity_b : AstEntity
entity_b = record {
  alias = some (codes "b");
  label = none;
  properties = none;
  type = n_entity;
  direction = left_to_right;
}

abbrev age_of_b : ReturnElement
age_of_b = record {
  var_alias = some (codes "b");
  var_property = some (codes "age");
  func = none;
  alias = none;
  type = n_prop;
}

abbrev pub hop : Query
hop = record {
  entities = entity_a ∷ entity_e ∷ entity_b ∷ [];
  where_filters = some older_filter;
  returns = record { elements = age_of_b ∷ []; distinct = false };
  order = none;
  limit = none;
}

-- The operations that the planner makes for it.
abbrev pub scan : Scan libs
scan = record {
  node = 0;
  original = 2;
  store = people;
  iter = people;
  modifies = some (codes "a") ∷ [];
}

abbrev pub expansion : ExpandAll libs
expansion = record {
  src_node = 0;
  original_src = 2;
  dest_node = 1;
  original_dest = 3;
  relation = 0;
  original_relation = 2;
  hexastore = (codes "SPO:7:knows@5:71", stored) ∷ [];
  triplet = record { subject = none; predicate = none; object = none; kind = unknow };
  changes = 0;
  str_triplet = [];
  iter = (codes "SPO:7:knows@5:71", stored) ∷ [];
  state = expand_all_uninitialized;
  modifies = some (codes "a") ∷ some (codes "e") ∷ some (codes "b") ∷ [];
}

abbrev older_tree : FilterNode
older_tree = FilterNode.constant (codes "a") (codes "age") gt (double_val 30) cmp_double

abbrev chain : Chain libs
chain = expanded 1 (0 ∷ []) stream_uninitialized expansion sp 3 (
    filtered 3 (1 ∷ []) stream_uninitialized older_tree
      (label_scan 2 (3 ∷ []) stream_uninitialized scan))

abbrev pub hop_graph : Graph
hop_graph = record {
  nodes = 2 ∷ 3 ∷ [];
  edges = 2 ∷ [];
  node_aliases = some (codes "a") ∷ some (codes "b") ∷ [];
  edge_aliases = some (codes "e") ∷ [];
}

-- The people, the nodes of the pattern, and its edge.
abbrev pub hop_heap : Heap
hop_heap = record {
  nodes =
      aged.nodes
      ++ record (new_node (negsuc 0) (some (codes "person"))) { outgoing = 2 ∷ [] }
        ∷ record (new_node (negsuc 0) none) { incoming = 2 ∷ [] }
        ∷ [];
  edges = aged.edges ++ new_edge (negsuc 0) 2 3 (some (codes "knows")) ∷ [];
}

abbrev pub node_of : Operation libs → List ℕ → List ℕ → OpNode (Operation libs)
node_of op children parents = record {
  operation = op;
  children = children;
  parents = parents;
  state = stream_uninitialized;
}

abbrev hop_plan : ExecutionPlan libs
hop_plan = record {
  root = 0;
  heap = hop_heap;
  graph = hop_graph;
  filter_tree = null;
  draft = record {
    nodes =
        node_of
          (produce_results (record { resultset = none; refresh_after_pass = false; init = false }))
          (1 ∷ []) []
        ∷ node_of (expand_all expansion) (3 ∷ []) (0 ∷ [])
        ∷ node_of (node_by_label_scan scan) [] (3 ∷ [])
        ∷ node_of (filtering older_tree filter_uninitialized) (2 ∷ []) (1 ∷ [])
        ∷ [];
    keys = known;
  };
}

-- That the planner makes this plan.
plans_hop :
    (new_execution_plan machine libs 9 (λ n. 0) aged known (codes "g") hop >>= λ p.
    ok (record p { draft = record p.draft { keys = known } }))
    ≡ ok hop_plan
unfolding new_execution_plan n_degree_nodes add_node new_node new_edge node_ref contains_aggregation
    contains_node double_val op_modifies node_alias min_filter_tree remove_pred_nodes connect_nodes
    edge_ref edge_alias
plans_hop = refl

-- Ann is older than 30, and knows Bob.
abbrev matched : Graph
matched = record hop_graph { nodes = 0 ∷ 1 ∷ []; edges = 0 ∷ [] }

hop_plan-IsPlanOf : IsPlanOf hop_plan (plain chain)
unfolding new_produce_results
hop_plan-IsPlanOf = record {
  parents = [];
  state = stream_uninitialized;
  new = (
    (λ h. elim h [ inl e ↦ omega arith | inr e ↦ omega arith ]),
    refl,
    refl,
    refl,
    ((λ e. omega arith), tt),
  );
  apart = λ h. elim h [
    | inl h' ↦ (elim h' [ inl e ↦ omega arith | inr e ↦ omega arith ])
    | inr e ↦ omega arith
  ];
  laid_out = λ j h. elim h [
    | inl h' ↦ (elim h' [
      | inl h'' ↦ (elim h'' [ inl e ↦ rw e refl | inr e ↦ rw e refl ])
      | inr e ↦ rw e refl
    ])
    | inr e ↦ rw e refl
  ];
}

hop-graphs :
    graphs machine libs hop_heap [] hop hop_graph (
      filtered 3
        (1 ∷ [])
        stream_uninitialized
        older_tree
        (label_scan 2 (3 ∷ []) stream_uninitialized scan))
    ≡ ok (record hop_graph { nodes = 0 ∷ 3 ∷ [] } ∷ [])
unfolding apply_filters get_entity_by_alias get_node_by_alias find_by_alias cmp_generic get_property
    double_val bits
hop-graphs = refl

hop-rows :
    rows machine libs hop_heap [] hop [] hop_graph (plain chain)
    ≡ ok (world_of libs [] matched ∷ [])
unfolding apply_filters get_entity_by_alias get_node_by_alias find_by_alias cmp_generic get_property
    double_val bits to_string get_kind new_edge print_int
hop-rows = refl

-- The graph that the scan and the filter give.
abbrev pub ann_first : Graph
ann_first = record hop_graph { nodes = 0 ∷ 3 ∷ [] }

unfoldable pub hop_open : IsOpen libs hop_heap expansion sp 3 ann_first
unfolding find_changes get_kind new_node new_edge
hop_open = record {
  src = 0;
  edge = 2;
  dest = 3;
  src_at = refl;
  edge_at = refl;
  dest_at = refl;
  kind = refl;
  bits = refl;
  old_src = λ e. ground arith;
  old_edge = λ e. refl;
  old_dest = λ e. refl;
}

hop-IsOpenSource : IsOpenSource machine libs hop_heap [] hop hop_graph (plain chain)
hop-IsOpenSource = (tt, λ gs found. rw (← ok-injective (sym hop-graphs ∙ found)) (hop_open, tt))

hop_enough : source_depth machine libs hop_heap [] hop hop_graph (plain chain) + 1 + 3 ≤ 20
hop_enough = rw hop-graphs (omega arith)

-- Ann's acquaintance Bob.
run_execution_plan-collect_example : run_execution_plan machine libs 20 [] hop hop_plan [] ≡ (
    new_result_set machine libs.heaps libs.seen hop >>= λ held.
    collect machine libs hop_heap [] hop held [] (world_of libs [] matched ∷ []))
run_execution_plan-collect_example =
    run_execution_plan-collect machine libs [] hop hop_plan (plain chain) []
      (world_of libs [] matched ∷ []) 20 hop_plan-IsPlanOf hop-IsOpenSource hop-rows hop_enough
