-- ===== src/Plan/Operations.antt =====
-- src/execution_plan/ops/: what each operation keeps, and how it is made. A `Node **` is the slot in
-- the query graph's array; a pointer to a store stands for its content, which queries do not change,
-- and an iterator for the entries that it has yet to give.
use redis_graph.Base.{
  ℕ, Bool, false, Option, none, some, Run, ok, ◌>>=◌, deref, Text, codes, List, [], ◌∷◌, get_elem?,
}
use redis_graph.Trie.{TrieMap}
use redis_graph.Graph.{Heap, Graph, node_alias, edge_alias}
use redis_graph.Hexastore.{Triplet, new_triplet}
use redis_graph.Filter.{FilterNode}
use redis_graph.Grouping.{Group}
use redis_graph.Store.{store_node, store_id, Keyspace, get_store, get_hexastore}
use redis_graph.ResultSet.{HeapLib, ResultSet}

-- The libraries that the operations call.
pub record Libs : Type 1 where
  pub nodes : TrieMap ℕ
  pub triplets : TrieMap Triplet
  pub groups : TrieMap Group
  pub seen : TrieMap (Unit {0})
  pub heaps : HeapLib

-- The pointer in a slot of the graph.
abbrev pub node_in : Graph → ℕ → Run ℕ
node_in g slot = deref (get_elem? g.nodes slot)

abbrev pub edge_in : Graph → ℕ → Run ℕ
edge_in g slot = deref (get_elem? g.edges slot)

pub data ExpandAllState : Type 0 where
  expand_all_uninitialized expand_all_resetted expand_all_consuming : ExpandAllState

pub data FilterState : Type 0 where
  filter_uninitialized filter_resetted filter_request_refresh : FilterState

module _ (libs : Libs) where
  -- AllNodeScan and NodeByLabelScan have the same fields; `original` is `_node`.
  pub record Scan : Type 0 where
    pub node : ℕ
    pub original : ℕ
    pub store : libs.nodes.Map
    pub iter : List (Text × ℕ)
    pub modifies : List (Option Text)

  -- `changes` is the integer `modifies.kind`, which bits tell the entities to write.
  pub record ExpandAll : Type 0 where
    pub src_node : ℕ
    pub original_src : ℕ
    pub dest_node : ℕ
    pub original_dest : ℕ
    pub relation : ℕ
    pub original_relation : ℕ
    pub hexastore : libs.triplets.Map
    pub triplet : Triplet
    pub changes : ℕ
    pub str_triplet : Text
    pub iter : List (Text × Triplet)
    pub state : ExpandAllState
    pub modifies : List (Option Text)

  pub record ExpandInto : Type 0 where
    pub src_node : ℕ
    pub dest_node : ℕ
    pub relation : ℕ
    pub original_relation : ℕ
    pub hexastore : libs.triplets.Map
    pub str_triplet : Text
    pub iter : List (Text × Triplet)
    pub refresh_after_pass : Bool
    pub modifies : List (Option Text)

  pub record FilterOp : Type 0 where
    pub filter_tree : FilterNode
    pub state : FilterState

  pub record ProduceResults : Type 0 where
    pub resultset : Option (ResultSet libs.heaps libs.seen)
    pub refresh_after_pass : Bool
    pub init : Bool

  pub record AggregateOp : Type 0 where
    pub refresh_after_pass : Bool
    pub init : Bool

  pub data Operation : Type 0 where
    all_node_scan : Scan → Operation
    node_by_label_scan : Scan → Operation
    expand_all : ExpandAll → Operation
    expand_into : ExpandInto → Operation
    filter : FilterOp → Operation
    produce_results : ProduceResults → Operation
    aggregate : AggregateOp → Operation

  -- The `name` of an operation.
  unfoldable pub op_name : Operation → Text
  op_name (all_node_scan s) = codes "All Node Scan"
  op_name (node_by_label_scan s) = codes "Node By Label Scan"
  op_name (expand_all e) = codes "Expand All"
  op_name (expand_into e) = codes "Expand Into"
  op_name (filter f) = codes "Filter"
  op_name (produce_results r) = codes "Produce Results"
  op_name (aggregate a) = codes "Aggregate"

  -- The `modifies` of an operation, NULL for the last three.
  unfoldable pub op_modifies : Operation → List (Option Text)
  op_modifies (all_node_scan s) = s.modifies
  op_modifies (node_by_label_scan s) = s.modifies
  op_modifies (expand_all e) = e.modifies
  op_modifies (expand_into e) = e.modifies
  op_modifies _ = []

  abbrev pub Keys : Type 0
  Keys = Keyspace libs.nodes libs.triplets

  -- A scan of the entries of a store, for the node in the slot.
  abbrev pub scan_of : libs.nodes.Map → Graph → ℕ → ℕ → Scan
  scan_of store g slot a = record {
    node = slot;
    original = a;
    store = store;
    iter = libs.nodes.entries store [];
    modifies = node_alias g a ∷ [];
  }

  unfoldable pub new_all_node_scan : Keys → Text → Graph → ℕ → Run (Scan × Keys)
  unfolding get_store store_id
  new_all_node_scan ks graph g slot = do
    found ← get_store libs.nodes libs.triplets ks (store_id store_node graph none)
    a ← node_in g slot
    ok (scan_of found.0 g slot a, found.1)

  unfoldable pub new_node_by_label_scan : Keys → Text → Graph → ℕ → Text → Run (Scan × Keys)
  unfolding get_store store_id
  new_node_by_label_scan ks graph g slot label = do
    found ← get_store libs.nodes libs.triplets ks (store_id store_node graph (some label))
    a ← node_in g slot
    ok (scan_of found.0 g slot a, found.1)

  -- NewExpandAll. It leaves `modifies.kind` as malloc gave it, here `leftover`.
  unfoldable pub new_expand_all :
      Heap → Keys → Text → Graph → ℕ → ℕ → ℕ → ℕ → Run (ExpandAll × Keys)
  unfolding get_hexastore new_triplet
  new_expand_all h ks graph g src relation dest leftover = do
    a ← node_in g src
    b ← node_in g dest
    e ← edge_in g relation
    found ← get_hexastore libs.nodes libs.triplets ks graph
    t ← new_triplet h none none none
    ok (
      record {
        src_node = src;
        original_src = a;
        dest_node = dest;
        original_dest = b;
        relation = relation;
        original_relation = e;
        hexastore = found.0;
        triplet = t;
        changes = leftover;
        str_triplet = [];
        iter = libs.triplets.entries found.0 [];
        state = expand_all_uninitialized;
        modifies = node_alias g a ∷ edge_alias g e ∷ node_alias g b ∷ [];
      },
      found.1,
    )

  -- NewExpandInto
  unfoldable pub new_expand_into : Keys → Text → Graph → ℕ → ℕ → ℕ → Run (ExpandInto × Keys)
  unfolding get_hexastore
  new_expand_into ks graph g src relation dest = do
    e ← edge_in g relation
    found ← get_hexastore libs.nodes libs.triplets ks graph
    ok (
      record {
        src_node = src;
        dest_node = dest;
        relation = relation;
        original_relation = e;
        hexastore = found.0;
        str_triplet = [];
        iter = libs.triplets.entries found.0 [];
        refresh_after_pass = false;
        modifies = edge_alias g e ∷ [];
      },
      found.1,
    )

  unfoldable pub new_filter : FilterNode → FilterOp
  new_filter t = record { filter_tree = t; state = filter_uninitialized }

  unfoldable pub new_produce_results : ProduceResults
  new_produce_results = record { resultset = none; refresh_after_pass = false; init = false }

  unfoldable pub new_aggregate : AggregateOp
  new_aggregate = record { refresh_after_pass = false; init = false }
