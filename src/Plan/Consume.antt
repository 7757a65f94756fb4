-- ===== src/Plan/Consume.antt =====
-- src/execution_plan/ops/: the consume and reset functions, on the graph that the plan fills in and
-- the group cache. The entities themselves, on the heap, are not changed.
use redis_graph.Base.{
  ℕ, ◌+◌, ◌*◌, ◌/◌, ◌%◌, Bool, true, false, ◌||◌, Option, some, Run, ok, ◌>>=◌, deref, List, [],
  ◌∷◌, set, ◌==◌, if◌then◌else◌,
}
use redis_graph.Value.{Machine}
use redis_graph.Graph.{Heap, Graph, node_at, edge_at, is_invalid}
use redis_graph.Hexastore.{Triplet, TripletKind, unknow, so, get_kind, to_string}
use redis_graph.Filter.Apply.{apply_filters}
use redis_graph.Aggregate.{Registry}
use redis_graph.Query.{Query}
use redis_graph.ResultSet.{ResultSet, resultset_full, new_result_set, add_record, record_from_graph}
use redis_graph.Grouping.{aggregate_record}
use redis_graph.Plan.{OpResult, op_depleted, op_refresh, op_ok, op_err}
use redis_graph.Plan.Execute.{OpBase}
use redis_graph.Plan.Operations.{
  Libs, Operation, Scan, ExpandAll, ExpandInto, FilterOp, ProduceResults, AggregateOp,
  all_node_scan, node_by_label_scan, expand_all, expand_into, filter, produce_results, aggregate,
  expand_all_uninitialized, expand_all_resetted, expand_all_consuming, filter_resetted,
  filter_request_refresh, node_in, edge_in,
}

abbrev pub set_node : Graph → ℕ → ℕ → Graph
set_node g slot a = record g { nodes = set g.nodes slot a }

abbrev pub set_edge : Graph → ℕ → ℕ → Graph
set_edge g slot e = record g { edges = set g.edges slot e }

-- A write that a bit asks for.
abbrev pub set_if : Bool → List ℕ → ℕ → ℕ → List ℕ
set_if true xs slot a = set xs slot a
set_if false xs slot a = xs

-- The bits S, O and P of a kind.
abbrev pub has_s : ℕ → Bool
has_s k = (k / 4) % 2 == 1

abbrev pub has_o : ℕ → Bool
has_o k = (k / 2) % 2 == 1

abbrev pub has_p : ℕ → Bool
has_p k = k % 2 == 1

abbrev pub bit : Bool → ℕ
bit true = 1
bit false = 0

abbrev pub is_unknow : TripletKind → Bool
is_unknow unknow = true
is_unknow _ = false

module _ (libs : Libs) where
  -- What the operations write to beside themselves.
  pub record World : Type 0 where
    pub graph : Graph
    pub groups : libs.groups.Map

  unfoldable pub scan_consume : Graph → Scan libs → OpResult × Graph × Scan libs
  scan_consume g op = elim op.iter [
    | [] ↦ (op_depleted, g, op)
    | entry ∷ more ↦ (op_ok, set_node g op.node entry.1, record op { iter = more })
  ]

  unfoldable pub scan_reset : Graph → Scan libs → OpResult × Graph × Scan libs
  scan_reset g op =
      (op_ok, set_node g op.node op.original, record op { iter = libs.nodes.entries op.store [] })

  -- NodeByLabelScanConsume hands the slot itself to the iterator, which writes it if there is an entry.
  unfoldable pub label_scan_consume : Graph → Scan libs → OpResult × Graph × Scan libs
  label_scan_consume g op = elim op.iter [
    | [] ↦ (op_depleted, g, op)
    | entry ∷ more ↦ (op_ok, set_node g op.node entry.1, record op { iter = more })
  ]

  unfoldable pub label_scan_reset : Graph → Scan libs → OpResult × Graph × Scan libs
  label_scan_reset g op =
      (op_ok, set_node g op.node op.original, record op { iter = libs.nodes.entries op.store [] })

  -- Writing the entity of a triplet, if its bit is set. Stored triplets have all three entities.
  unfoldable pub write_node : Bool → Graph → ℕ → Option ℕ → Run Graph
  write_node false g slot a = ok g
  write_node true g slot a = do b ← deref a; ok (set_node g slot b)

  unfoldable pub write_edge : Bool → Graph → ℕ → Option ℕ → Run Graph
  write_edge false g slot a = ok g
  write_edge true g slot a = do b ← deref a; ok (set_edge g slot b)

  unfoldable pub expand_all_reset : Graph → ExpandAll libs → OpResult × Graph × ExpandAll libs
  expand_all_reset g op =
      let nodes = set_if (has_s op.changes) g.nodes op.src_node op.original_src in
      let restored : Graph = record g {
        nodes = set_if (has_o op.changes) nodes op.dest_node op.original_dest;
        edges = set_if (has_p op.changes) g.edges op.relation op.original_relation;
      } in
      (op_ok, restored, record op { str_triplet = []; state = expand_all_resetted })

  unfoldable pub expand_into_reset : Graph → ExpandInto libs → OpResult × Graph × ExpandInto libs
  expand_into_reset g op = (op_ok, set_edge g op.relation op.original_relation, op)

  unfoldable pub filter_reset : FilterOp libs → OpResult × FilterOp libs
  filter_reset op = (op_ok, record op { state = filter_resetted })

  -- Whether the id behind a slot is INVALID_ENTITY_ID.
  unfoldable pub node_is_new : Heap → ℕ → Run Bool
  node_is_new h a = do n ← node_at h a; ok (is_invalid n.entity.id)

  unfoldable pub edge_is_new : Heap → ℕ → Run Bool
  edge_is_new h a = do e ← edge_at h a; ok (is_invalid e.entity.id)

  -- The entities without an id when the operation starts for the first time.
  unfoldable pub find_changes : Heap → ℕ → ℕ → ℕ → ℕ → Run ℕ
  unfolding node_is_new edge_is_new
  find_changes h known a e b =
      if known == 0
      then (do
        s ← node_is_new h a
        o ← node_is_new h b
        p ← edge_is_new h e
        ok (4 * bit s + 2 * bit o + bit p))
      else ok known

  unfoldable pub find_kind : Heap → Triplet → Run TripletKind
  unfolding get_kind
  find_kind h t = if is_unknow t.kind then get_kind h t else ok t.kind

  -- ExpandAllConsume after a reset: the search of the hexastore starts.
  unfoldable pub start_expand : Heap → Graph → ExpandAll libs → Run (ExpandAll libs)
  unfolding find_kind find_changes to_string
  start_expand h g op = do
    a ← node_in g op.src_node
    e ← edge_in g op.relation
    b ← node_in g op.dest_node
    let t : Triplet = record op.triplet { subject = some a; predicate = some e; object = some b }
    k ← find_kind h t
    c ← find_changes h op.changes a e b
    str ← to_string h (record t { kind = k })
    ok (record op {
      triplet = record t { kind = k };
      changes = c;
      str_triplet = str;
      iter = libs.triplets.entries op.hexastore str;
      state = expand_all_consuming;
    })

  -- ExpandAllConsume on the next triplet.
  unfoldable pub next_expand : Graph → ExpandAll libs → Run (OpResult × Graph × ExpandAll libs)
  unfolding write_node write_edge
  next_expand g op = elim op.iter [
    | [] ↦ ok (op_refresh, g, op)
    | entry ∷ more ↦ (do
      g1 ← write_node (has_s op.changes) g op.src_node entry.1.subject
      g2 ← write_edge (has_p op.changes) g1 op.relation entry.1.predicate
      g3 ← write_node (has_o op.changes) g2 op.dest_node entry.1.object
      ok (op_ok, g3, record op { iter = more }))
  ]

  unfoldable pub expand_all_consume :
      Heap → Graph → ExpandAll libs → Run (OpResult × Graph × ExpandAll libs)
  unfolding start_expand next_expand
  expand_all_consume h g op = elim op.state [
    | expand_all_uninitialized ↦ ok (op_refresh, g, op)
    | expand_all_resetted ↦ (do op' ← start_expand h g op; next_expand g op')
    | expand_all_consuming ↦ next_expand g op
  ]

  -- ExpandIntoConsume between two nodes that have ids, when no refresh is due.
  unfoldable pub search_between :
      Heap → Graph → ExpandInto libs → ℕ → ℕ → Run (OpResult × Graph × ExpandInto libs)
  unfolding to_string write_edge
  search_between h g op a b = do
    e ← edge_in g op.relation
    let t : Triplet = record { subject = some a; predicate = some e; object = some b; kind = so }
    str ← to_string h t
    elim (libs.triplets.entries op.hexastore str) [
      | [] ↦ ok (op_refresh, g, record op { str_triplet = str; iter = [] })
      | entry ∷ more ↦ (do
        g' ← write_edge true g op.relation entry.1.predicate
        ok (op_ok, g', record op { str_triplet = str; iter = more; refresh_after_pass = true }))
    ]

  unfoldable pub expand_into_consume :
      Heap → Graph → ExpandInto libs → Run (OpResult × Graph × ExpandInto libs)
  unfolding node_is_new search_between
  expand_into_consume h g op = do
    a ← node_in g op.src_node
    b ← node_in g op.dest_node
    s ← node_is_new h a
    o ← node_is_new h b
    let cleared = record op { refresh_after_pass = false }
    let refresh = ok (op_refresh, set_edge g op.relation op.original_relation, cleared)
    let found = if op.refresh_after_pass then refresh else search_between h g op a b
    if s || o then ok (op_refresh, g, op) else found

  module _ (m : Machine) (h : Heap) where
    -- FilterConsume
    unfoldable pub filter_consume : Graph → FilterOp libs → Run (OpResult × FilterOp libs)
    unfolding apply_filters
    filter_consume g op = elim op.state [
      | filter_resetted ↦ (do
        pass ← apply_filters m h g op.filter_tree
        ok (if pass then op_ok else op_refresh, record op { state = filter_request_refresh }))
      | _ ↦ ok (op_refresh, op)
    ]

    -- What an aggregated result set, or another one, does with the graph.
    unfoldable pub produce_in :
        Bool
        → Query
        → Graph
        → ProduceResults libs
        → ResultSet libs.heaps libs.seen
        → Run (OpResult × ProduceResults libs)
    unfolding record_from_graph add_record
    produce_in true q g op set = ok (op_ok, record op { refresh_after_pass = true })
    produce_in false q g op set = do
      r ← record_from_graph h g q.returns
      added ← add_record m libs.heaps libs.seen set r
      elim added.0 [
        | resultset_full ↦ ok (op_err, record op { resultset = some added.1 })
        | _ ↦ ok (op_ok, record op { resultset = some added.1; refresh_after_pass = true })
      ]

    -- ProduceResultsConsume with a result set and no refresh due.
    unfoldable pub produce_record :
        Query → Graph → ProduceResults libs → Run (OpResult × ProduceResults libs)
    unfolding produce_in
    produce_record q g op = do set ← deref op.resultset; produce_in set.aggregated q g op set

    unfoldable pub produce_results_consume :
        Query → Graph → ProduceResults libs → Run (OpResult × ProduceResults libs)
    unfolding new_result_set produce_record
    produce_results_consume q g op =
        if op.init
        then if op.refresh_after_pass
          then ok (op_refresh, record op { refresh_after_pass = false })
          else produce_record q g op
        else (do
          set ← new_result_set m libs.heaps libs.seen q
          ok (op_refresh, record op { init = true; resultset = some set }))

    unfoldable pub aggregate_consume :
        Registry → Query → World → AggregateOp libs → Run (OpResult × World × AggregateOp libs)
    unfolding aggregate_record
    aggregate_consume reg q w op =
        if op.init
        then if op.refresh_after_pass
          then ok (op_refresh, w, record op { refresh_after_pass = false })
          else (do
            groups ← aggregate_record m libs.groups h reg q.returns w.graph w.groups
            ok (op_ok, record w { groups = groups }, record op { refresh_after_pass = true }))
        else ok (op_refresh, w, record op { init = true })

    -- The graph of the world is passed to the operation, and the one that it leaves is kept.
    abbrev on_graph :
        {S : Type 0}
        → World
        → (S → Operation libs)
        → OpResult × Graph × S
        → OpResult × World × Operation libs
    on_graph w wrap r = (r.0, record w { graph = r.1 }, wrap r.2)

    abbrev beside :
        {S : Type 0}
        → World
        → (S → Operation libs)
        → OpResult × S
        → OpResult × World × Operation libs
    beside w wrap r = (r.0, w, wrap r.1)

    -- The functions behind the pointers of each operation.
    unfoldable pub consume :
        Registry → Query → World → Operation libs → Run (OpResult × World × Operation libs)
    unfolding scan_consume label_scan_consume expand_all_consume expand_into_consume filter_consume
        produce_results_consume aggregate_consume
    consume reg q w (all_node_scan op) = ok (on_graph w all_node_scan (scan_consume w.graph op))
    consume reg q w (node_by_label_scan op) =
        ok (on_graph w node_by_label_scan (label_scan_consume w.graph op))
    consume reg q w (expand_all op) = do
      r ← expand_all_consume h w.graph op
      ok (on_graph w expand_all r)
    consume reg q w (expand_into op) = do
      r ← expand_into_consume h w.graph op
      ok (on_graph w expand_into r)
    consume reg q w (filter op) = do r ← filter_consume w.graph op; ok (beside w filter r)
    consume reg q w (produce_results op) = do
      r ← produce_results_consume q w.graph op
      ok (beside w produce_results r)
    consume reg q w (aggregate op) = do
      r ← aggregate_consume reg q w op
      ok (r.0, r.1, aggregate r.2)

    unfoldable pub reset : World → Operation libs → Run (OpResult × World × Operation libs)
    unfolding scan_reset label_scan_reset expand_all_reset expand_into_reset filter_reset
    reset w (all_node_scan op) = ok (on_graph w all_node_scan (scan_reset w.graph op))
    reset w (node_by_label_scan op) =
        ok (on_graph w node_by_label_scan (label_scan_reset w.graph op))
    reset w (expand_all op) = ok (on_graph w expand_all (expand_all_reset w.graph op))
    reset w (expand_into op) = ok (on_graph w expand_into (expand_into_reset w.graph op))
    reset w (filter op) = ok (beside w filter (filter_reset op))
    reset w (produce_results op) = ok (op_ok, w, produce_results op)
    reset w (aggregate op) = ok (op_ok, w, aggregate op)

    abbrev pub base : Registry → Query → OpBase (Operation libs) World
    base reg q = record { consume = consume reg q; reset = reset }
