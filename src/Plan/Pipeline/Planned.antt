-- ===== src/Plan/Pipeline/Planned.antt =====
-- src/execution_plan/execution_plan.c: NewExecutionPlan on a pattern of one node.
use redis_graph.Base.{
  ℕ, suc, ◌+◌, ◌≤◌, true, false, List, [], ◌∷◌, none, some, ok, ◌>>=◌, Text, length, refl, ◌≡◌,
  arith, sym,
}
use redis_graph.Value.{Machine}
use redis_graph.Graph.{Heap, add_node}
use redis_graph.Filter.Single.{
  IsAbout, contains_node-IsAbout, min_filter_tree-IsAbout, remove_pred_nodes-IsAbout,
}
use redis_graph.Filter.Split.{IsCloneable}
use redis_graph.Filter.{null, FilterNode, AstFilter, vector_contains}
use redis_graph.Filter.Build.{build_filters_tree}
use redis_graph.Filter.Prune.{contains_node, is_null_node, min_filter_tree, remove_pred_nodes}
use redis_graph.Query.{Query, contains_aggregation, new_node_entity}
use redis_graph.Store.{get_store, store_id, store_node}
use redis_graph.Plan.Operations.{
  Libs, Keys, node_by_label_scan, produce_results, new_produce_results, op_modifies,
}
use redis_graph.Plan.{new_op_node, stream_uninitialized}
use redis_graph.Plan.Optimize.{push_each}
use redis_graph.Plan.Filters.{add_filters, place_filter}
use redis_graph.Plan.Draft.{Draft}
use redis_graph.Plan.Start.{ExecutionPlan, new_execution_plan, run_execution_plan}
use redis_graph.ResultSet.{new_result_set}
use redis_graph.Aggregate.{Registry}
use redis_graph.Plan.Pipeline.Executed.{run_execution_plan-one_node_plan}
use redis_graph.Plan.Pipeline.{Setting, fresh, one_node_plan, results_of, with_groups}
use redis_graph.Plan.Pipeline.Entry.{
  node_graph, with_place, place_scan, entries_lem, shared_lem, entry_operations_lem,
}

contains_node_none : (t : FilterNode) → contains_node [] t ≡ false
unfolding contains_node vector_contains
contains_node_none FilterNode.null = refl
contains_node_none (FilterNode.constant a p op v f) = refl
contains_node_none (FilterNode.varying la lp op ra rp f) = refl
contains_node_none (FilterNode.cond l op r) = rw (contains_node_none l) (contains_node_none r)

contains_node-IsNode :
    (seen : List Text) (t : FilterNode) → contains_node seen t ≡ true → is_null_node t ≡ false
unfolding contains_node
contains_node-IsNode seen FilterNode.null h = sym h
contains_node-IsNode seen (FilterNode.constant a p op v f) h = refl
contains_node-IsNode seen (FilterNode.varying la lp op ra rp f) h = refl
contains_node-IsNode seen (FilterNode.cond l op r) h = refl

module _ (m : Machine) (libs : Libs) (h : Heap) (reg : Registry) (q : Query)
    (groups : libs.groups.Map) (alias label : Text) (store : libs.nodes.Map) where
  -- The setting of the plan, with the part of the filter tree that the planner puts over the scan.
  abbrev pub planned : FilterNode → Setting
  planned tree = record {
    machine = m;
    libs = libs;
    heap = with_place h label;
    registry = reg;
    query = q;
    slot = 0;
    original = length h.nodes;
    store = store;
    aliases = some alias ∷ [];
    tree = tree;
    groups = groups;
  }

  module _ (part left : FilterNode) where
    abbrev planned_plan : Keys libs → ExecutionPlan libs
    planned_plan ks =
        one_node_plan (planned part) (libs.nodes.entries store []) (node_graph h alias) left ks

    -- The projection over the scan.
    abbrev unfiltered : Keys libs → Draft libs
    unfiltered ks = record {
      nodes =
          record {
            operation = produce_results (fresh (planned part));
            children = 1 ∷ [];
            parents = [];
            state = stream_uninitialized;
          }
          ∷ record {
            operation = node_by_label_scan (place_scan h alias label libs store);
            children = [];
            parents = 0 ∷ [];
            state = stream_uninitialized;
          }
          ∷ [];
      keys = ks;
    }

    -- What is asked of a filter tree: that it reads the node, and how it is cut for it.
    abbrev pub IsCut : FilterNode → Type 0
    IsCut t =
        (contains_node (alias ∷ []) t ≡ true)
        × (min_filter_tree m (alias ∷ []) t ≡ ok part)
        × (remove_pred_nodes (alias ∷ []) t ≡ ok left)

    -- At the scan nothing was seen; at the projection its node was.
    add_filters_lem :
        (k : ℕ) (ks : Keys libs) (t : FilterNode)
        → IsCut t
        → add_filters m (suc (suc k)) (unfiltered ks) t 0
          ≡ ok (record { seen = some (alias ∷ []); tree = left; draft = (planned_plan ks).draft })
    unfolding add_filters op_modifies push_each
    add_filters_lem k ks t (has, min, rest) =
        let is_node = contains_node-IsNode (alias ∷ []) t has in
        rw (place_filter, contains_node_none t, is_node, has, min, rest) refl

    -- NewExecutionPlan on a pattern of one node with a label and a WHERE clause, without aggregation.
    new_execution_plan-one_node_plan :
        (fuel : ℕ) (leftover : ℕ → ℕ) (name : Text) (ks ks' : Keys libs) (f : AstFilter)
        → 3 ≤ fuel
        → q.entities ≡ new_node_entity (some alias) (some label) none ∷ []
        → q.where_filters ≡ some f
        → contains_aggregation q.returns ≡ false
        → get_store libs.nodes libs.triplets ks (store_id store_node name (some label))
          ≡ ok (store, ks')
        → IsCut (build_filters_tree f)
        → new_execution_plan m libs fuel leftover h ks name q ≡ ok (planned_plan ks')
    unfolding new_execution_plan add_node op_modifies new_node_entity
    new_execution_plan-one_node_plan (suc (suc (suc k))) leftover name ks ks' f le ee ew en found
          cut =
        let results = new_op_node (produce_results (new_produce_results libs)) in
        let scan =
          entry_operations_lem h alias label libs store (suc (suc (suc k))) leftover
            (record { nodes = results ∷ []; keys = ks }) ks' name found in
        let filters = add_filters_lem (suc k) ks' (build_filters_tree f) cut in
        rw (ee, ew, en, entries_lem h alias label, scan, shared_lem h alias label, filters) refl
    new_execution_plan-one_node_plan _ leftover name ks ks' f le ee ew en found cut =
        absurd (omega arith)

    planned_run_lem :
        (fuel : ℕ) (leftover : ℕ → ℕ) (name : Text) (ks ks' : Keys libs) (f : AstFilter)
        → length (libs.nodes.entries store []) + 4 ≤ fuel
        → q.entities ≡ new_node_entity (some alias) (some label) none ∷ []
        → q.where_filters ≡ some f
        → contains_aggregation q.returns ≡ false
        → get_store libs.nodes libs.triplets ks (store_id store_node name (some label))
          ≡ ok (store, ks')
        → IsCut (build_filters_tree f)
        → (new_execution_plan m libs fuel leftover h ks name q >>= λ plan.
            run_execution_plan m libs fuel reg q plan groups)
          ≡ (new_result_set m libs.heaps libs.seen q >>= λ set.
              with_groups
                (planned part)
                (results_of (planned part) (node_graph h alias) (libs.nodes.entries store []) set))
    planned_run_lem fuel leftover name ks ks' f le ee ew en found cut =
        let es = libs.nodes.entries store [] in
        let enough : 3 ≤ fuel = omega arith in
        rw (new_execution_plan-one_node_plan fuel leftover name ks ks' f enough ee ew en found cut)
          (run_execution_plan-one_node_plan (planned part) fuel es (node_graph h alias) left ks' le)

  -- Planning and executing a query without aggregation, whose pattern is one node with a label and
  -- whose WHERE clause makes a tree that can be cloned and reads that node only, has, with fuel for
  -- the entries of the label's store, the result set that those entries make: each in its turn,
  -- those that pass the clause, until no record is taken any more. It fails exactly as that does.
  pub run_execution_plan-new_execution_plan :
      (fuel : ℕ) (leftover : ℕ → ℕ) (name : Text) (ks ks' : Keys libs) (f : AstFilter)
      → length (libs.nodes.entries store []) + 4 ≤ fuel
      → q.entities ≡ new_node_entity (some alias) (some label) none ∷ []
      → q.where_filters ≡ some f
      → contains_aggregation q.returns ≡ false
      → get_store libs.nodes libs.triplets ks (store_id store_node name (some label))
        ≡ ok (store, ks')
      → IsCloneable m (build_filters_tree f)
      → IsAbout alias (build_filters_tree f)
      → (new_execution_plan m libs fuel leftover h ks name q >>= λ plan.
          run_execution_plan m libs fuel reg q plan groups)
        ≡ (new_result_set m libs.heaps libs.seen q >>= λ set.
            let c = planned (build_filters_tree f) in
            with_groups c (results_of c (node_graph h alias) (libs.nodes.entries store []) set))
  run_execution_plan-new_execution_plan fuel leftover name ks ks' f le ee ew en found ic about =
      let t = build_filters_tree f in
      planned_run_lem t null fuel leftover name ks ks' f le ee ew en found (
        contains_node-IsAbout alias t about,
        min_filter_tree-IsAbout alias m t ic about,
        remove_pred_nodes-IsAbout alias m t ic about,
      )
