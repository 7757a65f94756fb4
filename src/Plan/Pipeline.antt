-- ===== src/Plan/Pipeline.antt =====
-- The plan of a pattern with one node and a WHERE clause, src/execution_plan/: the projection over a
-- filter over a scan.
pub mod Filtered
pub mod Rounds
pub mod Executed
pub mod Entry
pub mod Planned
use redis_graph.Base.{
  ℕ, zero, suc, ◌+◌, ◌≤◌, Bool, true, false, Option, none, some, List, [], ◌∷◌, Run, ok, fault,
  out_of_fuel, ap, ◌∙◌, Run-cases, Bool-cases, inl, inr, ◌>>=◌, Text, length, refl, ◌≡◌, arith,
}
use redis_graph.Value.{Machine}
use redis_graph.Graph.{Heap, Graph}
use redis_graph.Filter.{FilterNode}
use redis_graph.Filter.Apply.{apply_filters}
use redis_graph.Aggregate.{Registry}
use redis_graph.Query.{Query}
use redis_graph.ResultSet.{
  ResultSet, new_result_set, add_record, record_from_graph, AddStatus, resultset_full, resultset_ok,
}
use redis_graph.Plan.{
  OpNode, op_node_at, OpResult, op_depleted, op_ok, op_err, op_refresh, StreamState,
  stream_consuming, stream_uninitialized,
}
use redis_graph.Plan.Execute.{
  OpBase, Streams, consume_and_pull, execute_op_node, execute_plan, start_consuming, call,
  pull_from_streams, advance, pull_uninitialized, pull_depleted, reset_stream,
}
use redis_graph.Plan.Operations.{
  Libs, Operation, Keys, Scan, ProduceResults, node_by_label_scan, filter, produce_results,
  FilterState, filter_resetted, filter_uninitialized, filter_request_refresh,
}
use redis_graph.Plan.Consume.{
  World, set_node, base, consume, reset, scan_consume, scan_reset, filter_consume, filter_reset,
  produce_results_consume, produce_record, produce_in,
}
use redis_graph.Plan.Start.{ExecutionPlan, run_execution_plan, root_results}

-- What a plan of this kind is made of: the slot of its node in the graph with the pointer that was
-- in it, the store, and the filter.
pub record Setting : Type 1 where
  pub machine : Machine
  pub libs : Libs
  pub heap : Heap
  pub registry : Registry
  pub query : Query
  pub slot : ℕ
  pub original : ℕ
  pub store : libs.nodes.Map
  pub aliases : List (Option Text)
  pub tree : FilterNode
  pub groups : libs.groups.Map

-- What scanning on finds: whether a node passed, the graph with the last node, and the entries
-- that are left.
pub record Found : Type 0 where
  pub passed : Bool
  pub graph : Graph
  pub rest : List (Text × ℕ)

abbrev pub state_after : Bool → FilterState
state_after true = filter_request_refresh
state_after false = filter_resetted

abbrev pub result_of : Bool → OpResult
result_of true = op_ok
result_of false = op_depleted

abbrev pub IsAsking : FilterState → Type 0
IsAsking filter_resetted = ⊥
IsAsking _ = Unit

module _ (c : Setting) where
  abbrev pub ops : OpBase (Operation c.libs) (World c.libs)
  ops = base c.libs c.machine c.heap c.registry c.query

  abbrev pub Results : Type 0
  Results = ResultSet c.libs.heaps c.libs.seen

  -- The nodes of the plan, in the order in which the planner makes them: the projection, the scan,
  -- and the filter between them.
  abbrev pub chain :
      ProduceResults c.libs
      → Scan c.libs
      → FilterState
      → StreamState
      → StreamState
      → StreamState
      → List (OpNode (Operation c.libs))
  chain results scan st s0 s1 s2 =
      record { operation = produce_results results; children = 2 ∷ []; parents = []; state = s0 }
      ∷ record { operation = node_by_label_scan scan; children = []; parents = 2 ∷ []; state = s1 }
      ∷ record {
        operation = filter (record { filter_tree = c.tree; state = st });
        children = 1 ∷ [];
        parents = 0 ∷ [];
        state = s2;
      }
      ∷ []

  abbrev pub scanning : List (Text × ℕ) → Scan c.libs
  scanning es = record {
    node = c.slot;
    original = c.original;
    store = c.store;
    iter = es;
    modifies = c.aliases;
  }

  abbrev pub next_passing : Graph → List (Text × ℕ) → Run Found
  next_passing g [] = ok (record { passed = false; graph = g; rest = [] })
  next_passing g (e ∷ es) =
      let g' = set_node g c.slot e.1 in
      let later = next_passing g' es in
      apply_filters c.machine c.heap g' c.tree >>= λ pass. elim pass [
        | true ↦ ok (record { passed = true; graph = g'; rest = es })
        | false ↦ later
      ]

  -- What becomes of the node that the graph has now.
  abbrev pub judged : Graph → List (Text × ℕ) → Run Found
  judged g es = apply_filters c.machine c.heap g c.tree >>= λ pass. elim pass [
    | true ↦ ok (record { passed = true; graph = g; rest = es })
    | false ↦ next_passing g es
  ]

  abbrev pub streams :
      ProduceResults c.libs
      → FilterState
      → List (Text × ℕ)
      → StreamState
      → StreamState
      → StreamState
      → Graph
      → Streams (Operation c.libs) (World c.libs)
  streams results st es s0 s1 s2 g = record {
    nodes = chain results (scanning es) st s0 s1 s2;
    world = record { graph = g; groups = c.groups };
  }

  abbrev pub filter_outcome :
      ProduceResults c.libs
      → StreamState
      → Found
      → OpResult × Streams (Operation c.libs) (World c.libs)
  filter_outcome results s0 found = (
    result_of found.passed,
    streams results (state_after found.passed) found.rest s0 stream_consuming stream_consuming
        found.graph,
  )

  -- What the projection does with the graph: a record for it, if nothing is aggregated.
  abbrev pub project_in : Bool → Results → Graph → Run (AddStatus × Results)
  project_in true set g = ok (resultset_ok, set)
  project_in false set g = record_from_graph c.heap g c.query.returns >>= λ r.
      add_record c.machine c.libs.heaps c.libs.seen set r

  abbrev pub project : Results → Graph → Run (AddStatus × Results)
  project set g = project_in set.aggregated set g

  -- The result set that the entries of the store make: each in its turn, those that pass the
  -- filter, until no record is taken any more.
  abbrev pub results_of : Graph → List (Text × ℕ) → Results → Run Results
  results_of g [] set = ok set
  results_of g (e ∷ es) set =
      let g' = set_node g c.slot e.1 in
      apply_filters c.machine c.heap g' c.tree >>= λ pass. elim pass [
        | true ↦
            (project set g' >>= λ added. elim added.0 [
              | resultset_full ↦ ok added.1
              | resultset_ok ↦ results_of g' es added.1
            ])
        | false ↦ results_of g' es set
      ]

  abbrev pub continued : Results → Found → Run Results
  continued set found = elim found.passed [
    | false ↦ ok set
    | true ↦
        (project set found.graph >>= λ added. elim added.0 [
          | resultset_full ↦ ok added.1
          | resultset_ok ↦ results_of found.graph found.rest added.1
        ])
  ]

  abbrev pub holding : Results → Bool → ProduceResults c.libs
  holding set refresh = record { resultset = some set; refresh_after_pass = refresh; init = true }

  abbrev pub produced : AddStatus × Results → OpResult × ProduceResults c.libs
  produced (resultset_full, set) = (op_err, holding set false)
  produced (resultset_ok, set) = (op_ok, holding set true)

  abbrev pub outcome : Streams (Operation c.libs) (World c.libs) → Run (Results × c.libs.groups.Map)
  outcome p = op_node_at p.nodes 0 >>= λ n.
      root_results c.machine c.libs n.operation >>= λ set. ok (set, p.world.groups)

  abbrev pub with_groups : Run Results → Run (Results × c.libs.groups.Map)
  with_groups r = r >>= λ set. ok (set, c.groups)

  abbrev pub round_end :
      Results → Found → Run (OpResult × Streams (Operation c.libs) (World c.libs))
  round_end set found = elim found.passed [
    | false ↦ ok (
      op_depleted,
      streams (holding set false) filter_resetted found.rest stream_consuming stream_consuming
          stream_consuming found.graph,
    )
    | true ↦ project set found.graph >>= λ added. ok (
      (produced added).0,
      streams (produced added).1 filter_request_refresh found.rest stream_consuming stream_consuming
          stream_consuming found.graph,
    )
  ]

  abbrev pub fresh : ProduceResults c.libs
  fresh = record { resultset = none; refresh_after_pass = false; init = false }

  abbrev pub at_start : List (Text × ℕ) → Graph → Streams (Operation c.libs) (World c.libs)
  at_start es g =
      streams fresh filter_uninitialized es stream_uninitialized stream_uninitialized
        stream_uninitialized g

  -- The plan of projection, filter and scan, as the planner leaves it.
  abbrev pub one_node_plan :
      List (Text × ℕ) → Graph → FilterNode → Keys c.libs → ExecutionPlan c.libs
  one_node_plan es g left keys = record {
    root = 0;
    heap = c.heap;
    graph = g;
    filter_tree = left;
    draft = record { nodes = (at_start es g).nodes; keys = keys };
  }
