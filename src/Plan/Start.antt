-- ===== src/Plan/Start.antt =====
-- src/execution_plan/execution_plan.c: NewExecutionPlan and ExecutionPlan_Execute.
use redis_graph.Base.{
  ℕ, Option, none, some, List, [], ◌∷◌, Run, ok, fault, ◌>>=◌, deref, Text, if◌then◌else◌,
}
use redis_graph.Value.{Machine}
use redis_graph.Graph.{Heap, Graph, n_degree_nodes}
use redis_graph.Filter.{AstFilter, FilterNode, null}
use redis_graph.Filter.Build.{build_filters_tree}
use redis_graph.Aggregate.{Registry}
use redis_graph.Query.{Query, contains_aggregation}
use redis_graph.Query.Pattern.{build_graph}
use redis_graph.ResultSet.{ResultSet}
use redis_graph.Plan.{op_node_at}
use redis_graph.Plan.Execute.{execute_plan}
use redis_graph.Plan.Operations.{
  Libs, Operation, Keys, produce_results, aggregate, new_produce_results, new_aggregate,
}
use redis_graph.Plan.Consume.{World, base}
use redis_graph.Plan.Draft.{Draft, make_node, add_entries}
use redis_graph.Plan.Optimize.{optimize_entry_points, merge_each}
use redis_graph.Plan.Filters.{add_filters}

-- ExecutionPlan, with the heap that its graph lies on.
pub record ExecutionPlan (libs : Libs) : Type 0 where
  pub root : ℕ
  pub heap : Heap
  pub graph : Graph
  pub filter_tree : FilterNode
  pub draft : Draft libs

module _ (m : Machine) (libs : Libs) where
  -- The stack that the first chain of operations goes on: the projection, and the aggregation.
  unfoldable pub first_ops : Query → Draft libs → List ℕ × Draft libs
  unfolding make_node new_produce_results new_aggregate
  first_ops q d =
      let results = make_node d (produce_results (new_produce_results libs)) in
      let both = make_node results.1 (aggregate (new_aggregate libs)) in
      if contains_aggregation q.returns
      then (both.0 ∷ results.0 ∷ [], both.1)
      else (results.0 ∷ [], results.1)

  -- The filters are added last, if the query has a WHERE clause.
  unfoldable pub with_filters : ℕ → Option AstFilter → ExecutionPlan libs → Run (ExecutionPlan libs)
  unfolding build_filters_tree add_filters
  with_filters fuel none plan = ok plan
  with_filters fuel (some f) plan = do
    r ← add_filters m fuel plan.draft (build_filters_tree f) plan.root
    ok (record plan { filter_tree = r.tree; draft = r.draft })

  -- NewExecutionPlan; `leftover` is the memory that malloc gives to the operations.
  unfoldable pub new_execution_plan :
      ℕ → (ℕ → ℕ) → Heap → Keys libs → Text → Query → Run (ExecutionPlan libs)
  unfolding build_graph first_ops add_entries optimize_entry_points merge_each with_filters
  new_execution_plan fuel leftover heap ks name q = do
    built ← build_graph heap q.entities
    let h = built.heap
    let g = built.graph
    let start = first_ops q (record { nodes = []; keys = ks })
    entries ← n_degree_nodes h 0 g.nodes
    chained ← add_entries g name h leftover fuel 0 start.1 start.0 entries
    scanned ← optimize_entry_points h g name fuel chained 0
    shared ← n_degree_nodes h 2 g.nodes
    merged ← merge_each h g name fuel scanned 0 shared
    with_filters fuel q.where_filters
        (record { root = 0; heap = h; graph = g; filter_tree = null; draft = merged })

  -- The result set that the root of an executed plan holds; the pointer is cast without a test.
  unfoldable pub root_results : Operation libs → Run (ResultSet libs.heaps libs.seen)
  root_results (produce_results op) = deref op.resultset
  root_results _ = fault

  -- ExecutionPlan_Execute
  unfoldable pub run_execution_plan :
      ℕ
      → Registry
      → Query
      → ExecutionPlan libs
      → libs.groups.Map
      → Run (ResultSet libs.heaps libs.seen × libs.groups.Map)
  unfolding execute_plan root_results
  run_execution_plan fuel reg q plan groups = do
    let world : World libs = record { graph = plan.graph; groups = groups }
    done ←
        execute_plan (base libs m plan.heap reg q) fuel
          (record { nodes = plan.draft.nodes; world = world }) plan.root
    n ← op_node_at done.nodes plan.root
    set ← root_results n.operation
    ok (set, done.world.groups)
