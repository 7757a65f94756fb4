-- ===== src/Commands/Ask.antt =====
-- src/module.c: GRAPH.QUERY and GRAPH.EXPLAIN. The parser is a parameter: the syntax tree, or none,
-- and the message where there is none.
use redis_graph.Base.{
  ℕ, Option, none, some, Run, ok, ◌>>=◌, deref, Text, List, get_elem?, length, ltb, if◌then◌else◌,
}
use redis_graph.Value.{Machine}
use redis_graph.Graph.{Heap}
use redis_graph.Aggregate.{Registry}
use redis_graph.Query.{Query, parse_query, contains_collapsed_nodes}
use redis_graph.Query.Collapsed.{expand_collapsed_nodes}
use redis_graph.ResultSet.Replay.{Reply, result_set_replay}
use redis_graph.Plan.Operations.{Libs, Keys, op_name}
use redis_graph.Plan.Start.{new_execution_plan, run_execution_plan}
use redis_graph.Plan.Print.{execution_plan_print}

-- What the two commands reply; the array of a query ends with the time, which is not modelled.
pub data Answer : Type 0 where
  wrong_arity : Answer
  error : Text → Answer
  array : Reply → Answer
  text : Text → Answer

-- What a query runs on: the heap, the keys, and the group cache.
pub record Session (libs : Libs) : Type 0 where
  pub heap : Heap
  pub keys : Keys libs
  pub groups : libs.groups.Map

module _ (m : Machine) (libs : Libs) where
  module _ (parse : Text → Option Query) (message : Text → Text) (fuel : ℕ) (leftover : ℕ → ℕ) where
    -- The query that the plan is made of.
    unfoldable pub prepare : Session libs → Text → Query → Run (Query × Keys libs)
    unfolding expand_collapsed_nodes
    prepare s graph q =
        if contains_collapsed_nodes q.returns
        then expand_collapsed_nodes libs.nodes libs.triplets s.heap s.keys graph q
        else ok (q, s.keys)

    unfoldable pub answer_query :
        Registry → Session libs → Text → Query → Run (Answer × Session libs)
    unfolding prepare new_execution_plan run_execution_plan result_set_replay
    answer_query reg s graph parsed = do
      ready ← prepare s graph parsed
      let q = ready.0
      plan ← new_execution_plan m libs fuel leftover s.heap ready.1 graph q
      done ← run_execution_plan m libs fuel reg q plan s.groups
      r ← result_set_replay m libs.heaps libs.seen libs.groups q.returns done.0 done.1
      ok (array r.0, record { heap = plan.heap; keys = plan.draft.keys; groups = r.1 })

    unfoldable pub explain_query : Session libs → Text → Query → Run (Answer × Session libs)
    unfolding new_execution_plan execution_plan_print
    explain_query s graph q = do
      plan ← new_execution_plan m libs fuel leftover s.heap s.keys graph q
      t ← execution_plan_print (op_name libs) plan.draft.nodes fuel plan.root
      ok (text t, record s { heap = plan.heap; keys = plan.draft.keys })

    -- The arguments and the parser's outcome, for both commands; the query's text is not tested to
    -- be there.
    unfoldable pub on_parsed :
        (Text → Query → Run (Answer × Session libs))
        → Session libs
        → List Text
        → Run (Answer × Session libs)
    unfolding parse_query
    on_parsed answer s argv =
        let read = (do
          graph ← deref (get_elem? argv 1)
          query ← deref (get_elem? argv 2)
          parsed ← parse_query (parse query)
          elim parsed [ none ↦ ok (error (message query), s) | some q ↦ answer graph q ]) in
        if ltb (length argv) 2 then ok (wrong_arity, s) else read

    -- MGraph_Query
    unfoldable pub mgraph_query : Registry → Session libs → List Text → Run (Answer × Session libs)
    unfolding on_parsed answer_query
    mgraph_query reg s argv = on_parsed (answer_query reg s) s argv

    -- MGraph_Explain
    unfoldable pub mgraph_explain : Session libs → List Text → Run (Answer × Session libs)
    unfolding on_parsed explain_query
    mgraph_explain s argv = on_parsed (explain_query s) s argv
