-- ===== src/Plan/Pipeline/Executed.antt =====
-- src/execution_plan/execution_plan.c: the whole run of the plan.
use redis_graph.Base.{
  ℕ, zero, suc, ◌+◌, ◌≤◌, true, List, [], ◌∷◌, Run, Run-cases, Bool-cases, inl, inr, ◌>>=◌, Text,
  length, refl, ◌≡◌, arith,
}
use redis_graph.Graph.{Graph}
use redis_graph.Filter.{FilterNode}
use redis_graph.ResultSet.{new_result_set, resultset_full, resultset_ok}
use redis_graph.Plan.{OpResult, StreamState, stream_consuming, stream_uninitialized}
use redis_graph.Plan.Execute.{
  Streams, consume_and_pull, execute_op_node, execute_plan, start_consuming, call, reset_stream,
}
use redis_graph.Plan.Operations.{
  Operation, Keys, FilterState, filter_uninitialized, filter_request_refresh,
}
use redis_graph.Plan.Consume.{World, consume, reset, produce_results_consume}
use redis_graph.Plan.Start.{run_execution_plan, root_results}
use redis_graph.Plan.Pipeline.{
  Setting, IsAsking, ops, Results, next_passing, streams, project, results_of, holding, outcome,
  with_groups, at_start, one_node_plan,
}
use redis_graph.Plan.Pipeline.Filtered.{next_passing-rest, results_of-next_passing}
use redis_graph.Plan.Pipeline.Rounds.{round_lem}

module _ (c : Setting) where
  -- The loop of ExecutionPlan_Execute, from a result set on.
  pub rounds_lem :
      (k : ℕ) (set : Results c) (st : FilterState) (es : List (Text × ℕ)) (g : Graph)
      (s0 s1 s2 : StreamState)
      → IsAsking st
      → length es ≤ k
      → (execute_plan
            (ops c)
            (suc (suc (suc (suc k))))
            (streams c (holding c set true) st es s0 s1 s2 g)
            0
          >>= outcome c)
        ≡ with_groups c (results_of c g es set)
  unfolding execute_plan root_results
  rounds_lem zero set st [] g s0 s1 s2 asks le =
      rw (round_lem c zero set st [] g s0 s1 s2 asks le) refl
  rounds_lem zero set st (x ∷ es) g s0 s1 s2 asks le = absurd (omega arith)
  rounds_lem (suc k) set st es g s0 s1 s2 asks le =
      let round = round_lem c (suc k) set st es g s0 s1 s2 asks le in
      let split = results_of-next_passing c g es set in
      elim (Run-cases (next_passing c g es)) [
        | inl (found, v) ↦ elim (Bool-cases found.passed) [
          | inl passed ↦ elim (Run-cases (project c set found.graph)) [
            | inl ((resultset_full, set'), w) ↦ rw (round, split, v, passed, w) refl
            | inl ((resultset_ok, set'), w) ↦
                let shorter = next_passing-rest c g es found v passed in
                rw (round, split, v, passed, w)
                  (rounds_lem k set' filter_request_refresh found.rest found.graph stream_consuming
                    stream_consuming stream_consuming tt (omega arith))
            | inr (inl w) ↦ rw (round, split, v, passed, w) refl
            | inr (inr w) ↦ rw (round, split, v, passed, w) refl
          ]
          | inr ended ↦ rw (round, split, v, ended) refl
        ]
        | inr (inl v) ↦ rw (round, split, v) refl
        | inr (inr v) ↦ rw (round, split, v) refl
      ]

  pub start_lem :
      (execute : Streams (Operation c.libs) (World c.libs)
        → ℕ
        → Run (OpResult × Streams (Operation c.libs) (World c.libs)))
      (restart : Streams (Operation c.libs) (World c.libs)
        → ℕ
        → Run (Streams (Operation c.libs) (World c.libs)))
      (es : List (Text × ℕ)) (g : Graph)
      → consume_and_pull (ops c) execute restart (at_start c es g) 0 ≡ (
          new_result_set c.machine c.libs.heaps c.libs.seen c.query >>= λ set.
          consume_and_pull
            (ops c)
            execute
            restart
            (streams c
              (holding c set true)
              filter_uninitialized
              es
              stream_uninitialized
              stream_uninitialized
              stream_uninitialized
              g)
            0)
  unfolding consume_and_pull call start_consuming consume reset produce_results_consume
  start_lem execute restart es g =
      elim (Run-cases (new_result_set c.machine c.libs.heaps c.libs.seen c.query)) [
        | inl (set, v) ↦ rw v refl
        | inr (inl v) ↦ rw v refl
        | inr (inr v) ↦ rw v refl
      ]

  -- With fuel for the entries of the store, executing the plan of one node ends, with the result
  -- set that the entries make: each in its turn, those that pass the filter, until no record is
  -- taken any more. It fails exactly as that does.
  pub run_execution_plan-one_node_plan :
      (fuel : ℕ) (es : List (Text × ℕ)) (g : Graph) (left : FilterNode) (keys : Keys c.libs)
      → length es + 4 ≤ fuel
      → run_execution_plan c.machine c.libs fuel c.registry c.query
          (one_node_plan c es g left keys)
          c.groups
        ≡ (new_result_set c.machine c.libs.heaps c.libs.seen c.query >>= λ set.
            with_groups c (results_of c g es set))
  unfolding run_execution_plan execute_plan execute_op_node root_results
  run_execution_plan-one_node_plan (suc (suc (suc (suc k)))) es g left keys le =
      let start =
        start_lem (execute_op_node (ops c) (suc (suc k))) (reset_stream (ops c) (suc (suc k))) es
          g in
      elim (Run-cases (new_result_set c.machine c.libs.heaps c.libs.seen c.query)) [
        | inl (set, v) ↦
            rw (start, v)
              (rounds_lem k set filter_uninitialized es g stream_uninitialized stream_uninitialized
                stream_uninitialized tt (omega arith))
        | inr (inl v) ↦ rw (start, v) refl
        | inr (inr v) ↦ rw (start, v) refl
      ]
  run_execution_plan-one_node_plan _ es g left keys le = absurd (omega arith)
