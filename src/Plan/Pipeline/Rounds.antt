-- ===== src/Plan/Pipeline/Rounds.antt =====
-- src/execution_plan/ops/op_produce_results.c over a filter: one call of the root.
use redis_graph.Base.{
  ℕ, suc, ◌≤◌, Bool, true, false, List, Run, ok, ap, ◌∙◌, Run-cases, inl, inr, ◌>>=◌, Text, length,
  refl, ◌≡◌,
}
use redis_graph.Graph.{Graph}
use redis_graph.ResultSet.{add_record, record_from_graph, resultset_full, resultset_ok}
use redis_graph.Plan.{
  OpResult, op_depleted, op_ok, op_err, op_refresh, StreamState, stream_consuming,
}
use redis_graph.Plan.Execute.{
  Streams, consume_and_pull, execute_op_node, start_consuming, call, pull_from_streams, advance,
  pull_uninitialized, pull_depleted, reset_stream,
}
use redis_graph.Plan.Operations.{Operation, FilterState, filter_request_refresh}
use redis_graph.Plan.Consume.{
  World, consume, reset, produce_results_consume, produce_record, produce_in,
}
use redis_graph.Plan.Pipeline.{
  Setting, IsAsking, ops, Results, next_passing, streams, filter_outcome, project_in, project,
  holding, produced, round_end,
}
use redis_graph.Plan.Pipeline.Filtered.{filter_next_lem}

module _ (c : Setting) where
  pub produce_in_lem :
      (aggregated : Bool) (set : Results c) (g : Graph)
      → produce_in c.libs c.machine c.heap aggregated c.query g (holding c set false) set
        ≡ (project_in c aggregated set g >>= λ added. ok (produced c added))
  unfolding produce_in
  produce_in_lem true set g = refl
  produce_in_lem false set g = elim (Run-cases (record_from_graph c.heap g c.query.returns)) [
    | inl (r, v) ↦ elim (Run-cases (add_record c.machine c.libs.heaps c.libs.seen set r)) [
      | inl ((resultset_full, set'), w) ↦ rw (v, w) refl
      | inl ((resultset_ok, set'), w) ↦ rw (v, w) refl
      | inr (inl w) ↦ rw (v, w) refl
      | inr (inr w) ↦ rw (v, w) refl
    ]
    | inr (inl v) ↦ rw (v) refl
    | inr (inr v) ↦ rw (v) refl
  ]

  pub produce_record_lem :
      (set : Results c) (g : Graph)
      → produce_record c.libs c.machine c.heap c.query g (holding c set false)
        ≡ (project c set g >>= λ added. ok (produced c added))
  unfolding produce_record
  produce_record_lem set g = produce_in_lem set.aggregated set g

  module _
      (execute : Streams (Operation c.libs) (World c.libs)
        → ℕ
        → Run (OpResult × Streams (Operation c.libs) (World c.libs)))
      (restart : Streams (Operation c.libs) (World c.libs)
        → ℕ
        → Run (Streams (Operation c.libs) (World c.libs))) where
    -- The projection asks the filter when it has handed out its record.
    pub project_asks_lem :
        (set : Results c) (st : FilterState) (es : List (Text × ℕ)) (g : Graph)
        (s0 s1 s2 : StreamState)
        → consume_and_pull
            (ops c)
            execute
            restart
            (streams c (holding c set true) st es s0 s1 s2 g)
            0
          ≡ (execute (streams c (holding c set false) st es stream_consuming s1 s2 g) 2 >>= λ r.
              elim r.0 [ op_ok ↦ execute r.1 0 | _ ↦ ok (op_depleted, r.1) ])
    unfolding consume_and_pull call start_consuming pull_from_streams advance pull_uninitialized
        pull_depleted consume reset produce_results_consume
    project_asks_lem set st es g s0 s1 s2 =
        elim (Run-cases
          (execute (streams c (holding c set false) st es stream_consuming s1 s2 g) 2)) [
            | inl ((op_ok, p), v) ↦ rw v refl
            | inl ((op_depleted, p), v) ↦ rw v refl
            | inl ((op_refresh, p), v) ↦ rw v refl
            | inl ((op_err, p), v) ↦ rw v refl
            | inr (inl v) ↦ rw v refl
            | inr (inr v) ↦ rw v refl
          ]

    pub project_record_lem :
        (set : Results c) (st : FilterState) (es : List (Text × ℕ)) (g : Graph)
        (s0 s1 s2 : StreamState)
        → consume_and_pull
            (ops c)
            execute
            restart
            (streams c (holding c set false) st es s0 s1 s2 g)
            0
          ≡ (project c set g >>= λ added.
              ok (
                (produced c added).0,
                streams c (produced c added).1 st es stream_consuming s1 s2 g,
              ))
    unfolding consume_and_pull call start_consuming consume produce_results_consume
    project_record_lem set st es g s0 s1 s2 = elim (Run-cases (project c set g)) [
      | inl ((resultset_full, set'), v) ↦ rw (produce_record_lem set g, v) refl
      | inl ((resultset_ok, set'), v) ↦ rw (produce_record_lem set g, v) refl
      | inr (inl v) ↦ rw (produce_record_lem set g, v) refl
      | inr (inr v) ↦ rw (produce_record_lem set g, v) refl
    ]

  pub round_end_lem :
      (k : ℕ) (set : Results c) (passed : Bool) (g : Graph) (rest : List (Text × ℕ))
      → (ok (
            filter_outcome c
              (holding c set false)
              stream_consuming
              (record { passed = passed; graph = g; rest = rest }))
          >>= λ r. elim r.0 [
            | op_ok ↦ execute_op_node (ops c) (suc k) r.1 0
            | _ ↦ ok (op_depleted, r.1)
          ])
        ≡ round_end c set (record { passed = passed; graph = g; rest = rest })
  unfolding execute_op_node
  round_end_lem k set false g rest = refl
  round_end_lem k set true g rest =
      project_record_lem (execute_op_node (ops c) k) (reset_stream (ops c) k) set
        filter_request_refresh rest g stream_consuming stream_consuming stream_consuming

  -- One call of the root, once it has a result set.
  pub round_lem :
      (k : ℕ) (set : Results c) (st : FilterState) (es : List (Text × ℕ)) (g : Graph)
      (s0 s1 s2 : StreamState)
      → IsAsking st
      → length es ≤ k
      → execute_op_node
          (ops c)
          (suc (suc (suc k)))
          (streams c (holding c set true) st es s0 s1 s2 g)
          0
        ≡ (next_passing c g es >>= round_end c set)
  unfolding execute_op_node consume_and_pull
  round_lem k set st es g s0 s1 s2 asks le =
      project_asks_lem (execute_op_node (ops c) (suc (suc k))) (reset_stream (ops c) (suc (suc k)))
        set st es g s0 s1 s2
      ∙ ap
          (λ x. x >>= λ r. elim r.0 [
            | op_ok ↦ execute_op_node (ops c) (suc (suc k)) r.1 0
            | _ ↦ ok (op_depleted, r.1)
          ])
          (filter_next_lem c (holding c set false) k st es g stream_consuming s1 s2 asks le)
      ∙ (elim (Run-cases (next_passing c g es)) [
        | inl (found, v) ↦ rw v (round_end_lem (suc k) set found.passed found.graph found.rest)
        | inr (inl v) ↦ rw v refl
        | inr (inr v) ↦ rw v refl
      ])
