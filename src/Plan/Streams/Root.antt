-- ===== src/Plan/Streams/Root.antt =====
-- src/execution_plan/execution_plan.c: the loop of ExecutionPlan_Execute over what reaches the root, in one step.
use redis_graph.Base.{
  ℕ, Bool, true, false, List, [], ◌∷◌, Run, Run-cases, ok, ◌>>=◌, some, inl, inr, ◌≡◌, ◌∙◌, refl,
  ap,
}
use redis_graph.Value.{Machine}
use redis_graph.Graph.{Heap, Graph}
use redis_graph.Aggregate.{Registry}
use redis_graph.Query.{Query}
use redis_graph.ResultSet.{
  ResultSet, AddStatus, add_record, record_from_graph, resultset_full, resultset_ok,
}
use redis_graph.Plan.{OpResult, op_node_at, op_ok, op_err}
use redis_graph.Plan.Execute.{Streams}
use redis_graph.Plan.Operations.{Libs, Operation, produce_results}
use redis_graph.Plan.Consume.{World, consume, produce_results_consume, produce_record, produce_in}
use redis_graph.Plan.Start.{root_results}
use redis_graph.Plan.Streams.Select.{ops}

module _ (m : Machine) (libs : Libs) (h : Heap) (reg : Registry) (q : Query) where
  abbrev pub Results : Type 0
  Results = ResultSet libs.heaps libs.seen

  -- What a result set does with a graph: a record for it, if nothing is aggregated.
  abbrev pub take_in : Bool → Results → Graph → Run (AddStatus × Results)
  take_in true held g = ok (resultset_ok, held)
  take_in false held g =
      record_from_graph h g q.returns >>= λ r. add_record m libs.heaps libs.seen held r

  -- The result set that a sequence of rows makes, until no record is taken any more, and the groups
  -- as they are then.
  abbrev pub collect :
      Results → libs.groups.Map → List (World libs) → Run (Results × libs.groups.Map)
  collect held γ [] = ok (held, γ)
  collect held γ (w ∷ ws) = take_in held.aggregated held w.graph >>= λ added. elim added.0 [
    | resultset_full ↦ ok (added.1, w.groups)
    | resultset_ok ↦ collect added.1 w.groups ws
  ]

  abbrev pub holding : Results → Bool → Operation libs
  holding held refresh =
      produce_results (record { resultset = some held; refresh_after_pass = refresh; init = true })

  abbrev pub status : AddStatus → OpResult
  status resultset_full = op_err
  status resultset_ok = op_ok

  abbrev pub goes_on : AddStatus → Bool
  goes_on resultset_full = false
  goes_on resultset_ok = true

  produce_in_lem :
      (aggregated : Bool) (held : Results) (g : Graph)
      → produce_in libs m h aggregated q g
          (record { resultset = some held; refresh_after_pass = false; init = true })
          held
        ≡ (take_in aggregated held g >>= λ added. ok (
          status added.0,
          record { resultset = some added.1; refresh_after_pass = goes_on added.0; init = true },
        ))
  unfolding produce_in
  produce_in_lem true held g = refl
  produce_in_lem false held g = elim (Run-cases (record_from_graph h g q.returns)) [
    | inl (r, v) ↦ elim (Run-cases (add_record m libs.heaps libs.seen held r)) [
      | inl ((resultset_full, held'), w) ↦ rw (v, w) refl
      | inl ((resultset_ok, held'), w) ↦ rw (v, w) refl
      | inr (inl w) ↦ rw (v, w) refl
      | inr (inr w) ↦ rw (v, w) refl
    ]
    | inr (inl v) ↦ rw v refl
    | inr (inr v) ↦ rw v refl
  ]

  pub consume_lem :
      (held : Results) (w : World libs)
      → (ops m libs h reg q).consume w (holding held false) ≡ (
          take_in held.aggregated held w.graph >>= λ added.
          ok (status added.0, w, holding added.1 (goes_on added.0)))
  unfolding consume produce_results_consume produce_record
  consume_lem held w =
      ap (λ x. x >>= λ r. ok (r.0, w, produce_results r.1))
        (produce_in_lem held.aggregated held w.graph)
      ∙ (elim (Run-cases (take_in held.aggregated held w.graph)) [
        | inl (a, v) ↦ rw v refl
        | inr (inl v) ↦ rw v refl
        | inr (inr v) ↦ rw v refl
      ])

  -- What ExecutionPlan_Execute returns, and the group cache.
  abbrev pub outcome : ℕ → Streams (Operation libs) (World libs) → Run (Results × libs.groups.Map)
  outcome root p = op_node_at p.nodes root >>= λ n.
      root_results m libs n.operation >>= λ held. ok (held, p.world.groups)
