-- ===== src/Plan/Pipeline/Filtered.antt =====
-- src/execution_plan/ops/op_filter.c over a scan: what the filter gives when it is asked.
use redis_graph.Base.{
  ℕ, zero, suc, ◌+◌, ◌≤◌, Bool, true, false, List, [], ◌∷◌, Run, ok, fault, out_of_fuel, Run-cases,
  inl, inr, ◌>>=◌, Text, length, refl, ◌≡◌, arith,
}
use redis_graph.Graph.{Graph}
use redis_graph.Filter.Apply.{apply_filters}
use redis_graph.Plan.{StreamState, stream_consuming}
use redis_graph.Plan.Execute.{
  consume_and_pull, execute_op_node, start_consuming, call, pull_from_streams, advance,
  pull_uninitialized, pull_depleted, reset_stream,
}
use redis_graph.Plan.Operations.{
  ProduceResults, FilterState, filter_resetted, filter_uninitialized, filter_request_refresh,
}
use redis_graph.Plan.Consume.{
  set_node, consume, reset, label_scan_consume, filter_consume, filter_reset,
}
use redis_graph.Plan.Pipeline.{
  Setting, Found, IsAsking, ops, Results, next_passing, judged, streams, filter_outcome, results_of,
  continued,
}

module _ (c : Setting) where
  pub filter_resetted_lem :
      (results : ProduceResults c.libs) (f : ℕ) (es : List (Text × ℕ)) (g : Graph)
      (s0 s2 : StreamState) (verdict : Run Bool)
      → apply_filters c.machine c.heap g c.tree ≡ verdict
      → length es ≤ f
      → execute_op_node
          (ops c)
          (suc (suc f))
          (streams c results filter_resetted es s0 stream_consuming s2 g)
          2
        ≡ (judged c g es >>= λ found. ok (filter_outcome c results s0 found))
  unfolding execute_op_node consume_and_pull call start_consuming pull_from_streams advance
      pull_uninitialized pull_depleted reset_stream consume reset label_scan_consume filter_consume
      filter_reset
  filter_resetted_lem results f es g s0 s2 (ok true) e le = rw e refl
  filter_resetted_lem results f [] g s0 s2 (ok false) e le = rw e refl
  filter_resetted_lem results zero (x ∷ es) g s0 s2 (ok false) e le = absurd (omega arith)
  filter_resetted_lem results (suc f) (x ∷ es) g s0 s2 (ok false) e le = rw e (
      filter_resetted_lem results f es (set_node g c.slot x.1) s0 stream_consuming
        (apply_filters c.machine c.heap (set_node g c.slot x.1) c.tree) refl (omega arith))
  filter_resetted_lem results f es g s0 s2 fault e le = rw e refl
  filter_resetted_lem results f es g s0 s2 out_of_fuel e le = rw e refl

  -- A filter that asks for data gives the next node that passes.
  pub filter_next_lem :
      (results : ProduceResults c.libs) (f : ℕ) (st : FilterState) (es : List (Text × ℕ))
      (g : Graph) (s0 s1 s2 : StreamState)
      → IsAsking st
      → length es ≤ f
      → execute_op_node (ops c) (suc (suc f)) (streams c results st es s0 s1 s2 g) 2
        ≡ (next_passing c g es >>= λ found. ok (filter_outcome c results s0 found))
  unfolding execute_op_node consume_and_pull call start_consuming pull_from_streams advance
      pull_uninitialized pull_depleted reset_stream consume reset label_scan_consume filter_consume
      filter_reset
  filter_next_lem results f filter_resetted es g s0 s1 s2 asks le = absurd asks
  filter_next_lem results f filter_uninitialized [] g s0 s1 s2 asks le = refl
  filter_next_lem results f filter_request_refresh [] g s0 s1 s2 asks le = refl
  filter_next_lem results zero st (x ∷ es) g s0 s1 s2 asks le = absurd (omega arith)
  filter_next_lem results (suc f) filter_uninitialized (x ∷ es) g s0 s1 s2 asks le =
      filter_resetted_lem results f es (set_node g c.slot x.1) s0 stream_consuming _ refl
        (omega arith)
  filter_next_lem results (suc f) filter_request_refresh (x ∷ es) g s0 s1 s2 asks le =
      filter_resetted_lem results f es (set_node g c.slot x.1) s0 stream_consuming _ refl
        (omega arith)

  pub results_of-next_passing :
      (g : Graph) (es : List (Text × ℕ)) (set : Results c)
      → results_of c g es set ≡ (next_passing c g es >>= continued c set)
  results_of-next_passing g [] set = refl
  results_of-next_passing g (e ∷ es) set =
      elim (Run-cases (apply_filters c.machine c.heap (set_node g c.slot e.1) c.tree)) [
        | inl (true, v) ↦ rw v refl
        | inl (false, v) ↦ rw v (results_of-next_passing (set_node g c.slot e.1) es set)
        | inr (inl v) ↦ rw v refl
        | inr (inr v) ↦ rw v refl
      ]

  pub next_passing-rest :
      (g : Graph) (es : List (Text × ℕ)) (found : Found)
      → next_passing c g es ≡ ok found
      → found.passed ≡ true
      → length found.rest + 1 ≤ length es
  next_passing-rest g [] found v passed = ground arith
  next_passing-rest g (e ∷ es) found v passed =
      elim (Run-cases (apply_filters c.machine c.heap (set_node g c.slot e.1) c.tree)) [
        | inl (true, w) ↦ ground (arith, w)
        | inl (false, w) ↦ ground (arith, next_passing-rest (set_node g c.slot e.1) es found)
        | inr (inl w) ↦ ground (arith, w)
        | inr (inr w) ↦ ground (arith, w)
      ]
