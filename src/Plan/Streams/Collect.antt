-- ===== src/Plan/Streams/Collect.antt =====
-- src/execution_plan/execution_plan.c: the loop of ExecutionPlan_Execute over what reaches the root.
use redis_graph.Base.{
  ℕ, zero, suc, ◌+◌, ◌≤◌, Bool, true, false, List, [], ◌∷◌, Run-cases, ok, ◌>>=◌, length, set, inl,
  inr, ◌≡◌, ◌∙◌, refl, sym, ap, arith,
}
use redis_graph.Value.{Machine}
use redis_graph.Graph.{Heap}
use redis_graph.Aggregate.{Registry}
use redis_graph.Query.{Query}
use redis_graph.ResultSet.{new_result_set, resultset_full, resultset_ok}
use redis_graph.Plan.{OpNode, op_ok, op_err, op_refresh, StreamState, stream_consuming}
use redis_graph.Plan.Execute.{execute_op_node, execute_plan, reset_stream}
use redis_graph.Plan.Operations.{Libs, Operation, produce_results, new_produce_results}
use redis_graph.Plan.Consume.{World, consume, reset, produce_results_consume}
use redis_graph.Plan.Start.{root_results}
use redis_graph.Plan.TreeLaws.{get_elem?-set}
use redis_graph.Plan.Streams.{Layout, place, with_child, Agrees, And}
use redis_graph.Plan.Streams.Over.{ask_lem, hand_lem, stop_lem, stop_lem_fuel}
use redis_graph.Plan.Streams.Serve.{asks_round}
use redis_graph.Plan.Streams.Agree.{at_place, below_place, Agrees-set, Agrees-place}
use redis_graph.Plan.Streams.Select.{ops}
use redis_graph.Plan.Streams.Rows.{Gives}
use redis_graph.Plan.Streams.Root.{Results, take_in, collect, holding, consume_lem, outcome}

module _ (m : Machine) (libs : Libs) (h : Heap) (reg : Registry) (q : Query) where
  module _ (S : ℕ → Type 0) (i c d : ℕ) (ps : List ℕ) (apart : ¬ S i) where
    abbrev root_node : Results m libs h reg q → Bool → StreamState → OpNode (Operation libs)
    root_node held refresh s = with_child (holding m libs h reg q held refresh) c ps s

    -- The root on a row, before what the loop then does.
    take_lem :
        (k : ℕ) (ws : List (World libs)) (held : Results m libs h reg q) (w : World libs)
        (l : Layout (Operation libs)) (ns : List (OpNode (Operation libs)))
        → Agrees (And S i) (place l i (root_node held false stream_consuming)) ns
        → ((held' : Results m libs h reg q) (ns' : List (OpNode (Operation libs)))
            → Agrees (And S i) (place l i (root_node held' true stream_consuming)) ns'
            → (execute_plan (ops m libs h reg q) (suc (suc k)) (record { nodes = ns'; world = w }) i
                >>= outcome m libs h reg q i)
              ≡ collect m libs h reg q held' w.groups ws)
        → ((execute_op_node (ops m libs h reg q) (suc k) (record { nodes = ns; world = w }) i
              >>= λ r. elim r.0 [
                | op_ok ↦ execute_plan (ops m libs h reg q) (suc (suc k)) r.1 i
                | _ ↦ ok r.1
              ])
            >>= outcome m libs h reg q i)
          ≡ collect m libs h reg q held w.groups (w ∷ ws)
    unfolding execute_op_node root_results
    take_lem k ws held w l ns agree after =
        let n = root_node held false stream_consuming in
        let there = at_place S i apart l n ns agree in
        let o = ops m libs h reg q in
        let run = execute_op_node o k in
        let restart = reset_stream o k in
        let does = consume_lem m libs h reg q held w in
        elim (Run-cases (take_in m libs h reg q held.aggregated held w.graph)) [
          | inl ((resultset_full, held'), v) ↦
              let n' = root_node held' false stream_consuming in
              rw
                (
                  v,
                  hand_lem o run restart ns i n w w (holding m libs h reg q held' false) op_err
                      there (λ e. cc) (does ∙ rw v refl),
                  get_elem?-set ns i n n' there,
                )
                refl
          | inl ((resultset_ok, held'), v) ↦
              let n' = root_node held' true stream_consuming in
              let below =
                Agrees-set S i apart l n n' ns (below_place S i apart l n ns agree) there in
              rw
                (
                  v,
                  hand_lem o run restart ns i n w w (holding m libs h reg q held' true) op_ok there
                      (λ e. cc) (does ∙ rw v refl),
                )
                (after held' (set ns i n')
                  (Agrees-place S i apart l n' (set ns i n') below (get_elem?-set ns i n n' there)))
          | inr (inl v) ↦ rw (v, stop_lem o run restart ns i n w there (does ∙ rw v refl)) refl
          | inr (inr v) ↦ rw (v, stop_lem_fuel o run restart ns i n w there (does ∙ rw v refl)) refl
        ]

    -- What the operation at the root does when it asks: its result set is this.
    abbrev AsksWith : Operation libs → Results m libs h reg q → World libs → Type 0
    AsksWith op held w =
        (ops m libs h reg q).consume w op ≡ ok (op_refresh, w, holding m libs h reg q held false)

    -- When nothing more reaches the root.
    depleted_lem :
        (k : ℕ) (op : Operation libs) (held : Results m libs h reg q) (w : World libs)
        (l : Layout (Operation libs)) (s : StreamState) (ns : List (OpNode (Operation libs)))
        → AsksWith op held w
        → Gives m libs h reg q S c d l w []
        → d ≤ suc k
        → Agrees (And S i) (place l i (with_child op c ps s)) ns
        → (execute_plan
              (ops m libs h reg q)
              (suc (suc (suc k)))
              (record { nodes = ns; world = w })
              i
            >>= outcome m libs h reg q i)
          ≡ ok (held, w.groups)
    unfolding execute_plan execute_op_node reset root_results
    depleted_lem k op held w l s ns does y le agree =
        let o = ops m libs h reg q in
        let n = with_child op c ps s in
        let n' = root_node held false stream_consuming in
        let there = at_place S i apart l n ns agree in
        let below = Agrees-set S i apart l n n' ns (below_place S i apart l n ns agree) there in
        let (p, run, keeps, same) = y (set ns i n') (suc k) le below in
        let asked =
          ask_lem o (execute_op_node o (suc k)) (reset_stream o (suc k)) ns i c ps s w w w op
            (holding m libs h reg q held false) (holding m libs h reg q held false) there does
            refl in
        rw (asked, run, keeps i apart ∙ get_elem?-set ns i n n' there, same) refl

    -- The loop, from an operation at the root that asks.
    collect_lem :
        (ws : List (World libs)) (k : ℕ) (op : Operation libs) (held : Results m libs h reg q)
        (w : World libs) (l : Layout (Operation libs)) (s : StreamState)
        (ns : List (OpNode (Operation libs)))
        → AsksWith op held w
        → Gives m libs h reg q S c d l w ws
        → d + length ws ≤ k
        → Agrees (And S i) (place l i (with_child op c ps s)) ns
        → (execute_plan
              (ops m libs h reg q)
              (suc (suc (suc k)))
              (record { nodes = ns; world = w })
              i
            >>= outcome m libs h reg q i)
          ≡ collect m libs h reg q held w.groups ws
    unfolding execute_plan consume produce_results_consume reset
    collect_lem [] k op held w l s ns does y le agree =
        depleted_lem k op held w l s ns does y (omega arith) agree
    collect_lem (x ∷ ws) zero op held w l s ns does y le agree = absurd (omega arith)
    collect_lem (x ∷ ws) (suc k) op held w l s ns does (l', y, rest) le agree =
        let (ns', run, keeps, agree') =
          asks_round (ops m libs h reg q) (λ (u : Unit {0}) (v : World libs). v) S i c d ps apart op
            (holding m libs h reg q held false) (holding m libs h reg q held false) w w w x s l l'
            (suc (suc k)) ns tt does refl (omega arith)
            (λ ns' agree'. y ns' (suc (suc k)) (omega arith) agree') agree in
        rw run (
          take_lem (suc k) ws held x l' ns' agree' (λ held' ns'' agree''.
            collect_lem ws k (holding m libs h reg q held' true) held' x l' stream_consuming ns''
              refl rest (omega arith) agree''))

    -- Executing a plan from its start.
    pub execute_plan-collect :
        (ws : List (World libs)) (fuel : ℕ) (w : World libs) (l : Layout (Operation libs))
        (s : StreamState) (ns : List (OpNode (Operation libs)))
        → Gives m libs h reg q S c d l w ws
        → d + length ws + 3 ≤ fuel
        → Agrees
            (And S i)
            (place l i (with_child (produce_results (new_produce_results libs)) c ps s))
            ns
        → (execute_plan (ops m libs h reg q) fuel (record { nodes = ns; world = w }) i
            >>= outcome m libs h reg q i)
          ≡ (new_result_set m libs.heaps libs.seen q >>= λ held.
              collect m libs h reg q held w.groups ws)
    unfolding execute_plan execute_op_node consume produce_results_consume reset new_produce_results
    execute_plan-collect ws (suc (suc (suc k))) w l s ns y le agree =
        let o = ops m libs h reg q in
        let n = with_child (produce_results (new_produce_results libs)) c ps s in
        let there = at_place S i apart l n ns agree in
        elim (Run-cases (new_result_set m libs.heaps libs.seen q)) [
          | inl (held, v) ↦
              collect_lem ws k (produce_results (new_produce_results libs)) held w l s ns
                (rw v refl) y (omega arith) agree
              ∙ sym (ap (λ x. x >>= λ held. collect m libs h reg q held w.groups ws) v)
          | inr (inl v) ↦
              rw
                (
                  v,
                  stop_lem o (execute_op_node o (suc k)) (reset_stream o (suc k)) ns i n w there
                      (rw v refl),
                )
                refl
          | inr (inr v) ↦
              rw
                (
                  v,
                  stop_lem_fuel o (execute_op_node o (suc k)) (reset_stream o (suc k)) ns i n w
                      there (rw v refl),
                )
                refl
        ]
    execute_plan-collect ws _ w l s ns y le agree = absurd (omega arith)
