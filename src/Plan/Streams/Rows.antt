-- ===== src/Plan/Streams/Rows.antt =====
-- src/execution_plan/: what reaches the root of a plan, the graphs of a stream with the groups.
use redis_graph.Base.{
  ℕ, zero, suc, ◌≤◌, Bool, true, false, List, [], ◌∷◌, map, Run, ok, ◌>>=◌, bind-ok, ok-injective,
  set, inr, ◌≡◌, ◌∙◌, refl, sym, ap, arith,
}
use redis_graph.Value.{Machine}
use redis_graph.Graph.{Heap, Graph}
use redis_graph.Aggregate.{Registry}
use redis_graph.Grouping.{aggregate_record}
use redis_graph.Query.{Query}
use redis_graph.Plan.{OpNode, op_ok, op_depleted, op_refresh, StreamState, stream_consuming}
use redis_graph.Plan.Execute.{Streams, execute_op_node}
use redis_graph.Plan.Operations.{Libs, Operation, aggregate, new_aggregate}
use redis_graph.Plan.Consume.{World, consume, reset, aggregate_consume}
use redis_graph.Plan.TreeLaws.{get_elem?-set, get_elem?-set_other}
use redis_graph.Plan.Streams.{Layout, place, with_child, Agrees, Keeps, And, Yields}
use redis_graph.Plan.Streams.Serve.{hand_out, asks_round, ends_lem}
use redis_graph.Plan.Streams.Agree.{at_place, below_place, Agrees-set, Agrees-place}
use redis_graph.Plan.Streams.Select.{world_of, ops}

module _ (m : Machine) (libs : Libs) (h : Heap) (reg : Registry) (q : Query) where
  abbrev Nodes : Type 0
  Nodes = List (OpNode (Operation libs))

  -- Executing the node gives the worlds in turn, and leaves the groups alone at the end.
  abbrev pub Gives :
      (ℕ → Type 0) → ℕ → ℕ → Layout (Operation libs) → World libs → List (World libs) → Type 0
  Gives S i enough l w [] =
      (ns : Nodes) (fuel : ℕ)
      → enough ≤ fuel
      → Agrees S l ns
      → (p : Streams (Operation libs) (World libs)) × (execute_op_node (ops m libs h reg q) fuel
            (record { nodes = ns; world = w }) i
          ≡ ok (op_depleted, p))
        × Keeps S ns p.nodes
        × (p.world.groups ≡ w.groups)
  Gives S i enough l w (x ∷ xs) =
      (l' : Layout (Operation libs)) × ((ns : Nodes) (fuel : ℕ)
        → enough ≤ fuel
        → Agrees S l ns
        → (ns' : Nodes) × (execute_op_node (ops m libs h reg q) fuel
              (record { nodes = ns; world = w }) i
            ≡ ok (op_ok, record { nodes = ns'; world = x }))
          × Keeps S ns ns'
          × Agrees S l' ns')
      × Gives S i enough l' x xs

  -- Without aggregation.
  pub Yields-Gives :
      (S : ℕ → Type 0) (i d : ℕ) (l : Layout (Operation libs)) (g : Graph) (gs : List Graph)
      (γ : libs.groups.Map)
      → Yields (ops m libs h reg q) (world_of libs) S i d l g gs
      → Gives S i d l (world_of libs γ g) (map (world_of libs γ) gs)
  Yields-Gives S i d l g [] γ y = λ ns fuel enough agree.
      let (p, run, keeps, same) = y ns γ fuel enough agree in
      (p, run, keeps, ap (λ w. w.groups) same.1)
  Yields-Gives S i d l g (x ∷ gs) γ (l', y, rest) =
      (l', λ ns fuel enough agree. y ns γ fuel enough agree, Yields-Gives S i d l' x gs γ rest)

  -- With aggregation, each graph is a row for its group.
  abbrev pub aggregated : libs.groups.Map → List Graph → Run (List (World libs))
  aggregated γ [] = ok []
  aggregated γ (g ∷ gs) = aggregate_record m libs.groups h reg q.returns g γ >>= λ γ'.
      aggregated γ' gs >>= λ ws. ok (world_of libs γ' g ∷ ws)

  abbrev aggregating : Bool → Operation libs
  aggregating refresh = aggregate (record { refresh_after_pass = refresh; init = true })

  module _ (S : ℕ → Type 0) (i c d : ℕ) (ps : List ℕ) (apart : ¬ S i) where
    -- One graph, from the stream into its group.
    aggregate_round :
        (op : Operation libs) (γ γ' : libs.groups.Map) (g x : Graph)
        (l l' : Layout (Operation libs)) (s : StreamState) (ns : Nodes) (fuel : ℕ)
        → ((γ : libs.groups.Map)
            → (ops m libs h reg q).consume (world_of libs γ g) op
              ≡ ok (op_refresh, world_of libs γ g, aggregating false))
        → aggregate_record m libs.groups h reg q.returns x γ ≡ ok γ'
        → ((ns : Nodes) (γ : libs.groups.Map) (fuel : ℕ)
            → d ≤ fuel
            → Agrees S l ns
            → (ns' : Nodes) × (execute_op_node
                  (ops m libs h reg q)
                  fuel
                  (record { nodes = ns; world = world_of libs γ g })
                  c
                ≡ ok (op_ok, record { nodes = ns'; world = world_of libs γ x }))
              × Keeps S ns ns'
              × Agrees S l' ns')
        → suc (suc d) ≤ fuel
        → Agrees (And S i) (place l i (with_child op c ps s)) ns
        → (ns' : Nodes) × (execute_op_node
              (ops m libs h reg q)
              fuel
              (record { nodes = ns; world = world_of libs γ g })
              i
            ≡ ok (op_ok, record { nodes = ns'; world = world_of libs γ' x }))
          × Keeps (And S i) ns ns'
          × Agrees (And S i) (place l' i (with_child (aggregating true) c ps stream_consuming)) ns'
    unfolding consume aggregate_consume reset
    aggregate_round op γ γ' g x l l' s ns zero does taken y enough agree = absurd (omega arith)
    aggregate_round op γ γ' g x l l' s ns (suc f) does taken y enough agree =
        let n = with_child (aggregating false) c ps stream_consuming in
        let m' = with_child (aggregating true) c ps stream_consuming in
        let (ns1, run, keeps, agree1) =
          asks_round (ops m libs h reg q) (world_of libs) S i c d ps apart op (aggregating false)
            (aggregating false) g g g x s l l' f ns γ (does γ) refl (omega arith)
            (λ ns' agree'. y ns' γ f (omega arith) agree') agree in
        let there = at_place S i apart l' n ns1 agree1 in
        let below =
          Agrees-set S i apart l' n m' ns1 (below_place S i apart l' n ns1 agree1) there in
        (
          set ns1 i m',
          run
              ∙ hand_out (ops m libs h reg q) (world_of libs) f ns1 i n (world_of libs γ x)
                  (world_of libs γ' x) (aggregating true) op_ok (omega arith) there (λ e. cc)
                  (rw taken refl),
          λ j out. get_elem?-set_other ns1 i j m' (λ e. out (inr (sym e))) ∙ keeps j out,
          Agrees-place S i apart l' m' (set ns1 i m') below (get_elem?-set ns1 i n m' there),
        )

    aggregate_lem :
        (gs : List Graph) (ws : List (World libs)) (op : Operation libs) (γ : libs.groups.Map)
        (g : Graph) (l : Layout (Operation libs)) (s : StreamState)
        → ((γ : libs.groups.Map)
            → (ops m libs h reg q).consume (world_of libs γ g) op
              ≡ ok (op_refresh, world_of libs γ g, aggregating false))
        → aggregated γ gs ≡ ok ws
        → Yields (ops m libs h reg q) (world_of libs) S c d l g gs
        → Gives (And S i) i (suc (suc d)) (place l i (with_child op c ps s)) (world_of libs γ g) ws
    unfolding consume aggregate_consume reset
    aggregate_lem [] ws op γ g l s does found y = rw (← ok-injective found) (λ ns fuel enough agree.
        let (p, run, keeps, same) =
          ends_lem (ops m libs h reg q) (world_of libs) S i c d ps apart op (aggregating false)
            (aggregating false) g g g s l does (λ γ. refl) y ns γ fuel (omega arith) agree in
        (p, run, keeps, ap (λ w. w.groups) same.1))
    aggregate_lem (x ∷ gs) ws op γ g l s does found (l', y, rest) =
        let (γ', taken, e1) =
          bind-ok (aggregate_record m libs.groups h reg q.returns x γ) _ found in
        let (ws', more, e2) = bind-ok (aggregated γ' gs) _ e1 in
        let gives : Gives (And S i) i (suc (suc d)) (place l i (with_child op c ps s))
            (world_of libs γ g) (world_of libs γ' x ∷ ws') =
          (
            place l' i (with_child (aggregating true) c ps stream_consuming),
            λ ns fuel enough agree.
                aggregate_round op γ γ' g x l l' s ns fuel does taken y enough agree,
            aggregate_lem gs ws' (aggregating true) γ' x l' stream_consuming (λ γ. refl) more rest,
          ) in
        rw (← ok-injective e2) gives

    -- An aggregation, as it is made, gives the graphs of its stream with the groups so far.
    pub Yields-aggregate :
        (gs : List Graph) (ws : List (World libs)) (γ : libs.groups.Map) (g : Graph)
        (l : Layout (Operation libs)) (s : StreamState)
        → aggregated γ gs ≡ ok ws
        → Yields (ops m libs h reg q) (world_of libs) S c d l g gs
        → Gives
            (And S i)
            i
            (suc (suc d))
            (place l i (with_child (aggregate (new_aggregate libs)) c ps s))
            (world_of libs γ g)
            ws
    unfolding consume aggregate_consume new_aggregate
    Yields-aggregate gs ws γ g l s found y =
        aggregate_lem gs ws (aggregate (new_aggregate libs)) γ g l s (λ γ. refl) found y
