-- ===== src/Plan/Streams/Select.antt =====
-- src/execution_plan/ops/: the scans and the filter as streams of graphs.
use redis_graph.Base.{
  ℕ, Bool, true, false, List, [], ◌∷◌, Run, ok, ◌>>=◌, bind-ok, ok-injective, Text, ◌≡◌, refl,
  if◌then◌else◌,
}
use redis_graph.Value.{Machine}
use redis_graph.Graph.{Heap, Graph}
use redis_graph.Filter.{FilterNode}
use redis_graph.Filter.Apply.{apply_filters}
use redis_graph.Aggregate.{Registry}
use redis_graph.Query.{Query}
use redis_graph.Plan.{op_ok, op_refresh}
use redis_graph.Plan.Execute.{OpBase}
use redis_graph.Plan.Operations.{
  Libs, Operation, Scan, node_by_label_scan, all_node_scan, filter, FilterState, filter_resetted,
  filter_uninitialized, filter_request_refresh,
}
use redis_graph.Plan.Consume.{
  World, base, consume, reset, set_node, scan_consume, label_scan_consume, filter_consume,
  filter_reset,
}
use redis_graph.Plan.Streams.{Producing, produces, depletes, Serving, hands, asks, ends}

-- The graph is what the operations of a pattern change, the groups are what they leave alone.
abbrev pub world_of : (libs : Libs) → libs.groups.Map → Graph → World libs
world_of libs γ g = record { graph = g; groups = γ }

-- The graphs of a scan: the node in the slot is each entry's in turn.
abbrev pub scanned : ℕ → Graph → List (Text × ℕ) → List Graph
scanned slot g [] = []
scanned slot g (e ∷ es) = set_node g slot e.1 ∷ scanned slot (set_node g slot e.1) es

abbrev pub filtering : {libs : Libs} → FilterNode → FilterState → Operation libs
filtering t st = filter (record { filter_tree = t; state = st })

module _ (m : Machine) (libs : Libs) (h : Heap) (reg : Registry) (q : Query) where
  abbrev pub ops : OpBase (Operation libs) (World libs)
  ops = base libs m h reg q

  -- The graphs that pass the tree.
  abbrev pub passing : FilterNode → List Graph → Run (List Graph)
  passing t [] = ok []
  passing t (g ∷ gs) = apply_filters m h g t >>= λ pass.
      passing t gs >>= λ rest. ok (if pass then g ∷ rest else rest)

  pub label_scan-Producing :
      (es : List (Text × ℕ)) (op : Scan libs) (g : Graph)
      → Producing ops
          (world_of libs)
          (node_by_label_scan (record op { iter = es }))
          g
          (scanned op.node g es)
  unfolding consume label_scan_consume
  label_scan-Producing [] op g =
      depletes (node_by_label_scan (record op { iter = [] })) g (λ γ. refl)
  label_scan-Producing (e ∷ es) op g =
      produces (node_by_label_scan (record op { iter = es })) (λ γ. refl)
        (label_scan-Producing es op (set_node g op.node e.1))

  pub all_scan-Producing :
      (es : List (Text × ℕ)) (op : Scan libs) (g : Graph)
      → Producing ops
          (world_of libs)
          (all_node_scan (record op { iter = es }))
          g
          (scanned op.node g es)
  unfolding consume scan_consume
  all_scan-Producing [] op g = depletes (all_node_scan (record op { iter = [] })) g (λ γ. refl)
  all_scan-Producing (e ∷ es) op g =
      produces (all_node_scan (record op { iter = es })) (λ γ. refl)
        (all_scan-Producing es op (set_node g op.node e.1))

  module _ (t : FilterNode) where
    verdict_lem :
        (g : Graph) (pass : Bool) (γ : libs.groups.Map)
        → apply_filters m h g t ≡ ok pass
        → ops.consume (world_of libs γ g) (filtering t filter_resetted)
          ≡ ok (
            if pass then op_ok else op_refresh,
            world_of libs γ g,
            filtering t filter_request_refresh,
          )
    unfolding consume filter_consume
    verdict_lem g pass γ v = rw v refl

    -- The filter on a graph, before what it then does.
    answer_lem :
        (pass : Bool) (g : Graph) (gs rest : List Graph)
        → apply_filters m h g t ≡ ok pass
        → ((op : Operation libs)
            → ((γ : libs.groups.Map)
                → ops.consume (world_of libs γ g) op
                  ≡ ok (op_refresh, world_of libs γ g, filtering t filter_request_refresh))
            → Serving ops (world_of libs) op g g gs rest)
        → Serving ops
            (world_of libs)
            (filtering t filter_resetted)
            g
            g
            gs
            (if pass then g ∷ rest else rest)
    unfolding consume filter_consume
    answer_lem true g gs rest v after =
        hands (filtering t filter_request_refresh) (λ γ. verdict_lem g true γ v)
          (after (filtering t filter_request_refresh) (λ γ. refl))
    answer_lem false g gs rest v after =
        after (filtering t filter_resetted) (λ γ. verdict_lem g false γ v)

    -- A filter that asks, for whatever reason.
    asking_lem :
        (gs ws : List Graph) (op : Operation libs) (st : FilterState) (g : Graph)
        → ((γ : libs.groups.Map)
            → ops.consume (world_of libs γ g) op
              ≡ ok (op_refresh, world_of libs γ g, filtering t st))
        → passing t gs ≡ ok ws
        → Serving ops (world_of libs) op g g gs ws
    unfolding consume reset filter_consume filter_reset
    asking_lem [] ws op st g does e =
        rw (← ok-injective e)
          (ends (filtering t st) (filtering t filter_resetted) g does (λ γ. refl))
    asking_lem (x ∷ gs) ws op st g does e =
        let (pass, v, e1) = bind-ok (apply_filters m h x t) _ e in
        let (rest, w, e2) = bind-ok (passing t gs) _ e1 in
        asks (filtering t st) (filtering t filter_resetted) g does (λ γ. refl)
          (rw (← ok-injective e2) (
            answer_lem pass x gs rest v
              (λ op' does'. asking_lem gs rest op' filter_request_refresh x does' w)))

    -- A filter gives the graphs of its stream that pass.
    pub filter-Serving :
        (gs ws : List Graph) (g : Graph)
        → passing t gs ≡ ok ws
        → Serving ops (world_of libs) (filtering t filter_uninitialized) g g gs ws
    unfolding consume filter_consume
    filter-Serving gs ws g e =
        asking_lem gs ws (filtering t filter_uninitialized) filter_uninitialized g (λ γ. refl) e
