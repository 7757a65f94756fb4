-- ===== src/Plan/Streams/Executed.antt =====
-- src/execution_plan/execution_plan.c: executing a plan without branches is what its chain stands for.
use redis_graph.Base.{
  ℕ, suc, ◌+◌, ◌≤◌, List, map, Run, ok, ◌>>=◌, bind-ok, ok-injective, length, ◌≡◌,
}
use mathlib.Core.List.{Memᴰ}
use redis_graph.Value.{Machine}
use redis_graph.Hexastore.{sp}
use redis_graph.Hexastore.Edges.{IsHexastore}
use redis_graph.Plan.Streams.Hop.{IsPattern, HasId, Found, scanned-Found}
use redis_graph.Plan.Streams.Chains.{expanded, label_scan}
use redis_graph.Plan.Operations.{Scan, ExpandAll}
use redis_graph.Base.{Text, ◌↔◌, refl, arith}
use redis_graph.Graph.{Heap, Graph, Node, Edge}
use redis_graph.Aggregate.{Registry}
use redis_graph.Query.{Query}
use redis_graph.ResultSet.{new_result_set}
use redis_graph.Plan.{StreamState}
use redis_graph.Plan.Operations.{Libs, produce_results, new_produce_results}
use redis_graph.Plan.Consume.{World}
use redis_graph.Plan.Start.{ExecutionPlan, run_execution_plan}
use redis_graph.Plan.Streams.{place, with_child, Agrees, And}
use redis_graph.Plan.Streams.Select.{world_of}
use redis_graph.Plan.Streams.Rows.{Gives, Yields-Gives, aggregated, Yields-aggregate}
use redis_graph.Plan.Streams.Root.{collect}
use redis_graph.Plan.Streams.Collect.{execute_plan-collect}
use redis_graph.Plan.Streams.Chains.{
  Source, plain, grouped, source_top, SourceMembers, source_layout, IsNewSource, graphs, IsOpenAt,
  depth, top, Members, layout, Chain-Yields,
}

module _ (m : Machine) (libs : Libs) (h : Heap) (reg : Registry) (q : Query) where
  -- The rows that a source stands for, the groups being γ at the start.
  abbrev pub rows : libs.groups.Map → Graph → Source libs → Run (List (World libs))
  rows γ g (plain c) = graphs m libs h reg q g c >>= λ gs. ok (map (world_of libs γ) gs)
  rows γ g (grouped i ps s c) = graphs m libs h reg q g c >>= aggregated m libs h reg q γ

  abbrev pub IsOpenSource : Graph → Source libs → Type 0
  IsOpenSource g (plain c) = IsOpenAt m libs h reg q g c
  IsOpenSource g (grouped i ps s c) = IsOpenAt m libs h reg q g c

  abbrev pub source_depth : Graph → Source libs → ℕ
  source_depth g (plain c) = depth m libs h reg q g c
  source_depth g (grouped i ps s c) = suc (suc (depth m libs h reg q g c))

  Source-Gives :
      (src : Source libs) (γ : libs.groups.Map) (g : Graph) (ws : List (World libs))
      → IsNewSource libs src
      → IsOpenSource g src
      → rows γ g src ≡ ok ws
      → Gives m libs h reg q
          (SourceMembers libs src)
          (source_top libs src)
          (source_depth g src)
          (source_layout libs src)
          (world_of libs γ g)
          ws
  Source-Gives (plain c) γ g ws new opens found =
      let (gs, below, e) = bind-ok (graphs m libs h reg q g c) _ found in
      rw (← ok-injective e) (
        Yields-Gives m libs h reg q (Members libs c) (top libs c) (depth m libs h reg q g c)
          (layout libs c) g gs γ (Chain-Yields m libs h reg q c g gs new opens below))
  Source-Gives (grouped i ps s c) γ g ws (apart, new) opens found =
      let (gs, below, taken) = bind-ok (graphs m libs h reg q g c) _ found in
      Yields-aggregate m libs h reg q (Members libs c) i (top libs c) (depth m libs h reg q g c) ps
        apart gs ws γ g (layout libs c) s taken (Chain-Yields m libs h reg q c g gs new opens below)

-- A plan whose root is over the source.
pub record IsPlanOf {libs : Libs} (plan : ExecutionPlan libs) (src : Source libs) : Type 0 where
  pub parents : List ℕ
  pub state : StreamState
  pub new : IsNewSource libs src
  pub apart : ¬ SourceMembers libs src plan.root
  pub laid_out :
      Agrees
        (And (SourceMembers libs src) plan.root)
        (place (source_layout libs src) plan.root (
          with_child
            (produce_results (new_produce_results libs))
            (source_top libs src)
            parents
            state))
        plan.draft.nodes

-- Executing a plan whose root, as it is made, is over a chain, or over an aggregation over a chain,
-- with each index once and the expansions as they are made, with cleared memory, where an expansion
-- is given graphs with the pattern's entities in the slots that it writes, and where the rows that
-- the source stands for can be computed: with fuel for the depth of the source, its rows and three
-- more, it is what collecting the rows, from a new result set on, is. That is the result set and the
-- groups as they are when the rows are at their end or no record is taken any more, or the failure.
pub run_execution_plan-collect :
    (m : Machine) (libs : Libs) (reg : Registry) (q : Query) (plan : ExecutionPlan libs)
    (src : Source libs) (γ : libs.groups.Map) (ws : List (World libs)) (fuel : ℕ)
    → IsPlanOf plan src
    → IsOpenSource m libs plan.heap reg q plan.graph src
    → rows m libs plan.heap reg q γ plan.graph src ≡ ok ws
    → source_depth m libs plan.heap reg q plan.graph src + length ws + 3 ≤ fuel
    → run_execution_plan m libs fuel reg q plan γ ≡ (
        new_result_set m libs.heaps libs.seen q >>= λ held.
        collect m libs plan.heap reg q held γ ws)
unfolding run_execution_plan
run_execution_plan-collect m libs reg q plan src γ ws fuel p opens found enough =
    execute_plan-collect m libs plan.heap reg q (SourceMembers libs src) plan.root
      (source_top libs src) (source_depth m libs plan.heap reg q plan.graph src) p.parents p.apart
      ws fuel (world_of libs γ plan.graph) (source_layout libs src) p.state plan.draft.nodes
      (Source-Gives m libs plan.heap reg q src γ plan.graph ws p.new opens found) enough p.laid_out

-- The plan of two nodes and the link between them: results over an expansion over the scan of a
-- label. Every operation is new; of the expansion that is, its state is uninitialized, and its bits
-- of changes are 0 and the kind of its triplet unknown, as in memory that is cleared. The pattern has
-- an edge with a relationship of at most 42 bytes without "@" and a second node, both without ids, and
-- the two nodes are in different slots. The hexastore holds only triplets, each under one of its
-- keys, of edges that have such relationships too, and ids of 64 bits, as their sources have. If the
-- scanned nodes have ids, then with enough fuel executing the plan is what collecting rows, from a
-- new result set on, is. The rows are the graphs with the entities of a triplet in the slots, for
-- each scanned node and each triplet stored of an edge with that relationship out of a node with its
-- id, and no others.
pub run_execution_plan-IsPattern :
    (m : Machine) (libs : Libs) (reg : Registry) (q : Query) (plan : ExecutionPlan libs)
    (scan : Scan libs) (op : ExpandAll libs) (i j : ℕ) (ps qs : List ℕ) (s u : StreamState)
    (γ : libs.groups.Map) (edge : Edge) (dest : Node) (r : Text)
    (p : IsPattern libs plan.heap op plan.graph edge dest r)
    → IsPlanOf plan (plain (expanded i ps s op sp 3 (label_scan j qs u scan)))
    → scan.node ≡ op.src_node
    → IsHexastore libs.triplets plan.heap op.hexastore
    → ((e : Text × ℕ) → Memᴰ e scan.iter → HasId libs plan.heap op plan.graph edge dest r p e)
    → (fuel : ℕ) × (gs : List Graph) × (run_execution_plan m libs fuel reg q plan γ ≡ (
        new_result_set m libs.heaps libs.seen q >>= λ held.
        collect m libs plan.heap reg q held γ (map (world_of libs γ) gs)))
      × ((w : Graph)
          → Memᴰ w gs ↔ (
              (e : Text × ℕ) × Memᴰ e scan.iter
              × Found libs plan.heap op plan.graph edge dest r p e w))
run_execution_plan-IsPattern m libs reg q plan scan op i j ps qs s u γ edge dest r p made same held
      ids =
    let (gs, done, opens, iff) =
      scanned-Found libs plan.heap op plan.graph edge dest r p scan.node scan.iter same held ids in
    let src = plain (expanded i ps s op sp 3 (label_scan j qs u scan)) in
    let rows_are = map (world_of libs γ) gs in
    let fuel = source_depth m libs plan.heap reg q plan.graph src + length rows_are + 3 in
    (
      fuel,
      gs,
      run_execution_plan-collect m libs reg q plan src γ rows_are fuel made
          (tt, λ vs found. rw (← ok-injective found) opens) (rw done refl) (omega arith),
      iff,
    )
