-- ===== src/Plan/Streams/Chains.antt =====
-- src/execution_plan/: plans without branches, read as what they compute. A chain of scans, filters
-- and expansions, by the indices of its nodes, stands for a sequence of graphs.
use redis_graph.Base.{
  ℕ, ◌+◌, List, [], none, All, Run, ok, ◌>>=◌, bind-ok, ok-injective, length, ◌≡◌,
}
use redis_graph.Value.{Machine}
use redis_graph.Graph.{Heap, Graph}
use redis_graph.Hexastore.{TripletKind, unknow}
use redis_graph.Filter.{FilterNode}
use redis_graph.Aggregate.{Registry}
use redis_graph.Query.{Query}
use redis_graph.Plan.{OpNode, StreamState}
use redis_graph.Plan.Operations.{
  Libs, Operation, Scan, ExpandAll, node_by_label_scan, all_node_scan, expand_all, aggregate,
  new_aggregate, filter_uninitialized, expand_all_uninitialized,
}
use redis_graph.Plan.Streams.{Layout, place, with_child, And, Only, Yields}
use redis_graph.Plan.Streams.Serve.{Serving-Yields, Producing-Yields}
use redis_graph.Plan.Streams.Over.{place_self}
use redis_graph.Plan.Streams.Select.{
  world_of, ops, scanned, passing, filtering, label_scan-Producing, all_scan-Producing,
  filter-Serving,
}
use redis_graph.Plan.Streams.Matches.{matching, IsOpen}
use redis_graph.Plan.Streams.Expansion.{expand-Serving}

-- A node with its index, its parents and its state. An expansion comes with the kind of triplet
-- that it searches for and the bits of what it changes.
pub data Chain (libs : Libs) : Type 0 where
  label_scan : ℕ → List ℕ → StreamState → Scan libs → Chain libs
  all_scan : ℕ → List ℕ → StreamState → Scan libs → Chain libs
  filtered : ℕ → List ℕ → StreamState → FilterNode → Chain libs → Chain libs
  expanded : ℕ → List ℕ → StreamState → ExpandAll libs → TripletKind → ℕ → Chain libs → Chain libs

-- With an aggregation on top, or without.
pub data Source (libs : Libs) : Type 0 where
  plain : Chain libs → Source libs
  grouped : ℕ → List ℕ → StreamState → Chain libs → Source libs

module _ (libs : Libs) where
  abbrev pub top : Chain libs → ℕ
  top (label_scan i ps s op) = i
  top (all_scan i ps s op) = i
  top (filtered i ps s t c) = i
  top (expanded i ps s op k b c) = i

  abbrev pub Members : Chain libs → ℕ → Type 0
  Members (label_scan i ps s op) = Only i
  Members (all_scan i ps s op) = Only i
  Members (filtered i ps s t c) = And (Members c) i
  Members (expanded i ps s op k b c) = And (Members c) i

  abbrev leaf : Operation libs → List ℕ → StreamState → OpNode (Operation libs)
  leaf op ps s = record { operation = op; children = []; parents = ps; state = s }

  -- What lies at each index.
  abbrev pub layout : Chain libs → Layout (Operation libs)
  layout (label_scan i ps s op) = place (λ j. none) i (leaf (node_by_label_scan op) ps s)
  layout (all_scan i ps s op) = place (λ j. none) i (leaf (all_node_scan op) ps s)
  layout (filtered i ps s t c) =
      place (layout c) i (with_child (filtering t filter_uninitialized) (top c) ps s)
  layout (expanded i ps s op k b c) = place (layout c) i (with_child (expand_all op) (top c) ps s)

  -- No index twice, and the expansions as they are made, with cleared memory.
  abbrev pub IsNew : Chain libs → Type 0
  IsNew (label_scan i ps s op) = Unit
  IsNew (all_scan i ps s op) = Unit
  IsNew (filtered i ps s t c) = (¬ Members c i) × IsNew c
  IsNew (expanded i ps s op k b c) =
      (¬ Members c i)
      × (op.state ≡ expand_all_uninitialized)
      × (op.changes ≡ 0)
      × (op.triplet.kind ≡ unknow)
      × IsNew c

  abbrev pub source_top : Source libs → ℕ
  source_top (plain c) = top c
  source_top (grouped i ps s c) = i

  abbrev pub SourceMembers : Source libs → ℕ → Type 0
  SourceMembers (plain c) = Members c
  SourceMembers (grouped i ps s c) = And (Members c) i

  abbrev pub source_layout : Source libs → Layout (Operation libs)
  source_layout (plain c) = layout c
  source_layout (grouped i ps s c) =
      place (layout c) i (with_child (aggregate (new_aggregate libs)) (top c) ps s)

  abbrev pub IsNewSource : Source libs → Type 0
  IsNewSource (plain c) = IsNew c
  IsNewSource (grouped i ps s c) = (¬ Members c i) × IsNew c

abbrev pub count_of {ℓ} : {A : Type ℓ} → Run (List A) → ℕ
count_of (ok xs) = length xs
count_of _ = 0

module _ (m : Machine) (libs : Libs) (h : Heap) (reg : Registry) (q : Query) where
  -- The graphs that a chain stands for, from a graph on.
  abbrev pub graphs : Graph → Chain libs → Run (List Graph)
  graphs g (label_scan i ps s op) = ok (scanned op.node g op.iter)
  graphs g (all_scan i ps s op) = ok (scanned op.node g op.iter)
  graphs g (filtered i ps s t c) = graphs g c >>= passing m libs h reg q t
  graphs g (expanded i ps s op k b c) = graphs g c >>= matching libs h op k b

  -- The graphs that an expansion is given have the pattern's entities in the slots that it writes.
  abbrev pub IsOpenAt : Graph → Chain libs → Type 0
  IsOpenAt g (label_scan i ps s op) = Unit
  IsOpenAt g (all_scan i ps s op) = Unit
  IsOpenAt g (filtered i ps s t c) = IsOpenAt g c
  IsOpenAt g (expanded i ps s op k b c) =
      IsOpenAt g c × ((gs : List Graph) → graphs g c ≡ ok gs → All (IsOpen libs h op k b) gs)

  -- The fuel for one graph.
  abbrev pub depth : Graph → Chain libs → ℕ
  depth g (label_scan i ps s op) = 1
  depth g (all_scan i ps s op) = 1
  depth g (filtered i ps s t c) = depth g c + count_of (graphs g c) + 1
  depth g (expanded i ps s op k b c) = depth g c + count_of (graphs g c) + 1

  pub Chain-Yields :
      (c : Chain libs) (g : Graph) (ws : List Graph)
      → IsNew libs c
      → IsOpenAt g c
      → graphs g c ≡ ok ws
      → Yields
          (ops m libs h reg q)
          (world_of libs)
          (Members libs c)
          (top libs c)
          (depth g c)
          (layout libs c)
          g
          ws
  Chain-Yields (label_scan i ps s op) g ws new opens found = rw (← ok-injective found) (
      Producing-Yields (ops m libs h reg q) (world_of libs) i _
        (leaf libs (node_by_label_scan op) ps s) g _
        (place_self (λ j. none) i (leaf libs (node_by_label_scan op) ps s))
        (label_scan-Producing m libs h reg q op.iter op g))
  Chain-Yields (all_scan i ps s op) g ws new opens found = rw (← ok-injective found) (
      Producing-Yields (ops m libs h reg q) (world_of libs) i _ (leaf libs (all_node_scan op) ps s)
        g _ (place_self (λ j. none) i (leaf libs (all_node_scan op) ps s))
        (all_scan-Producing m libs h reg q op.iter op g))
  Chain-Yields (filtered i ps s t c) g ws (apart, new) opens found =
      let (gs, below, passed) = bind-ok (graphs g c) _ found in
      rw below (
        Serving-Yields (ops m libs h reg q) (world_of libs) (Members libs c) i (top libs c)
          (depth g c) ps apart (filtering t filter_uninitialized) g g gs ws (layout libs c) s
          (filter-Serving m libs h reg q t gs ws g passed) (Chain-Yields c g gs new opens below))
  Chain-Yields (expanded i ps s op k b c) g ws (apart, fresh, clear, kinds, new) (opens, open_here)
        found =
      let (gs, below, matched) = bind-ok (graphs g c) _ found in
      rw below (
        Serving-Yields (ops m libs h reg q) (world_of libs) (Members libs c) i (top libs c)
          (depth g c) ps apart (expand_all op) g g gs ws (layout libs c) s
          (expand-Serving m libs h reg q op k b gs ws g fresh clear kinds (open_here gs below)
            matched)
          (Chain-Yields c g gs new opens below))
