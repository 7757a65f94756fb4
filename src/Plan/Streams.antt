-- ===== src/Plan/Streams.antt =====
-- src/execution_plan/execution_plan.c: an operation node as a stream. What is below it gives a
-- sequence of graphs and is then depleted, whatever the rest of the plan holds.
pub mod Over
pub mod Agree
pub mod Serve
pub mod Select
pub mod Disjunction
pub mod Into
pub mod Slots
pub mod Matches
pub mod Expansion
pub mod Edges
pub mod Rows
pub mod Root
pub mod Collect
pub mod Chains
pub mod Hop
pub mod Executed
use redis_graph.Base.{
  ℕ, suc, ◌≤◌, List, [], ◌∷◌, Option, some, Run, ok, get_elem?, ◌≡◌, ◌⊎◌, ◌==◌, if◌then◌else◌,
}
use redis_graph.Plan.{OpNode, OpResult, op_depleted, op_ok, op_refresh, StreamState}
use redis_graph.Plan.Execute.{OpBase, Streams, execute_op_node}

-- What lies at each index of a plan.
abbrev pub Layout : Type 0 → Type 0
Layout O = ℕ → Option (OpNode O)

abbrev pub place : {O : Type 0} → Layout O → ℕ → OpNode O → Layout O
place l i n j = if j == i then some n else l j

abbrev pub with_child : {O : Type 0} → O → ℕ → List ℕ → StreamState → OpNode O
with_child op child parents state = record {
  operation = op;
  children = child ∷ [];
  parents = parents;
  state = state;
}

-- The nodes of a set, and the nodes outside of it.
abbrev pub Agrees : {O : Type 0} → (ℕ → Type 0) → Layout O → List (OpNode O) → Type 0
Agrees S l ns = (j : ℕ) → S j → get_elem? ns j ≡ l j

abbrev pub Keeps : {O : Type 0} → (ℕ → Type 0) → List (OpNode O) → List (OpNode O) → Type 0
Keeps S ns ns' = (j : ℕ) → ¬ S j → get_elem? ns' j ≡ get_elem? ns j

-- The set with one more node.
abbrev pub And : (ℕ → Type 0) → ℕ → ℕ → Type 0
And S i j = S j ⊎ (j ≡ i)

-- The node alone.
abbrev pub Only : ℕ → ℕ → Type 0
Only i j = j ≡ i

-- The world of a plan is a value, which the operations below change, in a context, which they do
-- not change.
module _ {O W V C : Type 0} (ops : OpBase O W) (world : C → V → W) where
  -- Executing the node gives the values in turn, the fuel being enough for one at a time. Only
  -- nodes of the set are read and changed.
  abbrev pub Yields : (ℕ → Type 0) → ℕ → ℕ → Layout O → V → List V → Type 0
  Yields S i enough l v [] =
      (ns : List (OpNode O)) (γ : C) (fuel : ℕ)
      → enough ≤ fuel
      → Agrees S l ns
      → (p : Streams O W) × (execute_op_node ops fuel (record { nodes = ns; world = world γ v }) i
          ≡ ok (op_depleted, p))
        × Keeps S ns p.nodes
        × ((v' : V) × (p.world ≡ world γ v'))
  Yields S i enough l v (w ∷ ws) =
      (l' : Layout O) × ((ns : List (OpNode O)) (γ : C) (fuel : ℕ)
        → enough ≤ fuel
        → Agrees S l ns
        → (ns' : List (OpNode O)) × (execute_op_node ops fuel
              (record { nodes = ns; world = world γ v }) i
            ≡ ok (op_ok, record { nodes = ns'; world = world γ w }))
          × Keeps S ns ns'
          × Agrees S l' ns')
      × Yields S i enough l' w ws

  -- An operation that scans: it hands out values until it is depleted.
  pub data Producing : O → V → List V → Type 0 where
    produces :
        {op : O} {v w : V} {ws : List V} (op' : O)
        → ((γ : C) → ops.consume (world γ v) op ≡ ok (op_ok, world γ w, op'))
        → Producing op' w ws
        → Producing op v (w ∷ ws)
    depletes :
        {op : O} {v : V} (op' : O) (v' : V)
        → ((γ : C) → ops.consume (world γ v) op ≡ ok (op_depleted, world γ v', op'))
        → Producing op v []

  -- An operation on a stream, at the value v, where the stream stands at b and has yet to give gs:
  -- it hands out values, or asks for the next, and has then set the world back to b.
  pub data Serving : O → V → V → List V → List V → Type 0 where
    hands :
        {op : O} {v b w : V} {gs ws : List V} (op' : O)
        → ((γ : C) → ops.consume (world γ v) op ≡ ok (op_ok, world γ w, op'))
        → Serving op' w b gs ws
        → Serving op v b gs (w ∷ ws)
    asks :
        {op : O} {v b g : V} {gs ws : List V} (op' op'' : O) (v' : V)
        → ((γ : C) → ops.consume (world γ v) op ≡ ok (op_refresh, world γ v', op'))
        → ((γ : C) → ops.reset (world γ v') op' ≡ ok (op_ok, world γ b, op''))
        → Serving op'' g g gs ws
        → Serving op v b (g ∷ gs) ws
    ends :
        {op : O} {v b : V} (op' op'' : O) (v' : V)
        → ((γ : C) → ops.consume (world γ v) op ≡ ok (op_refresh, world γ v', op'))
        → ((γ : C) → ops.reset (world γ v') op' ≡ ok (op_ok, world γ b, op''))
        → Serving op v b [] []
