-- ===== src/Plan.antt =====
-- src/execution_plan/execution_plan.h and ops/op.h: the nodes of an execution plan. Operation nodes
-- lie in a list, where a pointer is an index, so that two parents can share a child; what an
-- operation is, is a parameter here, as OpBase hides it behind its function pointers.
pub mod Tree
pub mod TreeLaws
pub mod Execute
pub mod Operations
pub mod Consume
pub mod Draft
pub mod Optimize
pub mod Filters
pub mod Print
pub mod Start
pub mod Pipeline
pub mod Expand
pub mod Streams
use redis_graph.Base.{ℕ, List, [], Option, Run, deref, get_elem?}

pub data OpResult : Type 0 where
  op_depleted op_refresh op_ok op_err : OpResult

pub data StreamState : Type 0 where
  stream_uninitialized stream_consuming stream_depleted : StreamState

-- `child_count` and `parent_count` are the lengths of the two lists.
pub record OpNode (O : Type 0) : Type 0 where
  pub operation : O
  pub children : List ℕ
  pub parents : List ℕ
  pub state : StreamState

-- NewOpNode
unfoldable pub new_op_node : {O : Type 0} → O → OpNode O
new_op_node op = record {
  operation = op;
  children = [];
  parents = [];
  state = stream_uninitialized;
}

abbrev pub op_node_at : {O : Type 0} → List (OpNode O) → ℕ → Run (OpNode O)
op_node_at ns i = deref (get_elem? ns i)
