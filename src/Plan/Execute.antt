-- ===== src/Plan/Execute.antt =====
-- src/execution_plan/execution_plan.c: pulling records through a plan. The consume and reset
-- functions of the operations are parameters, as the code calls them through pointers.
use redis_graph.Base.{
  ℕ, zero, suc, Bool, true, false, List, [], ◌∷◌, Option, none, some, Run, ok, out_of_fuel, ◌>>=◌,
  set,
}
use redis_graph.Plan.{
  OpResult, op_depleted, op_refresh, op_ok, op_err, OpNode, StreamState, stream_uninitialized,
  stream_consuming, op_node_at,
}

-- The operations of a plan and what they change beside themselves.
pub record Streams (O W : Type 0) : Type 0 where
  pub nodes : List (OpNode O)
  pub world : W

abbrev pub is_ok : OpResult → Bool
is_ok op_ok = true
is_ok _ = false

abbrev pub is_uninitialized : StreamState → Bool
is_uninitialized stream_uninitialized = true
is_uninitialized _ = false

-- The table of function pointers of an operation.
pub record OpBase (O W : Type 0) : Type 0 where
  pub consume : W → O → Run (OpResult × W × O)
  pub reset : W → O → Run (OpResult × W × O)

module _ {O W : Type 0} where
  -- The call of a function pointer on the operation of a node.
  unfoldable pub call :
      (W → O → Run (OpResult × W × O)) → Streams O W → ℕ → Run (OpResult × Streams O W)
  call f p i = do
    n ← op_node_at p.nodes i
    r ← f p.world n.operation
    ok (r.0, record { nodes = set p.nodes i (record n { operation = r.2 }); world = r.1 })

  unfoldable pub start_consuming : Streams O W → ℕ → Run (Streams O W)
  start_consuming p i = do
    n ← op_node_at p.nodes i
    ok (record p { nodes = set p.nodes i (record n { state = stream_consuming }) })

  -- Over the children, what ResetStream does to each.
  unfoldable pub reset_each :
      (Streams O W → ℕ → Run (Streams O W)) → Streams O W → List ℕ → Run (Streams O W)
  reset_each again p [] = ok p
  reset_each again p (c ∷ cs) = do p' ← again p c; reset_each again p' cs

  module _ (execute : Streams O W → ℕ → Run (OpResult × Streams O W)) where
    -- The first loop of PullFromStreams: the children in front of the one that gave a record, the
    -- last one first, and those behind it.
    unfoldable pub advance :
        Streams O W → List ℕ → List ℕ → Run (Option (List ℕ × List ℕ) × Streams O W)
    advance p before [] = ok (none, p)
    advance p before (c ∷ cs) = do
      r ← execute p c
      elim r.0 [ op_ok ↦ ok (some (before, cs), r.1) | _ ↦ advance r.1 (c ∷ before) cs ]

    -- The second loop: the children that were not executed before.
    unfoldable pub pull_uninitialized : Streams O W → List ℕ → Run (OpResult × Streams O W)
    pull_uninitialized p [] = ok (op_ok, p)
    pull_uninitialized p (c ∷ cs) = do
      n ← op_node_at p.nodes c
      elim n.state [
        | stream_uninitialized ↦ (do
          r ← execute p c
          elim r.0 [ op_ok ↦ pull_uninitialized r.1 cs | _ ↦ ok (op_depleted, r.1) ])
        | _ ↦ pull_uninitialized p cs
      ]

    -- The third loop: the depleted children start again.
    unfoldable pub pull_depleted :
        (Streams O W → ℕ → Run (Streams O W)) → Streams O W → List ℕ → Run (OpResult × Streams O W)
    pull_depleted restart p [] = ok (op_ok, p)
    pull_depleted restart p (c ∷ cs) = do
      p' ← restart p c
      r ← execute p' c
      elim r.0 [ op_ok ↦ pull_depleted restart r.1 cs | _ ↦ ok (op_err, r.1) ]

    -- PullFromStreams
    unfoldable pub pull_from_streams :
        (Streams O W → ℕ → Run (Streams O W)) → Streams O W → ℕ → Run (OpResult × Streams O W)
    unfolding advance pull_uninitialized pull_depleted
    pull_from_streams restart p i = do
      n ← op_node_at p.nodes i
      found ← advance p [] n.children
      elim found.0 [
        | none ↦ ok (op_depleted, found.1)
        | some split ↦ (do
          r ← pull_uninitialized found.1 split.1
          elim r.0 [ op_ok ↦ pull_depleted restart r.1 split.0 | _ ↦ ok r ])
      ]

  module _ (base : OpBase O W) where
    -- ResetStream, the fuel for its depth; the result of the reset is not looked at.
    unfoldable pub reset_stream : ℕ → Streams O W → ℕ → Run (Streams O W)
    unfolding call reset_each
    reset_stream zero p i = out_of_fuel
    reset_stream (suc fuel) p i = do
      r ← call base.reset p i
      n ← op_node_at r.1.nodes i
      reset_each (reset_stream fuel) r.1 n.children

    -- The body of _ExecuteOpNode, on the function itself and ResetStream.
    unfoldable pub consume_and_pull :
        (Streams O W → ℕ → Run (OpResult × Streams O W))
        → (Streams O W → ℕ → Run (Streams O W))
        → Streams O W
        → ℕ
        → Run (OpResult × Streams O W)
    unfolding start_consuming call pull_from_streams
    consume_and_pull execute restart p i = do
      started ← start_consuming p i
      r ← call base.consume started i
      elim r.0 [
        | op_refresh ↦ (do
          again ← call base.reset r.1 i
          elim again.0 [
            | op_ok ↦ (do
              pulled ← pull_from_streams execute restart again.1 i
              elim pulled.0 [ op_ok ↦ execute pulled.1 i | _ ↦ ok pulled ])
            | _ ↦ ok (op_err, again.1)
          ])
        | _ ↦ ok r
      ]

    -- _ExecuteOpNode; the fuel is for the depth of the plan and for the jumps back to `consume`.
    unfoldable pub execute_op_node : ℕ → Streams O W → ℕ → Run (OpResult × Streams O W)
    unfolding consume_and_pull reset_stream
    execute_op_node zero p i = out_of_fuel
    execute_op_node (suc fuel) p i = consume_and_pull (execute_op_node fuel) (reset_stream fuel) p i

    -- The loop of ExecutionPlan_Execute.
    unfoldable pub execute_plan : ℕ → Streams O W → ℕ → Run (Streams O W)
    unfolding execute_op_node
    execute_plan zero p root = out_of_fuel
    execute_plan (suc fuel) p root = do
      r ← execute_op_node fuel p root
      elim r.0 [ op_ok ↦ execute_plan fuel r.1 root | _ ↦ ok r.1 ]
