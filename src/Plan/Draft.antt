-- ===== src/Plan/Draft.antt =====
-- src/execution_plan/execution_plan.c: the first part of NewExecutionPlan, which makes a chain of
-- operations for each node of the pattern that no edge leads to.
use redis_graph.Base.{
  ℕ, zero, suc, Option, none, some, List, [], ◌∷◌, ◌++◌, Run, ok, out_of_fuel, ◌>>=◌, deref, Text,
  length,
}
use redis_graph.Graph.{Heap, Graph, node_at, edge_at, node_ref, edge_ref}
use redis_graph.Plan.{OpNode, new_op_node}
use redis_graph.Plan.Tree.{add_child}
use redis_graph.Plan.Operations.{
  Libs, Operation, Keys, all_node_scan, node_by_label_scan, expand_all, new_all_node_scan,
  new_node_by_label_scan, new_expand_all,
}

-- The operation nodes made so far, and the database, in which a missing store is made.
pub record Draft (libs : Libs) : Type 0 where
  pub nodes : List (OpNode (Operation libs))
  pub keys : Keys libs

module _ {libs : Libs} where
  -- NewOpNode, with the index of the node.
  unfoldable pub make_node : Draft libs → Operation libs → ℕ × Draft libs
  unfolding new_op_node
  make_node d op = (length d.nodes, record d { nodes = d.nodes ++ new_op_node op ∷ [] })

  unfoldable pub link_child : Draft libs → ℕ → ℕ → Run (Draft libs)
  unfolding add_child
  link_child d parent child = do ns ← add_child d.nodes parent child; ok (record d { nodes = ns })

  -- The operations from the top of the stack down: each is the child of the next.
  unfoldable pub connect_ops : Draft libs → List ℕ → Run (Draft libs)
  unfolding link_child
  connect_ops d [] = ok d
  connect_ops d (prev ∷ []) = ok d
  connect_ops d (prev ∷ current ∷ rest) = do
    d' ← link_child d current prev
    connect_ops d' (current ∷ rest)

  module _ (g : Graph) (graph_name : Text) where
    -- The scan of a node, by its label if it has one.
    unfoldable pub scan_operation : Draft libs → ℕ → Option Text → Run (ℕ × Draft libs)
    unfolding make_node new_all_node_scan new_node_by_label_scan
    scan_operation d slot none = do
      r ← new_all_node_scan libs d.keys graph_name g slot
      ok (make_node (record d { keys = r.1 }) (all_node_scan r.0))
    scan_operation d slot (some label) = do
      r ← new_node_by_label_scan libs d.keys graph_name g slot label
      ok (make_node (record d { keys = r.1 }) (node_by_label_scan r.0))

    -- The memory that malloc gives to the n-th operation node is a parameter.
    module _ (h : Heap) (leftover : ℕ → ℕ) where
      unfoldable pub expand_operation : Draft libs → ℕ → ℕ → ℕ → Run (ℕ × Draft libs)
      unfolding make_node new_expand_all
      expand_operation d src e dest = do
        a ← deref (node_ref g src)
        r ← deref (edge_ref g e)
        b ← deref (node_ref g dest)
        op ← new_expand_all libs h d.keys graph_name g a r b (leftover (length d.nodes))
        ok (make_node (record d { keys = op.1 }) (expand_all op.0))

      -- The walk along the first outgoing edges, which has no end in a cycle.
      unfoldable pub expand_from : ℕ → Draft libs → ℕ → Run (List ℕ × Draft libs)
      unfolding expand_operation
      expand_from zero d src = do
        n ← node_at h src
        elim n.outgoing [ [] ↦ ok ([], d) | e ∷ _ ↦ out_of_fuel ]
      expand_from (suc fuel) d src = do
        n ← node_at h src
        elim n.outgoing [
          | [] ↦ ok ([], d)
          | e ∷ _ ↦ (do
            edge ← edge_at h e
            made ← expand_operation d src e edge.dest
            more ← expand_from fuel made.1 edge.dest
            ok (made.0 ∷ more.0, more.1))
        ]

      -- The operations of one entry node.
      unfoldable pub entry_operations : ℕ → Draft libs → ℕ → Run (List ℕ × Draft libs)
      unfolding scan_operation expand_from
      entry_operations fuel d a = do
        n ← node_at h a
        elim n.outgoing [
          | [] ↦ (do
            slot ← deref (node_ref g a)
            made ← scan_operation d slot n.label
            ok (made.0 ∷ [], made.1))
          | _ ↦ expand_from fuel d a
        ]

      -- The loop over the entry nodes; only the first finds an aggregation on the stack.
      unfoldable pub add_entries : ℕ → ℕ → Draft libs → List ℕ → List ℕ → Run (Draft libs)
      unfolding entry_operations connect_ops
      add_entries fuel root d stack [] = ok d
      add_entries fuel root d stack (a ∷ rest) = do
        ops ← entry_operations fuel d a
        d' ← connect_ops ops.1 (ops.0 ++ stack)
        add_entries fuel root d' (root ∷ []) rest
