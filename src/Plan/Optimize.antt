-- ===== src/Plan/Optimize.antt =====
-- src/execution_plan/execution_plan.c: entry points and the merge of two expansions to one node.
use redis_graph.Base.{
  ℕ, zero, suc, ◌+◌, Bool, true, false, Option, none, some, List, [], ◌∷◌, Run, ok, out_of_fuel,
  ◌>>=◌, Text, length, get_elem?, set, ◌==◌, if◌then◌else◌,
}
use redis_graph.Graph.{Heap, Graph, node_at, income_degree}
use redis_graph.Plan.{OpNode, op_node_at}
use redis_graph.Plan.Tree.{contains_child, remove_child}
use redis_graph.Plan.Operations.{
  Libs, Operation, ExpandAll, expand_all, expand_into, node_in, new_expand_into,
}
use redis_graph.Plan.Draft.{Draft, link_child, scan_operation}

-- The children pushed one by one, the last on top.
unfoldable pub push_each : List ℕ → List ℕ → List ℕ
push_each [] stack = stack
push_each (c ∷ cs) stack = push_each cs (c ∷ stack)

module _ {libs : Libs} where
  abbrev as_expand_all : Operation libs → Option (ExpandAll libs)
  as_expand_all (expand_all op) = some op
  as_expand_all _ = none

  module _ (h : Heap) (g : Graph) (graph_name : Text) where
    -- A leaf that expands gets a scan of its source node; other leaves are left alone.
    unfoldable pub add_entry_scan : Draft libs → ℕ → Option (ExpandAll libs) → Run (Draft libs)
    unfolding scan_operation link_child
    add_entry_scan d i none = ok d
    add_entry_scan d i (some op) = do
      a ← node_in g op.src_node
      n ← node_at h a
      made ← scan_operation g graph_name d op.src_node n.label
      link_child made.1 i made.0

    unfoldable pub optimize_each :
        (Draft libs → ℕ → Run (Draft libs)) → Draft libs → List ℕ → Run (Draft libs)
    optimize_each optimize d [] = ok d
    optimize_each optimize d (c ∷ cs) = do d' ← optimize d c; optimize_each optimize d' cs

    -- _ExecutionPlan_OptimizeEntryPoints, the fuel for the depth of the plan.
    unfoldable pub optimize_entry_points : ℕ → Draft libs → ℕ → Run (Draft libs)
    unfolding add_entry_scan optimize_each
    optimize_entry_points zero d i = out_of_fuel
    optimize_entry_points (suc fuel) d i = do
      n ← op_node_at d.nodes i
      elim n.children [
        | [] ↦ add_entry_scan d i (as_expand_all n.operation)
        | c ∷ cs ↦ optimize_each (optimize_entry_points fuel) d (c ∷ cs)
      ]

    -- Whether an operation expands to the node.
    unfoldable pub expands_to : ℕ → Option (ExpandAll libs) → Run Bool
    expands_to n none = ok false
    expands_to n (some op) = do b ← node_in g op.dest_node; ok (b == n)

    -- The search of _ExecutionPlan_MergeNodes for the two operations; below the first it does not go.
    unfoldable pub find_expansions :
        ℕ → List (OpNode (Operation libs)) → ℕ → Option ℕ → List ℕ → Run (Option (ℕ × ℕ))
    unfolding expands_to push_each
    find_expansions fuel ns n a [] = ok none
    find_expansions zero ns n a (current ∷ stack) = out_of_fuel
    find_expansions (suc fuel) ns n a (current ∷ stack) = do
      node ← op_node_at ns current
      hit ← expands_to n (as_expand_all node.operation)
      let deeper = find_expansions fuel ns n a (push_each node.children stack)
      let first = find_expansions fuel ns n (some current) stack
      if hit then elim a [ none ↦ first | some b ↦ ok (some (b, current)) ] else deeper

    -- The loop over the parents of b, which removes entries from the list that it goes through.
    unfoldable pub inherit_parents : ℕ → Draft libs → ℕ → ℕ → ℕ → Run (Draft libs)
    unfolding link_child contains_child remove_child
    inherit_parents zero d a b i = do
      n ← op_node_at d.nodes b
      elim (get_elem? n.parents i) [ none ↦ ok d | some p ↦ out_of_fuel ]
    inherit_parents (suc fuel) d a b i = do
      n ← op_node_at d.nodes b
      elim (get_elem? n.parents i) [
        | none ↦ ok d
        | some p ↦ elim (p == a) [
          | true ↦ inherit_parents fuel d a b (i + 1)
          | false ↦ (do
            parent ← op_node_at d.nodes p
            d' ← (if contains_child parent.children a then ok d else link_child d p a)
            ns ← remove_child d'.nodes p b
            inherit_parents fuel (record d' { nodes = ns }) a b (i + 1))
        ]
      ]

    -- The operation of a becomes ExpandInto, and a takes the place of b above it.
    unfoldable pub merge_expansions : Draft libs → ℕ → ℕ → Run (Draft libs)
    unfolding inherit_parents new_expand_into link_child
    merge_expansions d a b = do
      n ← op_node_at d.nodes a
      elim (as_expand_all n.operation) [
        | none ↦ ok d
        | some op ↦ (do
          made ← new_expand_into libs d.keys graph_name g op.src_node op.relation op.dest_node
          let into = record n { operation = expand_into made.0 }
          linked ← link_child (record { nodes = set d.nodes a into; keys = made.1 }) a b
          child ← op_node_at linked.nodes b
          inherit_parents (length child.parents) linked a b 0)
      ]

    -- _ExecutionPlan_MergeNodes
    unfoldable pub merge_nodes : ℕ → Draft libs → ℕ → ℕ → Run (Draft libs)
    unfolding find_expansions merge_expansions
    merge_nodes fuel d root a = do
      n ← node_at h a
      found ←
          (if income_degree n == 2
            then find_expansions fuel d.nodes a none (root ∷ [])
            else ok none)
      elim found [ none ↦ ok d | some pair ↦ merge_expansions d pair.0 pair.1 ]

    unfoldable pub merge_each : ℕ → Draft libs → ℕ → List ℕ → Run (Draft libs)
    unfolding merge_nodes
    merge_each fuel d root [] = ok d
    merge_each fuel d root (a ∷ rest) = do
      d' ← merge_nodes fuel d root a
      merge_each fuel d' root rest
