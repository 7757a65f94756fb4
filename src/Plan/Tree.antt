-- ===== src/Plan/Tree.antt =====
-- src/execution_plan/execution_plan.c: how operation nodes are linked. The arrays of
-- children and parents are lists; the room that the code makes for them is not modelled.
use redis_graph.Base.{
  ℕ, zero, suc, Bool, true, false, List, [], ◌∷◌, ◌++◌, Run, ok, out_of_fuel, ◌>>=◌, length, set,
  ◌==◌, if◌then◌else◌,
}
use redis_graph.Plan.{OpNode, op_node_at}

-- _OpNode_ContainsChild, on the list of children.
unfoldable pub contains_child : List ℕ → ℕ → Bool
contains_child [] c = false
contains_child (x ∷ xs) c = let rest = contains_child xs c in if x == c then true else rest

-- The shift to the left behind the first occurrence.
unfoldable pub remove_first : ℕ → List ℕ → List ℕ
remove_first c [] = []
remove_first c (x ∷ xs) = let rest = remove_first c xs in if x == c then xs else x ∷ rest

module _ {O : Type 0} where
  -- _OpNode_AddChild: the two pushes, in order.
  unfoldable pub add_child : List (OpNode O) → ℕ → ℕ → Run (List (OpNode O))
  add_child ns parent child = do
    a ← op_node_at ns parent
    let ns' = set ns parent (record a { children = a.children ++ child ∷ [] })
    b ← op_node_at ns' child
    ok (set ns' child (record b { parents = b.parents ++ parent ∷ [] }))

  -- _OpNode_RemoveNode, with _OpNode_RemoveChild and _OpNode_RemoveParent, which call it.
  unfoldable pub remove_child : List (OpNode O) → ℕ → ℕ → Run (List (OpNode O))
  unfolding remove_first
  remove_child ns parent child = do
    a ← op_node_at ns parent
    let ns' = set ns parent (record a { children = remove_first child a.children })
    b ← op_node_at ns' child
    ok (set ns' child (record b { parents = remove_first parent b.parents }))

  -- The loop of _OpNode_PushInBetween, which ends when the parent has no child.
  unfoldable pub move_children : ℕ → List (OpNode O) → ℕ → ℕ → Run (List (OpNode O))
  unfolding add_child remove_child
  move_children zero ns parent only = do
    a ← op_node_at ns parent
    elim a.children [ [] ↦ ok ns | c ∷ cs ↦ out_of_fuel ]
  move_children (suc fuel) ns parent only = do
    a ← op_node_at ns parent
    elim a.children [
      | [] ↦ ok ns
      | c ∷ cs ↦ (do
        added ← add_child ns only c
        removed ← remove_child added parent c
        move_children fuel removed parent only)
    ]

  -- _OpNode_PushInBetween: each round takes one child away, if the two nodes are different.
  unfoldable pub push_in_between : List (OpNode O) → ℕ → ℕ → Run (List (OpNode O))
  unfolding move_children
  push_in_between ns parent only = do
    a ← op_node_at ns parent
    moved ← move_children (length a.children) ns parent only
    add_child moved parent only
