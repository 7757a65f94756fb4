-- ===== src/Plan/Filters.antt =====
-- src/execution_plan/execution_plan.c: _ExecutionPlan_AddFilters, which puts each part of the
-- filter tree as far down the plan as the entities that it reads allow.
use redis_graph.Base.{
  ℕ, zero, suc, true, false, Option, none, some, List, [], ◌∷◌, ◌++◌, Run, ok, out_of_fuel, ◌>>=◌,
  deref, Text, if◌then◌else◌,
}
use redis_graph.Value.{Machine}
use redis_graph.Filter.{FilterNode}
use redis_graph.Filter.Prune.{contains_node, min_filter_tree, remove_pred_nodes, is_null_node}
use redis_graph.Plan.{op_node_at}
use redis_graph.Plan.Tree.{push_in_between}
use redis_graph.Plan.Operations.{Libs, filter, new_filter, op_modifies}
use redis_graph.Plan.Optimize.{push_each}
use redis_graph.Plan.Draft.{Draft, make_node}

-- The entities seen below, what is left of the filter tree, and the plan. No list is NULL.
pub record Placing (libs : Libs) : Type 0 where
  pub seen : Option (List Text)
  pub tree : FilterNode
  pub draft : Draft libs

-- The aliases of an operation; one that is NULL would be read by strcmp.
unfoldable pub alias_texts : List (Option Text) → Run (List Text)
alias_texts [] = ok []
alias_texts (a ∷ rest) = do t ← deref a; more ← alias_texts rest; ok (t ∷ more)

abbrev pub or_empty : Option (List Text) → List Text
or_empty none = []
or_empty (some ts) = ts

module _ {libs : Libs} where
  -- The loop over the children, from the last to the first.
  unfoldable pub filters_below :
      (Draft libs → FilterNode → ℕ → Run (Placing libs))
      → Draft libs
      → FilterNode
      → List Text
      → List ℕ
      → Run (Placing libs)
  filters_below add d t seen [] = ok (record { seen = some seen; tree = t; draft = d })
  filters_below add d t seen (c ∷ cs) = do
    r ← add d t c
    let rest = filters_below add r.draft r.tree (seen ++ or_empty r.seen) cs
    if is_null_node r.tree then ok (record r { seen = none }) else rest

  module _ (m : Machine) where
    -- The minimum tree for the seen entities becomes a filter between the node and its children.
    unfoldable pub place_filter :
        Draft libs → FilterNode → ℕ → List Text → Run (FilterNode × Draft libs)
    unfolding make_node new_filter push_in_between
    place_filter d t i seen = elim (contains_node seen t) [
      | false ↦ ok (t, d)
      | true ↦ (do
        part ← min_filter_tree m seen t
        rest ← remove_pred_nodes seen t
        let made = make_node d (filter (new_filter libs part))
        ns ← push_in_between made.1.nodes i made.0
        ok (rest, record made.1 { nodes = ns }))
    ]

    -- The fuel is for the depth of the plan.
    unfoldable pub add_filters : ℕ → Draft libs → FilterNode → ℕ → Run (Placing libs)
    unfolding filters_below place_filter alias_texts
    add_filters zero d t i = out_of_fuel
    add_filters (suc fuel) d t i = do
      n ← op_node_at d.nodes i
      below ← filters_below (add_filters fuel) d t [] (push_each n.children [])
      elim below.seen [
        | none ↦ ok below
        | some seen ↦ (do
          placed ← place_filter below.draft below.tree i seen
          names ← alias_texts (op_modifies libs n.operation)
          ok (record { seen = some (seen ++ names); tree = placed.0; draft = placed.1 }))
      ]
