-- ===== src/Tests/Disjunction.antt =====
-- A Filter operation for each half of an OR: the theorem at two people of whom one is older than 30.
use redis_graph.Base.{true, false, codes, [], ◌∷◌, List, ok, some, ◌≡◌, refl}
use redis_graph.Value.{bits, clone, double_val}
use redis_graph.Value.Compare.{cmp_double, cmp_generic}
use redis_graph.Filter.Build.{cmp_for_type}
use redis_graph.Graph.{Graph, find_by_alias, get_entity_by_alias, get_node_by_alias, get_property}
use redis_graph.Filter.{FilterNode, cond, or, gt}
use redis_graph.Filter.Prune.{min_filter_tree, remove_pred_nodes}
use redis_graph.Filter.Apply.{apply_filters, apply_predicate}
use redis_graph.Plan.Streams.Disjunction.{Filters, split_disjunction-Serving}
use redis_graph.Tests.{machine}
use redis_graph.Tests.Filters.{older, a_is_not_b}
use redis_graph.Tests.Plans.{aged, libs, older_people}

-- The first of the two is 33, the second 20.
abbrev both : Graph
both = record {
  nodes = 0 ∷ 1 ∷ [];
  edges = [];
  node_aliases = some (codes "a") ∷ some (codes "b") ∷ [];
  edge_aliases = [];
}

first_passes : apply_filters machine aged both (older (codes "a")) ≡ ok true
unfolding apply_filters apply_predicate get_entity_by_alias get_node_by_alias find_by_alias
    cmp_generic get_property double_val bits
first_passes = refl

second_fails : apply_filters machine aged both (older (codes "b")) ≡ ok false
unfolding apply_filters apply_predicate get_entity_by_alias get_node_by_alias find_by_alias
    cmp_generic get_property double_val bits
second_fails = refl

abbrev either : FilterNode
either = cond (older (codes "a")) or (older (codes "b"))

split_disjunction-Serving_example :
    (first : FilterNode) × (rest : FilterNode) × (between : List Graph) × (min_filter_tree machine
        (codes "a" ∷ [])
        either
      ≡ ok first)
    × (remove_pred_nodes (codes "a" ∷ []) either ≡ ok rest)
    × Filters machine libs aged [] older_people both first (both ∷ []) between
    × Filters machine libs aged [] older_people both rest between []
    × Filters machine libs aged [] older_people both either (both ∷ []) (both ∷ [])
unfolding clone cmp_for_type double_val
split_disjunction-Serving_example =
    split_disjunction-Serving machine libs aged [] older_people both (codes "a") (codes "b")
      (codes "age") (codes "age") gt gt (double_val 30) (double_val 30) cmp_double cmp_double true
      false a_is_not_b ((refl, refl), (refl, refl)) first_passes second_fails
