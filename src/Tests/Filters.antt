-- ===== src/Tests/Filters.antt =====
-- Filter trees: the theorems at a WHERE clause about two people.
use redis_graph.Base.{
  Text, codes, text_eq, text_eq_iff, arith, [], ◌∷◌, List, some, ok, true, false, refl, inr, Bool,
  ◌≡◌, ◌&&◌, not, select, ◌≢◌,
}
use redis_graph.Value.{Machine, SiValue, double_val, clone}
use redis_graph.Value.Compare.{cmp_double}
use redis_graph.Graph.{Heap, Graph}
use redis_graph.Filter.{AstFilter, FilterNode, cond, and, or, gt}
use redis_graph.Filter.Build.{cmp_for_type}
use redis_graph.Filter.Prune.{min_filter_tree, remove_pred_nodes, contains_node}
use redis_graph.Filter.Apply.{apply_filters, apply_predicate}
use redis_graph.Filter.Split.{leaves, split_leaves}
use redis_graph.Filter.Meaning.{passes, split_conjunction, apply_filters-passes}
use redis_graph.Tests.{machine, heap}

abbrev pub older : Text → FilterNode
older a = FilterNode.constant a (codes "age") gt (double_val 30) cmp_double

abbrev both_older : FilterNode
both_older = cond (older (codes "a")) and (older (codes "b"))

abbrev seen_a : List Text
seen_a = codes "a" ∷ []

abbrev graph : Graph
graph = record {
  nodes = 0 ∷ [];
  edges = [];
  node_aliases = some (codes "a") ∷ [];
  edge_aliases = [];
}

abbrev always : FilterNode → Bool
always t = true

split_conjunction_example :
    (a : FilterNode) × (b : FilterNode) × (min_filter_tree machine seen_a both_older ≡ ok a)
    × (remove_pred_nodes seen_a both_older ≡ ok b)
    × (passes always both_older ≡ (passes always a && passes always b))
unfolding clone cmp_for_type double_val
split_conjunction_example =
    split_conjunction machine seen_a both_older always ((refl, refl), (refl, refl)) (refl, tt, tt)

split_leaves_example :
    (a : FilterNode) × (b : FilterNode) × (min_filter_tree machine seen_a both_older ≡ ok a)
    × (remove_pred_nodes seen_a both_older ≡ ok b)
    × (leaves a ≡ select (contains_node seen_a) (leaves both_older))
    × (leaves b ≡ select (λ u. not (contains_node seen_a u)) (leaves both_older))
unfolding clone cmp_for_type double_val
split_leaves_example = split_leaves machine seen_a both_older ((refl, refl), (refl, refl))

abbrev age_check : FilterNode → Bool
age_check (FilterNode.constant a p op v f) = true
age_check t = false

apply_filters-passes_example :
    apply_filters machine heap graph (cond (older (codes "a")) or (older (codes "a")))
    ≡ ok (passes age_check (cond (older (codes "a")) or (older (codes "a"))))
unfolding apply_predicate redis_graph.Graph.get_entity_by_alias redis_graph.Graph.get_node_by_alias
    redis_graph.Graph.find_by_alias redis_graph.Value.Compare.cmp_generic
    redis_graph.Graph.get_property double_val redis_graph.Value.bits
apply_filters-passes_example =
    apply_filters-passes machine heap graph age_check
      (cond (older (codes "a")) or (older (codes "a"))) (inr refl, tt, tt) (refl, (refl, tt))

pub a_is_not_b : codes "a" ≢ codes "b"
a_is_not_b h =
    let same : text_eq (codes "a") (codes "b") ≡ true = (text_eq_iff _ _).1 h in
    let apart : text_eq (codes "a") (codes "b") ≡ false = refl in ground arith

abbrev where_clause : AstFilter
where_clause = AstFilter.constant (codes "a") (codes "age") gt (double_val 30)
