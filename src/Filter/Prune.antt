-- ===== src/Filter/Prune.antt =====
-- Taking predicates out of a filter tree.
use redis_graph.Base.{
  Bool, true, false, ◌&&◌, ◌||◌, not, Run, ok, fault, ◌>>=◌, Text, List, if◌then◌else◌,
}
use redis_graph.Value.{Machine}
use redis_graph.Filter.{Op, FilterNode, null, cond, vector_contains}
use redis_graph.Filter.Build.{clone_tree}

abbrev pub is_null_node : FilterNode → Bool
is_null_node null = true
is_null_node _ = false

-- _FilterTree_RemovePredNodes follows its argument without a test.
unfoldable pub remove_pred_nodes_from : List Text → FilterNode → Run FilterNode
unfolding vector_contains
remove_pred_nodes_from seen null = fault
remove_pred_nodes_from seen (FilterNode.varying la lp op ra rp f) = ok (
    if vector_contains seen la && vector_contains seen ra
    then null
    else FilterNode.varying la lp op ra rp f)
remove_pred_nodes_from seen (FilterNode.constant a p op v f) =
    ok (if vector_contains seen a then null else FilterNode.constant a p op v f)
remove_pred_nodes_from seen (cond l op r) = do
  a ← remove_pred_nodes_from seen l
  b ← remove_pred_nodes_from seen r
  ok (cond a op b)

unfoldable pub remove_all_nodes_except : List Text → FilterNode → Run FilterNode
unfolding vector_contains
remove_all_nodes_except seen null = fault
remove_all_nodes_except seen (FilterNode.varying la lp op ra rp f) = ok (
    if not (vector_contains seen la) || not (vector_contains seen ra)
    then null
    else FilterNode.varying la lp op ra rp f)
remove_all_nodes_except seen (FilterNode.constant a p op v f) =
    ok (if not (vector_contains seen a) then null else FilterNode.constant a p op v f)
remove_all_nodes_except seen (cond l op r) = do
  a ← remove_all_nodes_except seen l
  b ← remove_all_nodes_except seen r
  ok (cond a op b)

-- The tests on return of FilterTree_Squash.
unfoldable pub join_squashed : FilterNode → Op → FilterNode → FilterNode
join_squashed l op r = if is_null_node l then r else if is_null_node r then l else cond l op r

unfoldable pub squash : FilterNode → FilterNode
unfolding join_squashed
squash null = null
squash (FilterNode.varying la lp op ra rp f) = FilterNode.varying la lp op ra rp f
squash (FilterNode.constant a p op v f) = FilterNode.constant a p op v f
squash (cond l op r) =
    if is_null_node l
    then squash r
    else if is_null_node r
    then squash l
    else join_squashed (squash l) op (squash r)

-- FilterTree_RemovePredNodes
unfoldable pub remove_pred_nodes : List Text → FilterNode → Run FilterNode
unfolding remove_pred_nodes_from squash
remove_pred_nodes seen t =
    if is_null_node t then ok null else remove_pred_nodes_from seen t >>= λ u. ok (squash u)

unfoldable pub min_filter_tree : Machine → List Text → FilterNode → Run FilterNode
unfolding clone_tree remove_all_nodes_except squash
min_filter_tree m seen t = do c ← clone_tree m t; u ← remove_all_nodes_except seen c; ok (squash u)

-- FilterTree_ContainsNode
unfoldable pub contains_node : List Text → FilterNode → Bool
unfolding vector_contains
contains_node seen null = false
contains_node seen (FilterNode.constant a p op v f) = vector_contains seen a
contains_node seen (FilterNode.varying la lp op ra rp f) =
    vector_contains seen la && vector_contains seen ra
contains_node seen (cond l op r) = contains_node seen l || contains_node seen r
