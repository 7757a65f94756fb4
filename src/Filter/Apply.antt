-- ===== src/Filter/Apply.antt =====
-- applyFilters: evaluating a filter tree on the entities of a graph.
use redis_graph.Base.{
  Bool, true, false, Option, none, some, Run, ok, fault, ◌>>=◌, Text, Ordering, if◌then◌else◌,
}
use redis_graph.Value.{Machine, SiValue}
use redis_graph.Value.Compare.{CmpFunc, run_cmp}
use redis_graph.Graph.{Heap, Graph, is_invalid, get_property, get_entity_by_alias}
use redis_graph.Filter.{Op, FilterNode, null, cond, or, and, eq, gt, ge, lt, le, ne}

-- The switch of _applyFilter on the comparison's result; any other operator fails its assertion.
unfoldable pub holds : Op → Ordering → Run Bool
holds eq Ordering.eq = ok true
holds eq _ = ok false
holds gt Ordering.gt = ok true
holds gt _ = ok false
holds ge Ordering.lt = ok false
holds ge _ = ok true
holds lt Ordering.lt = ok true
holds lt _ = ok false
holds le Ordering.gt = ok false
holds le _ = ok true
holds or _ = fault
holds and _ = fault
holds ne _ = fault

module _ (m : Machine) where
  unfoldable pub apply_filter : Option SiValue → Option SiValue → CmpFunc → Op → Run Bool
  unfolding run_cmp holds
  apply_filter a b f op = run_cmp m f a b >>= holds op

  module _ (h : Heap) (g : Graph) where
    -- The entity of an alias with its property, which may be NULL; `none` is a missing entity or
    -- one without an id, for which the predicate is false.
    unfoldable pub side : Text → Text → Run (Option (Option SiValue))
    side alias property = do
      found ← get_entity_by_alias h g (some alias)
      elim found [
        | none ↦ ok none
        | some e ↦ ok (if is_invalid e.id then none else some (get_property e property))
      ]

    unfoldable pub apply_left : Text → Text → Op → Option SiValue → CmpFunc → Run Bool
    unfolding side apply_filter
    apply_left la lp op b f = do
      found ← side la lp
      elim found [ none ↦ ok false | some a ↦ apply_filter a b f op ]

    -- _applyPredicateFilters, on each kind of predicate.
    unfoldable pub apply_predicate : FilterNode → Run Bool
    unfolding side apply_left
    apply_predicate (FilterNode.constant a p op v f) = apply_left a p op (some v) f
    apply_predicate (FilterNode.varying la lp op ra rp f) = do
      found ← side ra rp
      elim found [ none ↦ ok false | some b ↦ apply_left la lp op b f ]
    apply_predicate null = fault
    apply_predicate (cond l op r) = fault

    -- What a condition node makes of the left result and, if it needs it, the right one.
    unfoldable pub combine : Op → Bool → Run Bool → Run Bool
    combine and true r = r
    combine or false r = r
    combine _ pass r = ok pass

    unfoldable pub apply_filters : FilterNode → Run Bool
    unfolding apply_predicate combine
    apply_filters null = fault
    apply_filters (FilterNode.constant a p op v f) =
        apply_predicate (FilterNode.constant a p op v f)
    apply_filters (FilterNode.varying la lp op ra rp f) =
        apply_predicate (FilterNode.varying la lp op ra rp f)
    apply_filters (cond l op r) =
        let right = apply_filters r in apply_filters l >>= λ pass. combine op pass right
