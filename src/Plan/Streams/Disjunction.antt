-- ===== src/Plan/Streams/Disjunction.antt =====
-- src/filter_tree/filter_tree.c and src/execution_plan/ops/op_filter.c: an OR over two entities, cut
-- into the filters of two operations.
use redis_graph.Base.{
  Bool, true, false, ◌&&◌, ◌||◌, List, [], ◌∷◌, ok, Text, if◌then◌else◌, ◌≡◌, ◌≢◌, refl,
}
use redis_graph.Value.{Machine, SiValue}
use redis_graph.Value.Compare.{CmpFunc}
use redis_graph.Graph.{Heap, Graph}
use redis_graph.Filter.{FilterNode, Op, cond, or}
use redis_graph.Filter.Prune.{min_filter_tree, remove_pred_nodes}
use redis_graph.Filter.Apply.{apply_filters, combine}
use redis_graph.Filter.Split.{IsCloneable}
use redis_graph.Filter.Meaning.{split_disjunction}
use redis_graph.Aggregate.{Registry}
use redis_graph.Query.{Query}
use redis_graph.Plan.Operations.{Libs, filter_uninitialized}
use redis_graph.Plan.Streams.{Serving}
use redis_graph.Plan.Streams.Select.{world_of, ops, filtering, filter-Serving}

-- The graph alone, or nothing.
abbrev pub kept : Bool → Graph → List Graph
kept pass g = if pass then g ∷ [] else []

module _ (m : Machine) (libs : Libs) (h : Heap) (reg : Registry) (q : Query) (g : Graph) where
  -- A new filter operation with the tree makes the second sequence of graphs of the first one.
  abbrev pub Filters : FilterNode → List Graph → List Graph → Type 0
  Filters t = Serving (ops m libs h reg q) (world_of libs) (filtering t filter_uninitialized) g g

  kept-Filters :
      (t : FilterNode) (x y : Bool)
      → apply_filters m h g t ≡ ok y
      → Filters t (kept x g) (kept (x && y) g)
  kept-Filters t true y e = filter-Serving m libs h reg q t (g ∷ []) (kept y g) g (rw e refl)
  kept-Filters t false y e = filter-Serving m libs h reg q t [] [] g refl

  or_lem :
      (l r : FilterNode) (x y : Bool)
      → apply_filters m h g l ≡ ok x
      → apply_filters m h g r ≡ ok y
      → apply_filters m h g (cond l or r) ≡ ok (x || y)
  unfolding apply_filters combine
  or_lem l r true y a b = rw a refl
  or_lem l r false y a b = rw (a, b) refl

  -- An OR of two constant predicates on different entities is cut, where it can be cloned, with the
  -- first entity seen. On a graph where the predicates have the results x and y, a new filter
  -- operation with the minimum tree and one with the remaining tree over it hand the graph out only
  -- if both hold; an operation with the whole tree hands it out if one of them holds.
  pub split_disjunction-Serving :
      (a b p p' : Text) (o o' : Op) (v w : SiValue) (f f' : CmpFunc) (x y : Bool)
      → a ≢ b
      → IsCloneable m (cond (FilterNode.constant a p o v f) or (FilterNode.constant b p' o' w f'))
      → apply_filters m h g (FilterNode.constant a p o v f) ≡ ok x
      → apply_filters m h g (FilterNode.constant b p' o' w f') ≡ ok y
      → (first : FilterNode) × (rest : FilterNode) × (between : List Graph) × (min_filter_tree m
            (a ∷ [])
            (cond (FilterNode.constant a p o v f) or (FilterNode.constant b p' o' w f'))
          ≡ ok first)
        × (remove_pred_nodes
              (a ∷ [])
              (cond (FilterNode.constant a p o v f) or (FilterNode.constant b p' o' w f'))
            ≡ ok rest)
        × Filters first (g ∷ []) between
        × Filters rest between (kept (x && y) g)
        × Filters
            (cond (FilterNode.constant a p o v f) or (FilterNode.constant b p' o' w f'))
            (g ∷ [])
            (kept (x || y) g)
  split_disjunction-Serving a b p p' o o' v w f f' x y apart cloned left right =
      let l = FilterNode.constant a p o v f in
      let r = FilterNode.constant b p' o' w f' in
      let (low, high) = split_disjunction m a b p p' o o' v w f f' apart cloned in
      (
        l,
        r,
        kept x g,
        low,
        high,
        kept-Filters l true x left,
        kept-Filters r x y right,
        kept-Filters (cond l or r) true (x || y) (or_lem l r x y left right),
      )
