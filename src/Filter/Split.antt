-- ===== src/Filter/Split.antt =====
-- What cutting a filter tree in two, as the planner does, means for its predicates.
use mathlib.Core.List.{append-nil}
use redis_graph.Base.{
  Bool, false, not, ok, Text, List, [], ◌∷◌, ◌++◌, ◌≡◌, ◌⊎◌, inl, inr, refl, ap, fun_ext, ap₂, ◌∙◌,
  arith, if◌then◌else◌, select, select-append, some,
}
use redis_graph.Value.{Machine, clone}
use redis_graph.Value.Compare.{cmp_double}
use redis_graph.Filter.{Op, FilterNode, null, cond}
use redis_graph.Filter.Build.{cmp_for_type, clone_tree}
use redis_graph.Filter.Prune.{
  is_null_node, remove_pred_nodes_from, remove_all_nodes_except, join_squashed, squash,
  remove_pred_nodes, min_filter_tree, contains_node,
}

-- The predicates of a tree, left to right.
abbrev pub leaves : FilterNode → List FilterNode
leaves null = []
leaves (FilterNode.constant a p op v f) = FilterNode.constant a p op v f ∷ []
leaves (FilterNode.varying la lp op ra rp f) = FilterNode.varying la lp op ra rp f ∷ []
leaves (cond l op r) = leaves l ++ leaves r

-- No child is missing.
abbrev pub IsFull : FilterNode → Type 0
IsFull null = ⊥
IsFull (FilterNode.constant a p op v f) = Unit
IsFull (FilterNode.varying la lp op ra rp f) = Unit
IsFull (cond l op r) = IsFull l × IsFull r

-- A full tree that FilterTree_Clone copies as it is: every comparison is the one that the code
-- picks, and every constant is as its constructor makes it.
abbrev pub IsCloneable : Machine → FilterNode → Type 0
IsCloneable m null = ⊥
IsCloneable m (FilterNode.constant a p op v f) = (clone m v ≡ ok v) × (cmp_for_type v.type ≡ some f)
IsCloneable m (FilterNode.varying la lp op ra rp f) = f ≡ cmp_double
IsCloneable m (cond l op r) = IsCloneable m l × IsCloneable m r

-- The predicates that pass the test are taken out.
unfoldable pub prune : (FilterNode → Bool) → FilterNode → FilterNode
prune p null = null
prune p (FilterNode.constant a k op v f) =
    let leaf = FilterNode.constant a k op v f in if p leaf then null else leaf
prune p (FilterNode.varying la lp op ra rp f) =
    let leaf = FilterNode.varying la lp op ra rp f in if p leaf then null else leaf
prune p (cond l op r) = cond (prune p l) op (prune p r)

abbrev pub is_kept : List Text → FilterNode → Bool
is_kept seen t = contains_node seen t

abbrev pub is_left : List Text → FilterNode → Bool
is_left seen t = not (contains_node seen t)

clone_tree-IsCloneable : (m : Machine) (t : FilterNode) → IsCloneable m t → clone_tree m t ≡ ok t
unfolding clone_tree
clone_tree-IsCloneable m null h = absurd h
clone_tree-IsCloneable m (FilterNode.constant a p op v f) h = rw (h.0) (rw (h.1))
clone_tree-IsCloneable m (FilterNode.varying la lp op ra rp f) h = cc
clone_tree-IsCloneable m (cond l op r) h =
    rw (clone_tree-IsCloneable m l h.0, clone_tree-IsCloneable m r h.1)

IsFull-IsCloneable : (m : Machine) (t : FilterNode) → IsCloneable m t → IsFull t
IsFull-IsCloneable m null h = h
IsFull-IsCloneable m (FilterNode.constant a p op v f) h = tt
IsFull-IsCloneable m (FilterNode.varying la lp op ra rp f) h = tt
IsFull-IsCloneable m (cond l op r) h = (IsFull-IsCloneable m l h.0, IsFull-IsCloneable m r h.1)

module _ (seen : List Text) where
  remove_pred_nodes_from-IsFull :
      (t : FilterNode) → IsFull t → remove_pred_nodes_from seen t ≡ ok (prune (is_kept seen) t)
  unfolding remove_pred_nodes_from prune contains_node
  remove_pred_nodes_from-IsFull null h = absurd h
  remove_pred_nodes_from-IsFull (FilterNode.constant a p op v f) h = refl
  remove_pred_nodes_from-IsFull (FilterNode.varying la lp op ra rp f) h = refl
  remove_pred_nodes_from-IsFull (cond l op r) h =
      rw (remove_pred_nodes_from-IsFull l h.0, remove_pred_nodes_from-IsFull r h.1)

  remove_all_nodes_except-IsFull :
      (t : FilterNode) → IsFull t → remove_all_nodes_except seen t ≡ ok (prune (is_left seen) t)
  unfolding remove_all_nodes_except prune contains_node
  remove_all_nodes_except-IsFull null h = absurd h
  remove_all_nodes_except-IsFull (FilterNode.constant a p op v f) h = refl
  remove_all_nodes_except-IsFull (FilterNode.varying la lp op ra rp f) h = ground (arith)
  remove_all_nodes_except-IsFull (cond l op r) h =
      rw (remove_all_nodes_except-IsFull l h.0, remove_all_nodes_except-IsFull r h.1)

pub leaves-prune :
    (p : FilterNode → Bool) (t : FilterNode)
    → leaves (prune p t) ≡ select (λ u. not (p u)) (leaves t)
unfolding prune
leaves-prune p null = refl
leaves-prune p (FilterNode.constant a k op v f) = ground arith
leaves-prune p (FilterNode.varying la lp op ra rp f) = ground arith
leaves-prune p (cond l op r) = rw (leaves-prune p l, leaves-prune p r, select-append)

-- The shapes that the code tests for.
pub FilterNode-cases : (t : FilterNode) → (t ≡ null) ⊎ (is_null_node t ≡ false)
FilterNode-cases null = inl refl
FilterNode-cases (FilterNode.constant a p op v f) = inr refl
FilterNode-cases (FilterNode.varying la lp op ra rp f) = inr refl
FilterNode-cases (cond l op r) = inr refl

leaves-join_squashed :
    (l : FilterNode) (op : Op) (r : FilterNode)
    → leaves (join_squashed l op r) ≡ leaves l ++ leaves r
unfolding join_squashed
leaves-join_squashed l op r = elim (FilterNode-cases l) [
  | inl e ↦ rw e refl
  | inr e ↦ rw e (elim (FilterNode-cases r) [ inl f ↦ rw f (rw append-nil) | inr f ↦ rw f refl ])
]

-- Squashing keeps every predicate, in order.
pub leaves-squash : (t : FilterNode) → leaves (squash t) ≡ leaves t
unfolding squash
leaves-squash null = refl
leaves-squash (FilterNode.constant a p op v f) = refl
leaves-squash (FilterNode.varying la lp op ra rp f) = refl
leaves-squash (cond l op r) = elim (FilterNode-cases l) [
  | inl e ↦ rw e (leaves-squash r)
  | inr e ↦ rw e (elim (FilterNode-cases r) [
    | inl f ↦ rw f (leaves-squash l ∙ rw append-nil)
    | inr f ↦ rw f (
        leaves-join_squashed (squash l) op (squash r)
        ∙ ap₂ ◌++◌ (leaves-squash l) (leaves-squash r))
  ])
]

pub min_filter_tree-prune :
    (m : Machine) (seen : List Text) (t : FilterNode)
    → IsCloneable m t
    → min_filter_tree m seen t ≡ ok (squash (prune (is_left seen) t))
unfolding min_filter_tree
min_filter_tree-prune m seen t h =
    rw
      (
        clone_tree-IsCloneable m t h,
        remove_all_nodes_except-IsFull seen t (IsFull-IsCloneable m t h),
      )
      refl

is_null_node-IsFull : (t : FilterNode) → IsFull t → is_null_node t ≡ false
is_null_node-IsFull null h = absurd h
is_null_node-IsFull (FilterNode.constant a p op v f) h = refl
is_null_node-IsFull (FilterNode.varying la lp op ra rp f) h = refl
is_null_node-IsFull (cond l op r) h = refl

pub remove_pred_nodes-prune :
    (m : Machine) (seen : List Text) (t : FilterNode)
    → IsCloneable m t
    → remove_pred_nodes seen t ≡ ok (squash (prune (is_kept seen) t))
unfolding remove_pred_nodes
remove_pred_nodes-prune m seen t h =
    let full = IsFull-IsCloneable m t h in
    rw (is_null_node-IsFull t full, remove_pred_nodes_from-IsFull seen t full) refl

pub select-not-not :
    (p : FilterNode → Bool) (us : List FilterNode) → select (λ u. not (not (p u))) us ≡ select p us
select-not-not p us = ap (λ q. select q us) (fun_ext (λ u. not_not (p u)))
  where
    not_not : (b : Bool) → not (not b) ≡ b
    not_not b = ground arith

-- The cut loses no predicate and doubles none: the minimum tree has, in order, those whose entities
-- have all been seen, and the remaining tree has the others.
pub split_leaves :
    (m : Machine) (seen : List Text) (t : FilterNode)
    → IsCloneable m t
    → (a : FilterNode) × (b : FilterNode) × (min_filter_tree m seen t ≡ ok a)
      × (remove_pred_nodes seen t ≡ ok b)
      × (leaves a ≡ select (contains_node seen) (leaves t))
      × (leaves b ≡ select (λ u. not (contains_node seen u)) (leaves t))
split_leaves m seen t h = (
  squash (prune (is_left seen) t),
  squash (prune (is_kept seen) t),
  min_filter_tree-prune m seen t h,
  remove_pred_nodes-prune m seen t h,
  leaves-squash (prune (is_left seen) t)
      ∙ leaves-prune (is_left seen) t
      ∙ select-not-not (contains_node seen) (leaves t),
  leaves-squash (prune (is_kept seen) t) ∙ leaves-prune (is_kept seen) t,
)
