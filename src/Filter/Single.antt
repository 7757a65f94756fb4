-- ===== src/Filter/Single.antt =====
-- src/filter_tree/filter_tree.c: filter trees that read one entity, which the planner keeps whole.
use redis_graph.Base.{true, false, inl, inr, ok, Text, text_eq_refl, [], ◌∷◌, ◌≡◌, ◌∙◌, ap, refl}
use redis_graph.Value.{Machine}
use redis_graph.Filter.{Op, FilterNode, null, cond, vector_contains}
use redis_graph.Filter.Prune.{
  contains_node, is_null_node, join_squashed, min_filter_tree, remove_pred_nodes, squash,
}
use redis_graph.Filter.Split.{
  prune, IsCloneable, is_kept, is_left, FilterNode-cases, min_filter_tree-prune,
  remove_pred_nodes-prune,
}

-- No child is missing, and the entities that the predicates read are all the one of this alias.
abbrev pub IsAbout : Text → FilterNode → Type 0
IsAbout alias null = ⊥
IsAbout alias (FilterNode.constant a p op v f) = a ≡ alias
IsAbout alias (FilterNode.varying la lp op ra rp f) = (la ≡ alias) × (ra ≡ alias)
IsAbout alias (cond l op r) = IsAbout alias l × IsAbout alias r

squash-cond_null :
    (l : FilterNode) (op : Op) (r : FilterNode)
    → squash l ≡ null
    → squash r ≡ null
    → squash (cond l op r) ≡ null
unfolding squash join_squashed
squash-cond_null l op r hl hr = elim (FilterNode-cases l) [
  | inl e ↦ rw e hr
  | inr e ↦ rw e (elim (FilterNode-cases r) [ inl f ↦ rw f hl | inr f ↦ rw (f, hl) hr ])
]

module _ (alias : Text) where
  is_null_node-IsAbout : (t : FilterNode) → IsAbout alias t → is_null_node t ≡ false
  is_null_node-IsAbout null h = absurd h
  is_null_node-IsAbout (FilterNode.constant a p op v f) h = refl
  is_null_node-IsAbout (FilterNode.varying la lp op ra rp f) h = refl
  is_null_node-IsAbout (cond l op r) h = refl

  pub contains_node-IsAbout :
      (t : FilterNode) → IsAbout alias t → contains_node (alias ∷ []) t ≡ true
  unfolding contains_node vector_contains
  contains_node-IsAbout null h = absurd h
  contains_node-IsAbout (FilterNode.constant a p op v f) h = rw (h, text_eq_refl alias) refl
  contains_node-IsAbout (FilterNode.varying la lp op ra rp f) h =
      rw (h.0, h.1, text_eq_refl alias) refl
  contains_node-IsAbout (cond l op r) h = rw (contains_node-IsAbout l h.0) refl

  -- Taking out what reads another entity takes out nothing.
  prune-left : (t : FilterNode) → IsAbout alias t → prune (is_left (alias ∷ [])) t ≡ t
  unfolding contains_node vector_contains prune
  prune-left null h = absurd h
  prune-left (FilterNode.constant a p op v f) h = rw (h, text_eq_refl alias) refl
  prune-left (FilterNode.varying la lp op ra rp f) h = rw (h.0, h.1, text_eq_refl alias) refl
  prune-left (cond l op r) h = rw (prune-left l h.0, prune-left r h.1) refl

  -- Taking out what reads the entity leaves nothing.
  squash-kept : (t : FilterNode) → IsAbout alias t → squash (prune (is_kept (alias ∷ [])) t) ≡ null
  unfolding contains_node vector_contains prune squash
  squash-kept null h = absurd h
  squash-kept (FilterNode.constant a p op v f) h = rw (h, text_eq_refl alias) refl
  squash-kept (FilterNode.varying la lp op ra rp f) h = rw (h.0, h.1, text_eq_refl alias) refl
  squash-kept (cond l op r) h =
      let keep = prune (is_kept (alias ∷ [])) in
      squash-cond_null (keep l) op (keep r) (squash-kept l h.0) (squash-kept r h.1)

  squash-IsAbout : (t : FilterNode) → IsAbout alias t → squash t ≡ t
  unfolding squash join_squashed
  squash-IsAbout null h = absurd h
  squash-IsAbout (FilterNode.constant a p op v f) h = refl
  squash-IsAbout (FilterNode.varying la lp op ra rp f) h = refl
  squash-IsAbout (cond l op r) h =
      let left = is_null_node-IsAbout l h.0 in
      let right = is_null_node-IsAbout r h.1 in
      rw (left, right, squash-IsAbout l h.0, squash-IsAbout r h.1, left, right) refl

  pub min_filter_tree-IsAbout :
      (m : Machine) (t : FilterNode)
      → IsCloneable m t
      → IsAbout alias t
      → min_filter_tree m (alias ∷ []) t ≡ ok t
  min_filter_tree-IsAbout m t h about =
      min_filter_tree-prune m (alias ∷ []) t h
      ∙ ap ok (ap squash (prune-left t about) ∙ squash-IsAbout t about)

  pub remove_pred_nodes-IsAbout :
      (m : Machine) (t : FilterNode)
      → IsCloneable m t
      → IsAbout alias t
      → remove_pred_nodes (alias ∷ []) t ≡ ok null
  remove_pred_nodes-IsAbout m t h about =
      remove_pred_nodes-prune m (alias ∷ []) t h ∙ ap ok (squash-kept t about)
