-- ===== src/Filter/Meaning.antt =====
-- Filter trees read as Boolean formulas over their predicates, and the planner's cut of a tree.
use redis_graph.Base.{
  Bool, true, ◌&&◌, ◌||◌, not, ok, Text, List, [], ◌∷◌, ◌++◌, ◌≡◌, ◌≢◌, ◌⊎◌, inl, inr, refl, ap₂,
  some, ◌∙◌, arith, select, Bool-cases, text_eq_refl, text_ne,
}
use redis_graph.Value.{Machine, SiValue, clone}
use redis_graph.Value.Compare.{CmpFunc}
use redis_graph.Graph.{Heap, Graph}
use redis_graph.Filter.{Op, AstFilter, FilterNode, null, cond, and, or, vector_contains}
use redis_graph.Filter.Build.{cmp_for_type, build_filters_tree}
use redis_graph.Filter.Prune.{
  join_squashed, squash, remove_pred_nodes, min_filter_tree, contains_node,
}
use redis_graph.Filter.Apply.{apply_predicate, apply_filters, combine}
use redis_graph.Filter.Split.{
  leaves, IsCloneable, prune, is_kept, is_left, select-not-not, leaves-prune, leaves-squash,
  FilterNode-cases, min_filter_tree-prune, remove_pred_nodes-prune,
}

-- A condition node as a connective; the grammar makes AND and OR only.
abbrev pub connective : Op → Bool → Bool → Bool
connective and a b = a && b
connective or a b = a || b
connective _ a b = a

-- The tree as a formula; a removed part asks for nothing.
abbrev pub passes : (FilterNode → Bool) → FilterNode → Bool
passes truth null = true
passes truth (FilterNode.constant a p op v f) = truth (FilterNode.constant a p op v f)
passes truth (FilterNode.varying la lp op ra rp f) = truth (FilterNode.varying la lp op ra rp f)
passes truth (cond l op r) = connective op (passes truth l) (passes truth r)

-- Every condition of the tree is AND.
abbrev pub IsConjunctive : FilterNode → Type 0
IsConjunctive null = Unit
IsConjunctive (FilterNode.constant a p op v f) = Unit
IsConjunctive (FilterNode.varying la lp op ra rp f) = Unit
IsConjunctive (cond l op r) = (op ≡ and) × IsConjunctive l × IsConjunctive r

abbrev pub every : (FilterNode → Bool) → List FilterNode → Bool
every truth [] = true
every truth (u ∷ us) = truth u && every truth us

every-append :
    (truth : FilterNode → Bool) (us vs : List FilterNode)
    → every truth (us ++ vs) ≡ every truth us && every truth vs
every-append truth [] vs = refl
every-append truth (u ∷ us) vs = ground (arith, every-append truth us vs)

passes-IsConjunctive :
    (truth : FilterNode → Bool) (t : FilterNode)
    → IsConjunctive t
    → passes truth t ≡ every truth (leaves t)
passes-IsConjunctive truth null h = refl
passes-IsConjunctive truth (FilterNode.constant a p op v f) h = ground arith
passes-IsConjunctive truth (FilterNode.varying la lp op ra rp f) h = ground arith
passes-IsConjunctive truth (cond l op r) h =
    rw (h.0, every-append truth (leaves l) (leaves r))
      (ap₂ ◌&&◌ (passes-IsConjunctive truth l h.1) (passes-IsConjunctive truth r h.2))

prune-IsConjunctive :
    (p : FilterNode → Bool) (t : FilterNode) → IsConjunctive t → IsConjunctive (prune p t)
unfolding prune
prune-IsConjunctive p null h = tt
prune-IsConjunctive p (FilterNode.constant a k op v f) h =
    elim (Bool-cases (p (FilterNode.constant a k op v f))) [ inl e ↦ rw e tt | inr e ↦ rw e tt ]
prune-IsConjunctive p (FilterNode.varying la lp op ra rp f) h =
    elim (Bool-cases (p (FilterNode.varying la lp op ra rp f))) [
      | inl e ↦ rw e tt
      | inr e ↦ rw e tt
    ]
prune-IsConjunctive p (cond l op r) h =
    (h.0, prune-IsConjunctive p l h.1, prune-IsConjunctive p r h.2)

join_squashed-IsConjunctive :
    (l : FilterNode) (op : Op) (r : FilterNode)
    → op ≡ and
    → IsConjunctive l
    → IsConjunctive r
    → IsConjunctive (join_squashed l op r)
unfolding join_squashed
join_squashed-IsConjunctive l op r h hl hr = elim (FilterNode-cases l) [
  | inl e ↦ rw e hr
  | inr e ↦ rw e (elim (FilterNode-cases r) [ inl f ↦ rw f hl | inr f ↦ rw f (h, hl, hr) ])
]

squash-IsConjunctive : (t : FilterNode) → IsConjunctive t → IsConjunctive (squash t)
unfolding squash
squash-IsConjunctive null h = tt
squash-IsConjunctive (FilterNode.constant a p op v f) h = tt
squash-IsConjunctive (FilterNode.varying la lp op ra rp f) h = tt
squash-IsConjunctive (cond l op r) h = elim (FilterNode-cases l) [
  | inl e ↦ rw e (squash-IsConjunctive r h.2)
  | inr e ↦ rw e (elim (FilterNode-cases r) [
    | inl f ↦ rw f (squash-IsConjunctive l h.1)
    | inr f ↦ rw f (
        join_squashed-IsConjunctive (squash l) op (squash r) h.0 (squash-IsConjunctive l h.1)
          (squash-IsConjunctive r h.2))
  ])
]

every-select :
    (truth p : FilterNode → Bool) (us : List FilterNode)
    → every truth us ≡ every truth (select p us) && every truth (select (λ u. not (p u)) us)
every-select truth p [] = refl
every-select truth p (u ∷ us) = ground (arith, every-select truth p us)

passes-prune :
    (truth p : FilterNode → Bool) (t : FilterNode)
    → IsConjunctive t
    → passes truth (squash (prune p t)) ≡ every truth (select (λ u. not (p u)) (leaves t))
passes-prune truth p t h =
    passes-IsConjunctive truth (squash (prune p t))
      (squash-IsConjunctive (prune p t) (prune-IsConjunctive p t h))
    ∙ rw (leaves-squash (prune p t), leaves-prune p t) refl

-- Of a tree of ANDs that can be cloned, the planner's cut always succeeds, and the two trees
-- together ask for what the tree asked for, whatever is true of its predicates.
pub split_conjunction :
    (m : Machine) (seen : List Text) (t : FilterNode) (truth : FilterNode → Bool)
    → IsCloneable m t
    → IsConjunctive t
    → (a : FilterNode) × (b : FilterNode) × (min_filter_tree m seen t ≡ ok a)
      × (remove_pred_nodes seen t ≡ ok b)
      × (passes truth t ≡ (passes truth a && passes truth b))
split_conjunction m seen t truth h c = (
  squash (prune (is_left seen) t),
  squash (prune (is_kept seen) t),
  min_filter_tree-prune m seen t h,
  remove_pred_nodes-prune m seen t h,
  rw
      (
        passes-IsConjunctive truth t c,
        passes-prune truth (is_left seen) t c,
        passes-prune truth (is_kept seen) t c,
        select-not-not (contains_node seen) (leaves t),
      )
      (every-select truth (contains_node seen) (leaves t)),
)

-- Every condition of the tree is AND or OR, as the grammar makes them.
abbrev pub IsGrammatical : FilterNode → Type 0
IsGrammatical null = ⊥
IsGrammatical (FilterNode.constant a p op v f) = Unit
IsGrammatical (FilterNode.varying la lp op ra rp f) = Unit
IsGrammatical (cond l op r) = ((op ≡ and) ⊎ (op ≡ or)) × IsGrammatical l × IsGrammatical r

module _ (m : Machine) (h : Heap) (g : Graph) (truth : FilterNode → Bool) where
  -- On the graph the predicates can be evaluated, with the given results.
  abbrev pub Decides : List FilterNode → Type 0
  Decides [] = Unit
  Decides (u ∷ us) = (apply_predicate m h g u ≡ ok (truth u)) × Decides us

  Decides-append : (us vs : List FilterNode) → Decides (us ++ vs) → Decides us × Decides vs
  Decides-append [] vs d = (tt, d)
  Decides-append (u ∷ us) vs d = let (a, b) = Decides-append us vs d.1 in ((d.0, a), b)

  combine-connective :
      (op : Op) (a b : Bool)
      → (op ≡ and) ⊎ (op ≡ or)
      → combine m h g op a (ok b) ≡ ok (connective op a b)
  unfolding combine
  combine-connective op a b s = ground arith

  -- Where every predicate can be evaluated, applyFilters evaluates the formula, although it skips
  -- the right side of a condition that the left side settles.
  pub apply_filters-passes :
      (t : FilterNode)
      → IsGrammatical t
      → Decides (leaves t)
      → apply_filters m h g t ≡ ok (passes truth t)
  unfolding apply_filters
  apply_filters-passes null s d = absurd s
  apply_filters-passes (FilterNode.constant a p op v f) s d = d.0
  apply_filters-passes (FilterNode.varying la lp op ra rp f) s d = d.0
  apply_filters-passes (cond l op r) s d =
      let (dl, dr) = Decides-append (leaves l) (leaves r) d in
      rw (apply_filters-passes l s.1 dl, apply_filters-passes r s.2 dr)
        (combine-connective op (passes truth l) (passes truth r) s.0)

-- Of an OR across two entities, with only the first one seen, the minimum tree is the left
-- predicate and the remaining tree the right predicate.
pub split_disjunction :
    (m : Machine) (a b p q : Text) (o o' : Op) (v w : SiValue) (f f' : CmpFunc)
    → a ≢ b
    → IsCloneable m (cond (FilterNode.constant a p o v f) or (FilterNode.constant b q o' w f'))
    → (min_filter_tree m
          (a ∷ [])
          (cond (FilterNode.constant a p o v f) or (FilterNode.constant b q o' w f'))
        ≡ ok (FilterNode.constant a p o v f))
      × (remove_pred_nodes
            (a ∷ [])
            (cond (FilterNode.constant a p o v f) or (FilterNode.constant b q o' w f'))
          ≡ ok (FilterNode.constant b q o' w f'))
unfolding prune squash join_squashed contains_node vector_contains
split_disjunction m a b p q o o' v w f f' ne c = (
  min_filter_tree-prune m (a ∷ []) _ c ∙ rw (text_eq_refl a, text_ne a b ne) refl,
  remove_pred_nodes-prune m (a ∷ []) _ c ∙ rw (text_eq_refl a, text_ne a b ne) refl,
)

-- The constants of the tree are as their constructors make them, of a type with a comparison.
abbrev pub HasConstants : Machine → AstFilter → Type 0
HasConstants m (AstFilter.constant a p op v) =
    (clone m v ≡ ok v) × ((f : CmpFunc) × (cmp_for_type v.type ≡ some f))
HasConstants m (AstFilter.varying la lp op ra rp) = Unit
HasConstants m (AstFilter.condition l op r) = HasConstants m l × HasConstants m r

-- Of such a WHERE clause the filter tree that is built has no NULL in it, and can be cloned.
pub build_filters_tree-IsCloneable :
    (m : Machine) (t : AstFilter) → HasConstants m t → IsCloneable m (build_filters_tree t)
unfolding build_filters_tree
build_filters_tree-IsCloneable m (AstFilter.constant a p op v) h = rw (h.1.1) (h.0, h.1.1)
build_filters_tree-IsCloneable m (AstFilter.varying la lp op ra rp) h = refl
build_filters_tree-IsCloneable m (AstFilter.condition l op r) h =
    (build_filters_tree-IsCloneable m l h.0, build_filters_tree-IsCloneable m r h.1)
