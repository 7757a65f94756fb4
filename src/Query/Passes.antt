-- ===== src/Query/Passes.antt =====
-- What the passes over a parsed query, nameAnonymousNodes and inlineProperties, do to it.
use redis_graph.Base.{
  ℕ, zero, suc, ◌+◌, Bool, true, ◌&&◌, ◌||◌, Option, none, some, ok, Text, codes, List, [], ◌∷◌,
  ◌++◌, ◌≡◌, ◌⊎◌, inl, inr, refl, ap, sym, ◌∙◌, arith, get_elem?, Option-cases, print_nat,
}
use redis_graph.Value.{SiValue, string_val_c, wrap_string, string_val, stringval}
use redis_graph.Filter.{AstFilter, eq, and, or}
use redis_graph.Query.{
  AstEntity, Query, new_constant_predicate, new_condition, introduce_filter, inline_pairs,
  inline_entities, inline_properties, name_from, name_anonymous_nodes, parse_query,
}

-- A WHERE clause as a formula over its predicates.
abbrev pub asks : (AstFilter → Bool) → AstFilter → Bool
asks truth (AstFilter.constant a p op v) = truth (AstFilter.constant a p op v)
asks truth (AstFilter.varying la lp op ra rp) = truth (AstFilter.varying la lp op ra rp)
asks truth (AstFilter.condition l and r) = asks truth l && asks truth r
asks truth (AstFilter.condition l or r) = asks truth l || asks truth r
asks truth (AstFilter.condition l _ r) = asks truth l

-- Without a clause nothing is asked.
abbrev pub clause : (AstFilter → Bool) → Option AstFilter → Bool
clause truth none = true
clause truth (some t) = asks truth t

-- The properties of a pattern, as the parser lists them.
abbrev pub written : List (Text × SiValue) → List SiValue
written [] = []
written (p ∷ ps) = string_val_c p.0 ∷ p.1 ∷ written ps

-- That the entity with the alias has the properties.
abbrev pub equalities : (AstFilter → Bool) → Text → List (Text × SiValue) → Bool
equalities truth a [] = true
equalities truth a (p ∷ ps) = truth (AstFilter.constant a p.0 eq p.1) && equalities truth a ps

abbrev pub all_equalities : (AstFilter → Bool) → List (Text × List (Text × SiValue)) → Bool
all_equalities truth [] = true
all_equalities truth (p ∷ ps) = equalities truth p.0 p.1 && all_equalities truth ps

-- The entities have the aliases, and the properties or none.
abbrev pub AreWritten : List AstEntity → List (Text × List (Text × SiValue)) → Type 0
AreWritten [] [] = Unit
AreWritten [] (p ∷ ps) = ⊥
AreWritten (e ∷ es) [] = ⊥
AreWritten (e ∷ es) (p ∷ ps) =
    (e.alias ≡ some p.0)
    × ((e.properties ≡ some (written p.1)) ⊎ ((e.properties ≡ none) × (p.1 ≡ [])))
    × AreWritten es ps

module _ (truth : AstFilter → Bool) where
  introduce_filter-clause :
      (f : Option AstFilter) (t : AstFilter)
      → clause truth (introduce_filter f t) ≡ clause truth f && asks truth t
  unfolding introduce_filter new_condition
  introduce_filter-clause none t = refl
  introduce_filter-clause (some l) t = refl

  inline_pairs-clause :
      (a : Text) (ps : List (Text × SiValue)) (f : Option AstFilter)
      → (f' : Option AstFilter) × (inline_pairs (some a) (written ps) f ≡ ok f')
        × (clause truth f' ≡ clause truth f && equalities truth a ps)
  unfolding inline_pairs new_constant_predicate string_val_c string_val wrap_string stringval
  inline_pairs-clause a [] f = (f, refl, ground arith)
  inline_pairs-clause a (p ∷ ps) f =
      let t = AstFilter.constant a p.0 eq p.1 in
      let (f', done, means) = inline_pairs-clause a ps (introduce_filter f t) in
      (f', done, means ∙ ground (arith, introduce_filter-clause f t))

  inline_entities-clause :
      (es : List AstEntity) (ps : List (Text × List (Text × SiValue))) (f : Option AstFilter)
      → AreWritten es ps
      → (f' : Option AstFilter) × (inline_entities es f ≡ ok f')
        × (clause truth f' ≡ clause truth f && all_equalities truth ps)
  unfolding inline_entities
  inline_entities-clause [] [] f w = (f, refl, ground arith)
  inline_entities-clause [] (p ∷ ps) f w = absurd w
  inline_entities-clause (e ∷ es) [] f w = absurd w
  inline_entities-clause (e ∷ es) (p ∷ ps) f w = elim w.1 [
    | inl props ↦
        let (g, done, means) = inline_pairs-clause p.0 p.1 f in
        let (f', all_done, all_means) = inline_entities-clause es ps g w.2 in
        (f', rw (props, w.0, done) all_done, ground arith)
    | inr bare ↦
        let (f', all_done, all_means) = inline_entities-clause es ps f w.2 in
        (f', rw (bare.0) all_done, rw (bare.1) all_means)
  ]

  -- Of a parsed query whose named entities have the given aliases and properties, ParseQuery makes
  -- a query with a WHERE clause that asks for what it asked for before and for each property.
  pub parse_query-clause :
      (q : Query) (ps : List (Text × List (Text × SiValue)))
      → AreWritten (name_from 0 q.entities) ps
      → (q' : Query) × (parse_query (some q) ≡ ok (some q'))
        × (q'.entities ≡ name_from 0 q.entities)
        × (clause truth q'.where_filters ≡ clause truth q.where_filters && all_equalities truth ps)
  unfolding parse_query name_anonymous_nodes inline_properties
  parse_query-clause q ps w =
      let (f, done, means) = inline_entities-clause (name_from 0 q.entities) ps q.where_filters w in
      (record (name_anonymous_nodes q) { where_filters = f }, rw done refl, refl, means)

-- The alias of the entity at an index, after naming.
abbrev pub alias_at : ℕ → Option Text → Text
alias_at i none = codes "anon_" ++ print_nat i
alias_at i (some a) = a

name_from-alias_at :
    (k i : ℕ) (es : List AstEntity) (e : AstEntity)
    → get_elem? es i ≡ some e
    → (e' : AstEntity) × (get_elem? (name_from k es) i ≡ some e')
      × (e'.alias ≡ some (alias_at (k + i) e.alias))
unfolding name_from
name_from-alias_at k i [] e h = cc
name_from-alias_at k zero (x ∷ es) e h = elim (Option-cases x.alias) [
  | inl missing ↦
      (record x { alias = some (codes "anon_" ++ print_nat k) }, rw missing refl, ground (arith))
  | inr (a, given) ↦ (x, ground (arith, given), ground (arith, given))
]
name_from-alias_at k (suc i) (x ∷ es) e h =
    let (e', there, named) = name_from-alias_at (suc k) i es e h in
    (e', there, named ∙ ap (λ n. some (alias_at n e.alias)) (omega arith))

-- After naming, an entity that had an alias keeps it, and the one at index i without an alias is
-- called anon_i.
pub name_anonymous_nodes-alias_at :
    (q : Query) (i : ℕ) (e : AstEntity)
    → get_elem? q.entities i ≡ some e
    → (e' : AstEntity) × (get_elem? (name_anonymous_nodes q).entities i ≡ some e')
      × (e'.alias ≡ some (alias_at i e.alias))
unfolding name_anonymous_nodes
name_anonymous_nodes-alias_at q i e h =
    let (e', there, named) = name_from-alias_at 0 i q.entities e h in
    (e', there, named ∙ ap (λ n. some (alias_at n e.alias)) (omega arith))

-- An alias that the query's author gives may be the one that an entity without an alias gets; then
-- two entities have one alias.
pub name_anonymous_nodes_clash :
    (q : Query) (i j : ℕ) (e f : AstEntity)
    → get_elem? q.entities i ≡ some e
    → get_elem? q.entities j ≡ some f
    → e.alias ≡ some (codes "anon_" ++ print_nat j)
    → f.alias ≡ none
    → (e' : AstEntity) × (f' : AstEntity) × (get_elem? (name_anonymous_nodes q).entities i
        ≡ some e')
      × (get_elem? (name_anonymous_nodes q).entities j ≡ some f')
      × (e'.alias ≡ f'.alias)
name_anonymous_nodes_clash q i j e f he hf given bare =
    let (e', there, named) = name_anonymous_nodes-alias_at q i e he in
    let (f', there', named') = name_anonymous_nodes-alias_at q j f hf in
    (
      e',
      f',
      there,
      there',
      named
          ∙ ap (λ a. some (alias_at i a)) given
          ∙ sym (named' ∙ ap (λ a. some (alias_at j a)) bare),
    )
