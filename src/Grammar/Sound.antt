-- ===== src/Grammar/Sound.antt =====
-- src/query_executor.c on the queries of src/parser/grammar.y: the WHERE clauses that ParseQuery makes
-- can be built into filter trees.
use redis_graph.Base.{
  ℕ, suc, Text, List, [], ◌∷◌, ◌++◌, All, Option, none, some, ok, ◌>>=◌, bind-ok, ok-injective,
  some-injective, ◌≡◌, ◌⊎◌, inl, inr, refl,
}
use redis_graph.Value.{
  Machine, SiValue, clone, double_val, string_val_c, string_val, wrap_string, bool_val, stringval,
  bits, low_bits,
}
use redis_graph.Value.Compare.{CmpFunc}
use redis_graph.Filter.{Op, AstFilter, eq, and, or}
use redis_graph.Filter.Build.{
  build_filters_tree, create_const, create_varying, const_with, cmp_for_type,
}
use redis_graph.Filter.Meaning.{IsGrammatical, HasConstants, build_filters_tree-IsCloneable}
use redis_graph.Filter.Split.{IsCloneable}
use redis_graph.Query.{
  Query, name_from, name_anonymous_nodes, inline_properties, inline_entities, inline_pairs,
  introduce_filter, new_constant_predicate, new_varying_predicate, new_condition, parse_query,
  AstEntity,
}
use redis_graph.Query.Passes.{written, AreWritten}
use redis_graph.Grammar.{
  Value, integer, string, float, true_token, false_token, value, MapLiteral, last_pair, pair,
  Properties, no_properties, braces, NodePattern, node_full, node_labelled, node_aliased,
  node_empty, EdgePattern, edge_empty, edge_aliased, edge_labelled, edge_full, LinkPattern,
  to_right, to_left, PatternChain, first_node, and_link, Cond, between, with_value, in_parentheses,
  both, either, cond, op, WhereClause, no_where, where_cond, where_clause, Expr, expr, chain,
}
use redis_graph.Grammar.Patterns.{
  pairs_of, asked_of, node_drawn, edge_drawn, link_drawn, chain_drawn, with_names, chain-AreWritten,
}

All-append {ℓ} :
    {A : Type ℓ} (P : A → Type 0) (xs ys : List A) → All P xs → All P ys → All P (xs ++ ys)
All-append P [] ys h k = k
All-append P (x ∷ xs) ys (a, h) k = (a, All-append P xs ys h k)

module _ (m : Machine) where
  -- A value that is copied as it is, and can be compared.
  abbrev IsConstant : SiValue → Type 0
  IsConstant v = (clone m v ≡ ok v) × ((f : CmpFunc) × (cmp_for_type v.type ≡ some f))

  value-IsConstant : (v : Value) → IsConstant (value m v)
  unfolding value clone cmp_for_type double_val string_val_c string_val wrap_string bool_val
      stringval bits low_bits
  value-IsConstant (integer i) = (refl, (_, refl))
  value-IsConstant (string s) = (refl, (_, refl))
  value-IsConstant (float d) = (refl, (_, refl))
  value-IsConstant true_token = (refl, (_, refl))
  value-IsConstant false_token = (refl, (_, refl))

  abbrev AreConstant : List (Text × SiValue) → Type 0
  AreConstant = All (λ p. IsConstant p.1)

  abbrev AllConstant : List (Text × List (Text × SiValue)) → Type 0
  AllConstant = All (λ p. AreConstant p.1)

  -- A WHERE clause that can be built and cloned, of ANDs and ORs.
  abbrev IsSound : AstFilter → Type 0
  IsSound t = HasConstants m t × IsGrammatical (build_filters_tree t)

  abbrev IsSoundClause : Option AstFilter → Type 0
  IsSoundClause none = Unit
  IsSoundClause (some t) = IsSound t

  constant-IsSound :
      (a p : Text) (o : Op) (v : SiValue) → IsConstant v → IsSound (AstFilter.constant a p o v)
  unfolding build_filters_tree create_const const_with
  constant-IsSound a p o v (c, (f, e)) = ((c, (f, e)), rw e tt)

  condition-IsSound :
      (l r : AstFilter) (o : Op)
      → (o ≡ and) ⊎ (o ≡ or)
      → IsSound l
      → IsSound r
      → IsSound (AstFilter.condition l o r)
  unfolding build_filters_tree
  condition-IsSound l r o s (a, b) (c, d) = ((a, c), (s, b, d))

  cond-IsSound : (c : Cond) → IsSound (cond m c)
  unfolding cond new_varying_predicate new_constant_predicate new_condition build_filters_tree
      create_varying
  cond-IsSound (between a b o d e) = (tt, tt)
  cond-IsSound (with_value a b o v) = constant-IsSound a b (op o) (value m v) (value-IsConstant v)
  cond-IsSound (in_parentheses c) = cond-IsSound c
  cond-IsSound (both c d) =
      condition-IsSound (cond m c) (cond m d) and (inl refl) (cond-IsSound c) (cond-IsSound d)
  cond-IsSound (either c d) =
      condition-IsSound (cond m c) (cond m d) or (inr refl) (cond-IsSound c) (cond-IsSound d)

  where_clause-IsSoundClause : (w : WhereClause) → IsSoundClause (where_clause m w)
  unfolding where_clause
  where_clause-IsSoundClause no_where = tt
  where_clause-IsSoundClause (where_cond c) = cond-IsSound c

  introduce_filter-IsSoundClause :
      (f : Option AstFilter) (t : AstFilter)
      → IsSoundClause f
      → IsSound t
      → IsSoundClause (introduce_filter f t)
  unfolding introduce_filter new_condition
  introduce_filter-IsSoundClause none t h s = s
  introduce_filter-IsSoundClause (some l) t h s = condition-IsSound l t and (inl refl) h s

  inline_pairs-IsSoundClause :
      (a : Text) (ps : List (Text × SiValue)) (f f' : Option AstFilter)
      → AreConstant ps
      → IsSoundClause f
      → inline_pairs (some a) (written ps) f ≡ ok f'
      → IsSoundClause f'
  unfolding inline_pairs new_constant_predicate string_val_c string_val wrap_string stringval
  inline_pairs-IsSoundClause a [] f f' c s e = rw (← ok-injective e) s
  inline_pairs-IsSoundClause a (p ∷ ps) f f' (v, c) s e =
      let t = AstFilter.constant a p.0 eq p.1 in
      inline_pairs-IsSoundClause a ps (introduce_filter f t) f' c
        (introduce_filter-IsSoundClause f t s (constant-IsSound a p.0 eq p.1 v)) e

  inline_entities-IsSoundClause :
      (es : List AstEntity) (ps : List (Text × List (Text × SiValue))) (f f' : Option AstFilter)
      → AreWritten es ps
      → AllConstant ps
      → IsSoundClause f
      → inline_entities es f ≡ ok f'
      → IsSoundClause f'
  unfolding inline_entities
  inline_entities-IsSoundClause [] [] f f' w c s e = rw (← ok-injective e) s
  inline_entities-IsSoundClause [] (p ∷ ps) f f' w c s e = absurd w
  inline_entities-IsSoundClause (x ∷ es) [] f f' w c s e = absurd w
  inline_entities-IsSoundClause (x ∷ es) (p ∷ ps) f f' (a, h, w) (v, c) s e =
      let e' : ((elim x.properties [ none ↦ ok f | some qs ↦ inline_pairs x.alias qs f ])
            >>= inline_entities es)
          ≡ ok f' =
        e in
      elim h [
        | inl props ↦
            let (g, here, after) =
              bind-ok (inline_pairs (some p.0) (written p.1) f) (inline_entities es)
                (rw (props, a) at e') in
            inline_entities-IsSoundClause es ps g f' w c
              (inline_pairs-IsSoundClause p.0 p.1 f g v s here) after
        | inr bare ↦ inline_entities-IsSoundClause es ps f f' w c s (rw (bare.0) at e')
      ]

  pairs_of-AreConstant : (b : MapLiteral) → AreConstant (pairs_of m b)
  pairs_of-AreConstant (last_pair k v) = (value-IsConstant v, tt)
  pairs_of-AreConstant (pair k v more) =
      All-append _ (pairs_of m more) ((k, value m v) ∷ []) (pairs_of-AreConstant more)
        (value-IsConstant v, tt)

  asked_of-AreConstant : (ps : Properties) → AreConstant (asked_of m ps)
  asked_of-AreConstant no_properties = tt
  asked_of-AreConstant (braces b) = pairs_of-AreConstant b

  node-AreConstant : (n : NodePattern) → AreConstant (node_drawn m n).1
  node-AreConstant (node_full a l ps) = asked_of-AreConstant ps
  node-AreConstant (node_labelled l ps) = asked_of-AreConstant ps
  node-AreConstant (node_aliased a ps) = asked_of-AreConstant ps
  node-AreConstant (node_empty ps) = asked_of-AreConstant ps

  edge-AreConstant : (e : EdgePattern) → AreConstant (edge_drawn m e).1
  edge-AreConstant (edge_full a l ps) = asked_of-AreConstant ps
  edge-AreConstant (edge_labelled l ps) = asked_of-AreConstant ps
  edge-AreConstant (edge_aliased a ps) = asked_of-AreConstant ps
  edge-AreConstant (edge_empty ps) = asked_of-AreConstant ps

  link-AreConstant : (l : LinkPattern) → AreConstant (link_drawn m l).1
  link-AreConstant (to_right e) = edge-AreConstant e
  link-AreConstant (to_left e) = edge-AreConstant e

  chain-AreConstant :
      (c : PatternChain)
      → All (λ (d : Option Text × List (Text × SiValue)). AreConstant d.1) (chain_drawn m c)
  chain-AreConstant (first_node n) = (node-AreConstant n, tt)
  chain-AreConstant (and_link c l n) =
      All-append _ (chain_drawn m c) (link_drawn m l ∷ node_drawn m n ∷ []) (chain-AreConstant c)
        (link-AreConstant l, (node-AreConstant n, tt))

  with_names-AllConstant :
      (i : ℕ) (ds : List (Option Text × List (Text × SiValue)))
      → All (λ (d : Option Text × List (Text × SiValue)). AreConstant d.1) ds
      → AllConstant (with_names i ds)
  with_names-AllConstant i [] h = tt
  with_names-AllConstant i (d ∷ ds) (a, h) = (a, with_names-AllConstant (suc i) ds h)

  -- Of the WHERE clause of a query, if it has one, BuildFiltersTree makes a tree that
  -- FilterTree_Clone copies, and its conditions are ANDs and ORs.
  abbrev pub HasFilterTree : Option AstFilter → Type 0
  HasFilterTree none = Unit
  HasFilterTree (some t) =
      IsCloneable m (build_filters_tree t) × IsGrammatical (build_filters_tree t)

  IsSoundClause-HasFilterTree : (f : Option AstFilter) → IsSoundClause f → HasFilterTree f
  IsSoundClause-HasFilterTree none s = tt
  IsSoundClause-HasFilterTree (some t) (a, b) = (build_filters_tree-IsCloneable m t a, b)

  pub parse_query-HasFilterTree :
      (x : Expr) (q' : Query)
      → parse_query (some (expr m x)) ≡ ok (some q')
      → HasFilterTree q'.where_filters
  unfolding parse_query inline_properties name_anonymous_nodes expr
  parse_query-HasFilterTree x q' e =
      let (q1, inlined, e1) =
        bind-ok (inline_properties (name_anonymous_nodes (expr m x))) (λ r. ok (some r)) e in
      let (f, done, e2) =
        bind-ok (inline_entities (name_from 0 (chain m x.matched)) (where_clause m x.filtered))
          (λ f. ok (record (name_anonymous_nodes (expr m x)) { where_filters = f })) inlined in
      let same : q1 ≡ q' = some-injective (ok-injective e1) in
      rw (← same, ← ok-injective e2)
        (IsSoundClause-HasFilterTree f (
          inline_entities-IsSoundClause (name_from 0 (chain m x.matched))
            (with_names 0 (chain_drawn m x.matched)) (where_clause m x.filtered) f
            (chain-AreWritten m x.matched)
            (with_names-AllConstant 0 (chain_drawn m x.matched) (chain-AreConstant x.matched))
            (where_clause-IsSoundClause x.filtered) done))
