-- ===== src/Grammar/Accepted.antt =====
-- src/query_executor.c on the queries of src/parser/grammar.y: ParseQuery, BuildGraph and the making
-- of the filter tree.
use redis_graph.Base.{
  true, suc, Bool, ◌&&◌, Text, length, some, ok, fault, ◌≡◌, refl, ap, ◌∙◌, false, Ordering,
}
use redis_graph.Value.{Machine}
use redis_graph.Value.Compare.{CmpFunc, run_cmp}
use redis_graph.Graph.{Heap, Graph, Entity, get_entity_by_alias, is_invalid, get_property}
use redis_graph.Filter.{AstFilter}
use redis_graph.Filter.Build.{build_filters_tree, create_const, const_with, cmp_for_type}
use redis_graph.Filter.Apply.{apply_filters, apply_predicate, apply_left, side, apply_filter, holds}
use redis_graph.Query.{Query, name_from, new_constant_predicate, parse_query}
use redis_graph.Query.Pattern.{Builder, build_graph}
use redis_graph.Query.Build.{build_graph-aliases}
use redis_graph.Query.Passes.{clause, all_equalities, parse_query-clause}
use redis_graph.Grammar.{Value, value, with_value, cond, op, is_ne, where_clause, Expr, expr, chain}
use redis_graph.Grammar.Patterns.{chain_drawn, with_names, chain-AreWritten, name_one}
use redis_graph.Grammar.Aliases.{names_of, names_of-nodes, names_of-links}
use redis_graph.Grammar.Linked.{
  start, links, named_links, link_count, name_from-chain, start_type, chain-AreLinked,
  node_names_count, link_names_count,
}
use redis_graph.Grammar.Sound.{HasFilterTree, parse_query-HasFilterTree}

-- Of a query that the grammar makes, ParseQuery makes a query without a fault; its entities are named,
-- and whichever predicates hold, its WHERE clause asks for what the clause asked for that the query
-- was written with, and for each property that an entity of the pattern is written with, of the
-- entity's name.
pub parse_query-expr :
    (truth : AstFilter → Bool) (m : Machine) (x : Expr)
    → (q' : Query) × (parse_query (some (expr m x)) ≡ ok (some q'))
      × (q'.entities ≡ name_from 0 (chain m x.matched))
      × (clause truth q'.where_filters
          ≡ clause truth (where_clause m x.filtered)
            && all_equalities truth (with_names 0 (chain_drawn m x.matched)))
unfolding expr
parse_query-expr truth m x =
    parse_query-clause truth (expr m x) (with_names 0 (chain_drawn m x.matched))
      (chain-AreWritten m x.matched)

-- Of a query that the grammar makes, ParseQuery makes a query of which BuildGraph finishes without a
-- failed assertion. The aliases of the graph's nodes and those of its edges are those of the
-- pattern's nodes and links, as many and in order, where a missing one is anon_ and the index in the
-- pattern. Of the WHERE clause, if there is one, BuildFiltersTree makes a tree of ANDs and ORs that
-- FilterTree_Clone copies.
pub build_graph-expr :
    (m : Machine) (h : Heap) (x : Expr)
    → (q' : Query) × (b : Builder) × (parse_query (some (expr m x)) ≡ ok (some q'))
      × (build_graph h q'.entities ≡ ok b)
      × (length b.graph.node_aliases ≡ suc (link_count x.matched))
      × (length b.graph.edge_aliases ≡ link_count x.matched)
      × (b.graph.node_aliases ≡ names_of m true x.matched)
      × (b.graph.edge_aliases ≡ names_of m false x.matched)
      × HasFilterTree m q'.where_filters
build_graph-expr m h x =
    let (q', parsed, entities, means) = parse_query-expr (λ t. false) m x in
    let (b, built, nodes, edges) =
      build_graph-aliases h (name_one 0 (start m x.matched)) (named_links 1 (links m x.matched))
        (start_type m x.matched) (chain-AreLinked m x.matched) in
    (
      q',
      b,
      parsed,
      ap (build_graph h) (entities ∙ name_from-chain m x.matched) ∙ built,
      ap length nodes ∙ ap suc (node_names_count m x.matched),
      ap length edges ∙ link_names_count m x.matched,
      nodes ∙ names_of-nodes m x.matched,
      edges ∙ names_of-links m x.matched,
      parse_query-HasFilterTree m x q' parsed,
    )

-- A predicate with != parses, but is not evaluated: where its entity is in the graph and has an id,
-- and its property can be compared with the value, applyFilters fails an assertion.
pub apply_filters-is_ne :
    (m : Machine) (h : Heap) (g : Graph) (a p : Text) (v : Value) (e : Entity) (f : CmpFunc)
    (r : Ordering)
    → get_entity_by_alias h g (some a) ≡ ok (some e)
    → is_invalid e.id ≡ false
    → cmp_for_type (value m v).type ≡ some f
    → run_cmp m f (get_property e p) (some (value m v)) ≡ ok r
    → apply_filters m h g (build_filters_tree (cond m (with_value a p is_ne v))) ≡ fault
unfolding apply_filters apply_predicate apply_left side apply_filter holds build_filters_tree
    create_const const_with cond op new_constant_predicate
apply_filters-is_ne m h g a p v e f r found valid kind compared =
    rw (kind, found, valid, compared) refl
