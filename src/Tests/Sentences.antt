-- ===== src/Tests/Sentences.antt =====
-- The grammar: the theorems at
-- MATCH (a:person {age: 30})-[:knows]->() WHERE a.name != 'Bob' RETURN a.age, and at a.age != 30.
use redis_graph.Base.{
  print_nat, codes, true, ◌&&◌, [], ◌∷◌, length, some, ok, fault, ◌≡◌, refl, pos, Ordering,
}
use redis_graph.Value.{double_val, bits}
use redis_graph.Filter.Build.{build_filters_tree, cmp_for_type}
use redis_graph.Filter.Apply.{apply_filters}
use redis_graph.Graph.{Graph, find_by_alias, get_entity_by_alias, get_node_by_alias, get_property}
use redis_graph.Query.{Query, name_from, parse_query}
use redis_graph.Query.Pattern.{Builder, build_graph}
use redis_graph.Query.Passes.{clause, all_equalities}
use redis_graph.Value.Compare.{cmp_double, run_cmp, cmp_generic}
use redis_graph.Grammar.{
  value, integer, string, last_pair, no_properties, braces, node_full, node_empty, edge_labelled,
  to_right, first_node, and_link, is_ne, with_value, cond, where_cond, where_clause, returned,
  one_item, return_all, no_order, no_limit, Expr, expr, chain,
}
use redis_graph.Grammar.Patterns.{chain_drawn, with_names}
use redis_graph.Grammar.Sound.{HasFilterTree}
use redis_graph.Grammar.Accepted.{parse_query-expr, build_graph-expr, apply_filters-is_ne}
use redis_graph.Tests.{machine, heap, ann}

abbrev sentence : Expr
sentence = record {
  matched =
      and_link
        (first_node (
          node_full (codes "a") (codes "person")
            (braces (last_pair (codes "age") (integer (pos 30))))))
        (to_right (edge_labelled (codes "knows") no_properties)) (node_empty no_properties);
  filtered = where_cond (with_value (codes "a") (codes "name") is_ne (string (codes "Bob")));
  returns = return_all (one_item (returned (record { alias = codes "a"; property = codes "age" })));
  order = no_order;
  limit = no_limit;
}

parse_query-expr_example :
    (q' : Query) × (parse_query (some (expr machine sentence)) ≡ ok (some q'))
    × (q'.entities ≡ name_from 0 (chain machine sentence.matched))
    × (clause (λ t. true) q'.where_filters
        ≡ clause (λ t. true) (where_clause machine sentence.filtered)
          && all_equalities (λ t. true) (with_names 0 (chain_drawn machine sentence.matched)))
parse_query-expr_example = parse_query-expr (λ t. true) machine sentence

build_graph-expr_example :
    (q' : Query) × (b : Builder) × (parse_query (some (expr machine sentence)) ≡ ok (some q'))
    × (build_graph (record { nodes = []; edges = [] }) q'.entities ≡ ok b)
    × (length b.graph.node_aliases ≡ 2)
    × (length b.graph.edge_aliases ≡ 1)
    × (b.graph.node_aliases ≡ some (codes "a") ∷ some (codes "anon_2") ∷ [])
    × (b.graph.edge_aliases ≡ some (codes "anon_1") ∷ [])
    × HasFilterTree machine q'.where_filters
unfolding print_nat
build_graph-expr_example = build_graph-expr machine (record { nodes = []; edges = [] }) sentence

-- The graph of one person.
abbrev ann_alone : Graph
ann_alone = record {
  nodes = 0 ∷ [];
  edges = [];
  node_aliases = some (codes "a") ∷ [];
  edge_aliases = [];
}

ann_found : get_entity_by_alias heap ann_alone (some (codes "a")) ≡ ok (some ann.entity)
unfolding get_entity_by_alias get_node_by_alias find_by_alias
ann_found = refl

integer_compared : cmp_for_type (value machine (integer (pos 30))).type ≡ some cmp_double
unfolding cmp_for_type value double_val
integer_compared = refl

ann_older :
    run_cmp machine cmp_double
      (get_property ann.entity (codes "age"))
      (some (value machine (integer (pos 30))))
    ≡ ok Ordering.gt
unfolding run_cmp get_property cmp_generic value double_val bits
ann_older = refl

apply_filters-is_ne_example :
    apply_filters machine heap ann_alone (
      build_filters_tree
        (cond machine (with_value (codes "a") (codes "age") is_ne (integer (pos 30)))))
    ≡ fault
apply_filters-is_ne_example =
    apply_filters-is_ne machine heap ann_alone (codes "a") (codes "age") (integer (pos 30))
      ann.entity cmp_double Ordering.gt ann_found refl integer_compared ann_older
