-- ===== src/Tests/Queries.antt =====
-- The passes over a query: the theorems at MATCH (a {age: 33})-[]->() and at a clash of aliases.
use redis_graph.Base.{
  false, none, some, codes, List, [], ◌∷◌, ◌++◌, ◌≡◌, refl, print_nat, get_elem?,
}
use redis_graph.Value.{double_val}
use redis_graph.Query.{AstEntity, Query, left_to_right, n_entity, n_link, name_anonymous_nodes}
use redis_graph.Query.Passes.{
  written, alias_at, name_anonymous_nodes-alias_at, name_anonymous_nodes_clash,
}

abbrev person : AstEntity
person = record {
  alias = some (codes "a");
  label = some (codes "person");
  properties = some (written ((codes "age", double_val 33) ∷ []));
  type = n_entity;
  direction = left_to_right;
}

abbrev anybody : AstEntity
anybody = record {
  alias = none;
  label = none;
  properties = none;
  type = n_entity;
  direction = left_to_right;
}

abbrev called_anon_1 : AstEntity
called_anon_1 = record anybody { alias = some (codes "anon_" ++ print_nat 1) }

abbrev query_of : List AstEntity → Query
query_of es = record {
  entities = es;
  where_filters = none;
  returns = record { elements = []; distinct = false };
  order = none;
  limit = none;
}

name_anonymous_nodes-alias_at_example :
    (e' : AstEntity) × (get_elem?
        (name_anonymous_nodes (query_of (person ∷ anybody ∷ []))).entities
        1
      ≡ some e')
    × (e'.alias ≡ some (alias_at 1 none))
name_anonymous_nodes-alias_at_example =
    name_anonymous_nodes-alias_at (query_of (person ∷ anybody ∷ [])) 1 anybody refl

name_anonymous_nodes_clash_example :
    (e' : AstEntity) × (f' : AstEntity) × (get_elem?
        (name_anonymous_nodes (query_of (called_anon_1 ∷ anybody ∷ []))).entities
        0
      ≡ some e')
    × (get_elem? (name_anonymous_nodes (query_of (called_anon_1 ∷ anybody ∷ []))).entities 1
        ≡ some f')
    × (e'.alias ≡ f'.alias)
name_anonymous_nodes_clash_example =
    name_anonymous_nodes_clash (query_of (called_anon_1 ∷ anybody ∷ [])) 0 1 called_anon_1 anybody
      refl refl refl refl

abbrev arrow : AstEntity
arrow = record anybody { alias = some (codes "e"); type = n_link }
