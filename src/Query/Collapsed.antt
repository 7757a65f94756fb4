-- ===== src/Query/Collapsed.antt =====
-- src/query_executor.c: ReturnClause_ExpandCollapsedNodes, which replaces an entity in a RETURN
-- clause by the properties that the first stored entity of its label has.
use redis_graph.Base.{
  ℕ, Bool, true, false, Option, none, some, Run, ok, fault, ◌>>=◌, deref, Text, text_eq, List, [],
  ◌∷◌, ◌++◌, map, if◌then◌else◌,
}
use redis_graph.Trie.{TrieMap}
use redis_graph.Graph.{Heap, Entity, Property, node_at, edge_at}
use redis_graph.Hexastore.{Triplet}
use redis_graph.Query.{
  AstEntity, n_entity, n_link, ReturnElement, n_node, n_prop, Query, new_return_element,
}
use redis_graph.Store.{StoreType, store_node, store_edge, store_id, Keyspace, get_store}

-- The first entity of the pattern with the alias.
unfoldable pub find_entity : List AstEntity → Text → Run (Option AstEntity)
find_entity [] alias = ok none
find_entity (e ∷ es) alias =
    let rest = find_entity es alias in
    deref e.alias >>= λ t. if text_eq t alias then ok (some e) else rest

abbrev pub store_type : AstEntity → StoreType
store_type e = elim e.type [ n_entity ↦ store_node | n_link ↦ store_edge ]

unfoldable pub entity_behind : Heap → StoreType → ℕ → Run Entity
entity_behind h store_node a = do n ← node_at h a; ok n.entity
entity_behind h store_edge a = do e ← edge_at h a; ok e.entity

-- A return element for each property.
unfoldable pub expanded : Option Text → List Property → List ReturnElement
unfolding new_return_element
expanded alias ps = map (λ p. new_return_element n_prop alias (some p.name) none none) ps

module _ (nodes : TrieMap ℕ) (triplets : TrieMap Triplet) (h : Heap) where
  abbrev Keys : Type 0
  Keys = Keyspace nodes triplets

  -- The first entity of the store that the pattern's entity is looked up in; where the store is
  -- empty the code follows an unset pointer.
  unfoldable pub first_entity : Keys → Text → AstEntity → Run (Entity × Keys)
  unfolding get_store entity_behind store_id
  first_entity ks graph e = do
    found ← get_store nodes triplets ks (store_id (store_type e) graph e.label)
    elim (nodes.entries found.0 []) [
      | [] ↦ fault
      | entry ∷ more ↦ (do x ← entity_behind h (store_type e) entry.1; ok (x, found.1))
    ]

  -- The loop over the elements. `none` ends it at an entity that the pattern has not, which leaves
  -- the clause as it was; if an element was freed before, the clause then has a freed element.
  unfoldable pub expand_elements :
      Keys
      → Text
      → List AstEntity
      → Bool
      → List ReturnElement
      → Run (Option (List ReturnElement) × Keys)
  unfolding find_entity first_entity expanded
  expand_elements ks graph pattern freed [] = ok (some [], ks)
  expand_elements ks graph pattern freed (r ∷ rs) = elim r.type [
    | n_node ↦ (do
      alias ← deref r.var_alias
      found ← find_entity pattern alias
      elim found [
        | none ↦ if freed then fault else ok (none, ks)
        | some e ↦ (do
          first ← first_entity ks graph e
          more ← expand_elements first.1 graph pattern true rs
          ok (
            elim more.0 [
              | none ↦ none
              | some out ↦ some (expanded e.alias first.0.properties ++ out)
            ],
            more.1,
          ))
      ])
    | _ ↦ (do
      more ← expand_elements ks graph pattern freed rs
      ok (elim more.0 [ none ↦ none | some out ↦ some (r ∷ out) ], more.1))
  ]

  unfoldable pub expand_collapsed_nodes : Keys → Text → Query → Run (Query × Keys)
  unfolding expand_elements
  expand_collapsed_nodes ks graph q = do
    r ← expand_elements ks graph q.entities false q.returns.elements
    ok (
      elim r.0 [ none ↦ q | some out ↦ record q { returns = record q.returns { elements = out } } ],
      r.1,
    )
