-- ===== src/Query/Build.antt =====
-- BuildGraph on the patterns that the grammar makes: a node, and links each with a node behind it.
use redis_graph.Base.{
  ℕ, ◌+◌, Option, ok, Text, List, [], ◌∷◌, ◌++◌, length, ◌≡◌, refl, ap, ◌∙◌, sym, arith,
  length-append,
}
use mathlib.Core.List.{append-nil, append_assoc}
use redis_graph.Graph.{Heap, new_node, new_graph, invalid_id, contains_entity, contains_node}
use redis_graph.Query.{AstEntity, n_entity, n_link}
use redis_graph.Query.Pattern.{node, Builder, connect_top, build_from, build_graph}
use redis_graph.Query.Linking.{IsReady, build_step, push_entity-node, contains_entity-last}

-- The links of a pattern, each with the node behind it, as the list of the pattern's entities.
abbrev pub behind : List (AstEntity × AstEntity) → List AstEntity
behind [] = []
behind (p ∷ ps) = p.0 ∷ p.1 ∷ behind ps

abbrev pub AreLinked : List (AstEntity × AstEntity) → Type 0
AreLinked [] = Unit
AreLinked (p ∷ ps) = (p.0.type ≡ n_link) × (p.1.type ≡ n_entity) × AreLinked ps

abbrev pub link_names : List (AstEntity × AstEntity) → List (Option Text)
link_names [] = []
link_names (p ∷ ps) = p.0.alias ∷ link_names ps

abbrev pub node_names : List (AstEntity × AstEntity) → List (Option Text)
node_names [] = []
node_names (p ∷ ps) = p.1.alias ∷ node_names ps

build_from-behind :
    (b : Builder) (a : ℕ) (ps : List (AstEntity × AstEntity))
    → IsReady b a
    → AreLinked ps
    → (b' : Builder) × (build_from b (behind ps) ≡ ok b')
      × (b'.graph.node_aliases ≡ b.graph.node_aliases ++ node_names ps)
      × (b'.graph.edge_aliases ≡ b.graph.edge_aliases ++ link_names ps)
unfolding build_from
build_from-behind b a [] r l = (b, refl, sym (rw append-nil refl), sym (rw append-nil refl))
build_from-behind b a (p ∷ ps) r l =
    let (b', step, ready, nodes, links) = build_step b a p.0 p.1 (behind ps) r l.0 l.1 in
    let (b'', done, nodes', links') = build_from-behind b' (length b.heap.nodes) ps ready l.2 in
    (
      b'',
      step ∙ done,
      nodes'
          ∙ ap (λ xs. xs ++ node_names ps) nodes
          ∙ append_assoc b.graph.node_aliases (p.1.alias ∷ []) (node_names ps),
      links'
          ∙ ap (λ xs. xs ++ link_names ps) links
          ∙ append_assoc b.graph.edge_aliases (p.0.alias ∷ []) (link_names ps),
    )

-- On a pattern that starts with a node and goes on with links that have a node behind each,
-- BuildGraph finishes without a failed assertion, and the graph has the nodes' aliases and the links' aliases in the order of the pattern.
pub build_graph-aliases :
    (h : Heap) (first : AstEntity) (ps : List (AstEntity × AstEntity))
    → first.type ≡ n_entity
    → AreLinked ps
    → (b : Builder) × (build_graph h (first ∷ behind ps) ≡ ok b)
      × (b.graph.node_aliases ≡ first.alias ∷ node_names ps)
      × (b.graph.edge_aliases ≡ link_names ps)
unfolding build_graph build_from connect_top new_graph contains_node contains_entity
build_graph-aliases h first ps t l =
    let start : Builder = record { heap = h; graph = new_graph; stack = [] } in
    let grew : length (h.nodes ++ new_node invalid_id first.label ∷ []) ≡ length h.nodes + 1 =
      omega (arith, length-append h.nodes (new_node invalid_id first.label ∷ [])) in
    let pushed = push_entity-node start first t tt in
    let (b, done, nodes, links) =
      build_from-behind
        (record {
          heap = record h { nodes = h.nodes ++ new_node invalid_id first.label ∷ [] };
          graph = record new_graph { nodes = length h.nodes ∷ []; node_aliases = first.alias ∷ [] };
          stack = node (length h.nodes) ∷ [];
        })
        (length h.nodes) ps
        (record {
          top = refl;
          there = contains_entity-last (length h.nodes) [];
          inside = omega (arith, grew);
          nodes_below = (omega (arith, grew), tt);
          edges_below = tt;
        })
        l in
    (b, rw pushed done, nodes, links)
