-- ===== src/Query/Pattern.antt =====
-- BuildGraph of src/query_executor.c: the graph of a MATCH pattern, built over a stack of at most
-- three entries.
use redis_graph.Base.{ℕ, Run, ok, fault, ◌>>=◌, List, [], ◌∷◌, ◌++◌, length}
use redis_graph.Graph.{
  Heap, Graph, new_graph, new_node, new_edge, invalid_id, add_node, connect_nodes,
}
use redis_graph.Query.{AstEntity, n_entity, n_link, left_to_right}

-- An entry of the stack of `void *`.
pub data Item : Type 0 where
  node : ℕ → Item
  link : AstEntity → Item

pub record Builder : Type 0 where
  pub heap : Heap
  pub graph : Graph
  pub stack : List Item

-- What the loop does with an entity: a node is made and added, a link waits. The top of the stack
-- comes first.
unfoldable pub push_entity : Builder → AstEntity → Builder
push_entity b e = elim e.type [
  | n_entity ↦
      let a = length b.heap.nodes in
      record {
        heap = record b.heap { nodes = b.heap.nodes ++ new_node invalid_id e.label ∷ [] };
        graph = (add_node b.graph a e.alias).0;
        stack = node a ∷ b.stack;
      }
  | n_link ↦ record b { stack = link e ∷ b.stack }
]

-- The edge between the nodes at the two addresses.
unfoldable pub make_edge : Builder → ℕ → ℕ → AstEntity → Run (Heap × Graph)
make_edge b s d e = do
  let a = length b.heap.edges
  let h : Heap = record b.heap { edges = b.heap.edges ++ new_edge invalid_id s d e.label ∷ [] }
  connect_nodes h b.graph s d a e.alias

unfoldable pub link_nodes : Builder → ℕ → ℕ → AstEntity → Run (Heap × Graph)
unfolding make_edge
link_nodes b a c e = elim e.direction [ left_to_right ↦ make_edge b a c e | _ ↦ make_edge b c a e ]

-- With three entries on the stack, they are popped and the last node is put back. An entry that is
-- not what its type cast says is a fault.
unfoldable pub connect_top : Builder → Run Builder
unfolding link_nodes
connect_top b = elim b.stack [
  | node c ∷ link e ∷ node a ∷ [] ↦ (do
    r ← link_nodes b a c e
    ok (record { heap = r.0; graph = r.1; stack = node c ∷ [] }))
  | _ ∷ _ ∷ _ ∷ [] ↦ fault
  | _ ↦ ok b
]

unfoldable pub build_from : Builder → List AstEntity → Run Builder
unfolding push_entity connect_top
build_from b [] = ok b
build_from b (e ∷ es) = do b' ← connect_top (push_entity b e); build_from b' es

unfoldable pub build_graph : Heap → List AstEntity → Run Builder
unfolding build_from new_graph
build_graph h es = build_from (record { heap = h; graph = new_graph; stack = [] }) es
