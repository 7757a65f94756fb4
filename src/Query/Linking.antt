-- ===== src/Query/Linking.antt =====
-- One step of BuildGraph: a link and the node behind it.
use redis_graph.Base.{
  ℕ, zero, suc, ◌+◌, ◌<◌, true, false, ◌||◌, some, ok, List, [], ◌∷◌, ◌++◌, length, get_elem?, set,
  All, ◌≡◌, refl, ap, ◌∙◌, arith, inl, inr, ◌⊎◌, length-append, length-set,
}
use redis_graph.Graph.{
  Heap, new_node, new_edge, invalid_id, contains_entity, contains_node, contains_edge, add_node,
  add_edge, connect_node, connect_nodes,
}
use redis_graph.Query.{
  AstEntity, n_entity, n_link, left_to_right, right_to_left, dir_unknown, LinkDirection,
}
use redis_graph.Query.Pattern.{
  node, link, Builder, push_entity, make_edge, link_nodes, connect_top, build_from,
}

module _ {A : Type 0} where
  get_elem?-below : (xs : List A) (i : ℕ) → i < length xs → (x : A) × (get_elem? xs i ≡ some x)
  get_elem?-below [] i h = absurd (omega arith)
  get_elem?-below (x ∷ xs) zero h = (x, refl)
  get_elem?-below (x ∷ xs) (suc i) h = get_elem?-below xs i (omega arith)

contains_entity-append :
    (a : ℕ) (xs ys : List ℕ)
    → contains_entity a (xs ++ ys) ≡ (contains_entity a xs || contains_entity a ys)
unfolding contains_entity
contains_entity-append a [] ys = refl
contains_entity-append a (x ∷ xs) ys = ground (arith, contains_entity-append a xs ys)

pub contains_entity-last : (a : ℕ) (xs : List ℕ) → contains_entity a (xs ++ a ∷ []) ≡ true
unfolding contains_entity
contains_entity-last a [] = ground arith
contains_entity-last a (x ∷ xs) = ground (arith, contains_entity-last a xs)

-- Every address is below the length of the heap.
abbrev pub AreBelow : ℕ → List ℕ → Type 0
AreBelow n xs = All (λ x. x < n) xs

AreBelow-fresh : (n : ℕ) (xs : List ℕ) → AreBelow n xs → contains_entity n xs ≡ false
unfolding contains_entity
AreBelow-fresh n [] h = refl
AreBelow-fresh n (x ∷ xs) h = ground (arith, AreBelow-fresh n xs h.1)

AreBelow-snoc : (n : ℕ) (xs : List ℕ) → AreBelow n xs → AreBelow (n + 1) (xs ++ n ∷ [])
AreBelow-snoc n [] h = (omega arith, tt)
AreBelow-snoc n (x ∷ xs) h = (omega arith, AreBelow-snoc n xs h.1)

connect_node-below :
    (h : Heap) (s d e : ℕ)
    → s < length h.nodes
    → d < length h.nodes
    → (h' : Heap) × (connect_node h s d e ≡ ok h')
      × (length h'.nodes ≡ length h.nodes)
      × (h'.edges ≡ h.edges)
unfolding connect_node
connect_node-below h s d e hs hd =
    let (n, found) = get_elem?-below h.nodes s hs in
    let grown = set h.nodes s (record n { outgoing = n.outgoing ++ e ∷ [] }) in
    let (k, found') =
      get_elem?-below grown d
        (omega (arith, length-set h.nodes s (record n { outgoing = n.outgoing ++ e ∷ [] }))) in
    (
      record h { nodes = set grown d (record k { incoming = k.incoming ++ e ∷ [] }) },
      ground (arith, found, found'),
      length-set grown d _ ∙ length-set h.nodes s _,
      refl,
    )

make_edge-below :
    (b : Builder) (s d : ℕ) (e : AstEntity)
    → contains_node b.graph s ≡ true
    → contains_node b.graph d ≡ true
    → s < length b.heap.nodes
    → d < length b.heap.nodes
    → AreBelow (length b.heap.edges) b.graph.edges
    → (h : Heap) × (make_edge b s d e ≡ ok (h, add_edge b.graph (length b.heap.edges) e.alias))
      × (length h.nodes ≡ length b.heap.nodes)
      × (length h.edges ≡ length b.heap.edges + 1)
unfolding make_edge connect_nodes contains_edge
make_edge-below b s d e cs cd hs hd below =
    let a = length b.heap.edges in
    let made = new_edge invalid_id s d e.label in
    let grown : Heap = record b.heap { edges = b.heap.edges ++ made ∷ [] } in
    let (h, done, same, edges) = connect_node-below grown s d a hs hd in
    (
      h,
      ground (arith, cs, cd, AreBelow-fresh a b.graph.edges below, done),
      same,
      ap length edges ∙ omega (arith, length-append b.heap.edges (made ∷ [])),
    )

-- Between two links: the last node is on the stack, and the graph's addresses are the heap's.
pub record IsReady (b : Builder) (a : ℕ) : Type 0 where
  pub top : b.stack ≡ node a ∷ []
  pub there : contains_node b.graph a ≡ true
  pub inside : a < length b.heap.nodes
  pub nodes_below : AreBelow (length b.heap.nodes) b.graph.nodes
  pub edges_below : AreBelow (length b.heap.edges) b.graph.edges

pub push_entity-node :
    (b : Builder) (e : AstEntity)
    → e.type ≡ n_entity
    → AreBelow (length b.heap.nodes) b.graph.nodes
    → push_entity b e ≡ record {
      heap = record b.heap { nodes = b.heap.nodes ++ new_node invalid_id e.label ∷ [] };
      graph = record b.graph {
        nodes = b.graph.nodes ++ length b.heap.nodes ∷ [];
        node_aliases = b.graph.node_aliases ++ e.alias ∷ [];
      };
      stack = node (length b.heap.nodes) ∷ b.stack;
    }
unfolding push_entity add_node contains_node
push_entity-node b e t below =
    ground (arith, t, AreBelow-fresh (length b.heap.nodes) b.graph.nodes below)

LinkDirection-cases :
    (d : LinkDirection) → (d ≡ left_to_right) ⊎ ((d ≡ right_to_left) ⊎ (d ≡ dir_unknown))
LinkDirection-cases left_to_right = inl refl
LinkDirection-cases right_to_left = inr (inl refl)
LinkDirection-cases dir_unknown = inr (inr refl)

link_nodes-below :
    (b : Builder) (s d : ℕ) (e : AstEntity)
    → contains_node b.graph s ≡ true
    → contains_node b.graph d ≡ true
    → s < length b.heap.nodes
    → d < length b.heap.nodes
    → AreBelow (length b.heap.edges) b.graph.edges
    → (h : Heap) × (link_nodes b s d e ≡ ok (h, add_edge b.graph (length b.heap.edges) e.alias))
      × (length h.nodes ≡ length b.heap.nodes)
      × (length h.edges ≡ length b.heap.edges + 1)
unfolding link_nodes
link_nodes-below b s d e cs cd hs hd below =
    let (h, done, same, more) = make_edge-below b s d e cs cd hs hd below in
    let (h', done', same', more') = make_edge-below b d s e cd cs hd hs below in
    elim (LinkDirection-cases e.direction) [
      | inl right ↦ (h, ground (arith, right, done), same, more)
      | inr (inl left) ↦ (h', ground (arith, left, done'), same', more')
      | inr (inr any_way) ↦ (h', ground (arith, any_way, done'), same', more')
    ]

push_entity-link :
    (b : Builder) (e : AstEntity)
    → e.type ≡ n_link
    → push_entity b e ≡ record b { stack = link e ∷ b.stack }
unfolding push_entity
push_entity-link b e t = ground (arith, t)

contains_entity-kept :
    (a : ℕ) (xs ys : List ℕ) → contains_entity a xs ≡ true → contains_entity a (xs ++ ys) ≡ true
contains_entity-kept a xs ys h = contains_entity-append a xs ys ∙ ground (arith, h)

pub build_step :
    (b : Builder) (a : ℕ) (l n : AstEntity) (rest : List AstEntity)
    → IsReady b a
    → l.type ≡ n_link
    → n.type ≡ n_entity
    → (b' : Builder) × (build_from b (l ∷ n ∷ rest) ≡ build_from b' rest)
      × IsReady b' (length b.heap.nodes)
      × (b'.graph.node_aliases ≡ b.graph.node_aliases ++ n.alias ∷ [])
      × (b'.graph.edge_aliases ≡ b.graph.edge_aliases ++ l.alias ∷ [])
unfolding build_from connect_top contains_node add_edge
build_step b a l n rest r tl tn =
    let c = length b.heap.nodes in
    let waiting : Builder = record b { stack = link l ∷ node a ∷ [] } in
    let pushed : push_entity b l ≡ waiting =
      push_entity-link b l tl ∙ ap (λ st. record b { stack = link l ∷ st }) r.top in
    let full : Builder = record {
      heap = record b.heap { nodes = b.heap.nodes ++ new_node invalid_id n.label ∷ [] };
      graph = record b.graph {
        nodes = b.graph.nodes ++ c ∷ [];
        node_aliases = b.graph.node_aliases ++ n.alias ∷ [];
      };
      stack = node c ∷ link l ∷ node a ∷ [];
    } in
    let grew : length full.heap.nodes ≡ c + 1 =
      omega (arith, length-append b.heap.nodes (new_node invalid_id n.label ∷ [])) in
    let pushed_node : push_entity waiting n ≡ full = push_entity-node waiting n tn r.nodes_below in
    let (h, done, same, more) =
      link_nodes-below full a c l (contains_entity-kept a b.graph.nodes (c ∷ []) r.there)
        (contains_entity-last c b.graph.nodes) (omega (arith, grew, r.inside)) (omega (arith, grew))
        r.edges_below in
    (
      record {
        heap = h;
        graph = add_edge full.graph (length b.heap.edges) l.alias;
        stack = node c ∷ [];
      },
      rw (pushed, pushed_node, done) refl,
      record {
        top = refl;
        there = contains_entity-last c b.graph.nodes;
        inside = omega (arith, same, grew);
        nodes_below = rw (same, grew) (AreBelow-snoc c b.graph.nodes r.nodes_below);
        edges_below = rw more (AreBelow-snoc (length b.heap.edges) b.graph.edges r.edges_below);
      },
      refl,
      refl,
    )
