-- ===== src/Plan/Streams/Hop.antt =====
-- src/execution_plan/: the plan of a pattern of two nodes and the link between them, from the first
-- node's scan to the expansion along the link.
use redis_graph.Base.{
  ℕ, List, [], ◌∷◌, ◌++◌, map, some, false, All, some-injective, ok, get_elem?, Text, ◌≡◌, ◌≢◌, ◌↔◌,
  refl, ap, sym, ◌∙◌, arith,
}
use mathlib.Core.List.{Memᴰ}
use mathlib.Core.List.Memᴰ
use mathlib.Core.Logic.{⊎_elim}
use redis_graph.Graph.{Heap, Graph, Node, Edge, invalid_id, is_invalid}
use redis_graph.Hexastore.{Triplet, sp, get_kind, kind_of_bits, has_id, has_relationship}
use redis_graph.Hexastore.Search.{IsPlain}
use redis_graph.Hexastore.Edges.{IsEdge, IsHexastore, IsStored}
use redis_graph.Plan.Operations.{Libs, ExpandAll}
use redis_graph.Plan.Consume.{set_node, find_changes, node_is_new, edge_is_new}
use redis_graph.Plan.TreeLaws.{get_elem?-set, get_elem?-set_other}
use redis_graph.Plan.Streams.Select.{scanned}
use redis_graph.Plan.Streams.Slots.{set-twice}
use redis_graph.Plan.Streams.Matches.{with_match, matches, matching, IsOpen}
use redis_graph.Plan.Streams.Edges.{matches-IsStored}

scanned-map :
    (slot : ℕ) (g : Graph) (es : List (Text × ℕ))
    → scanned slot g es ≡ map (λ e. set_node g slot e.1) es
scanned-map slot g [] = refl
scanned-map slot g (e ∷ es) =
    ap (λ gs. set_node g slot e.1 ∷ gs)
      (scanned-map slot (set_node g slot e.1) es
        ∙ ap (λ f. map f es) (λ i d. record g { nodes = set-twice g.nodes slot e.1 (d.1) i }))

module _ (libs : Libs) (h : Heap) (op : ExpandAll libs) (g : Graph) where
  -- In the slots of the pattern are an edge with a relationship and a node, both without ids, and
  -- another node.
  pub record IsPattern (edge : Edge) (dest : Node) (r : Text) : Type 0 where
    pub src : ℕ
    pub src_at : get_elem? g.nodes op.src_node ≡ some src
    pub edge_at : get_elem? g.edges op.relation ≡ some op.original_relation
    pub dest_at : get_elem? g.nodes op.dest_node ≡ some op.original_dest
    pub apart : op.src_node ≢ op.dest_node
    pub edge_is : get_elem? h.edges op.original_relation ≡ some edge
    pub dest_is : get_elem? h.nodes op.original_dest ≡ some dest
    pub named : edge.relationship ≡ some r
    pub new_edge : edge.entity.id ≡ invalid_id
    pub new_dest : dest.entity.id ≡ invalid_id
    pub plain : IsPlain r

  module _ (edge : Edge) (dest : Node) (r : Text) (p : IsPattern edge dest r) where
    -- With a node that has an id in the source's slot, the expansion can start.
    unfoldable open_at :
        (a : ℕ) (n : Node)
        → get_elem? h.nodes a ≡ some n
        → is_invalid n.entity.id ≡ false
        → IsOpen libs h op sp 3 (set_node g op.src_node a)
    unfolding get_kind kind_of_bits has_id has_relationship find_changes node_is_new edge_is_new
    open_at a n there valid = record {
      src = a;
      edge = op.original_relation;
      dest = op.original_dest;
      src_at = get_elem?-set g.nodes op.src_node p.src a p.src_at;
      edge_at = p.edge_at;
      dest_at = get_elem?-set_other g.nodes op.src_node op.dest_node a p.apart ∙ p.dest_at;
      kind = rw (there, p.edge_is, p.dest_is, valid, p.named, p.new_dest) refl;
      bits = rw (there, p.edge_is, p.dest_is, valid, p.new_edge, p.new_dest) refl;
      old_src = λ e. ground arith;
      old_edge = λ e. refl;
      old_dest = λ e. refl;
    }

    -- What an entry of the scan gives: the graphs of the edges stored out of its node.
    abbrev pub Found : Text × ℕ → Graph → Type 0
    Found e w =
        (n : Node) × (get_elem? h.nodes e.1 ≡ some n)
        × ((t : Triplet) × (n' : Node) × IsEdge h t n' r
            × (n'.entity.id ≡ n.entity.id)
            × IsStored libs.triplets h op.hexastore t
            × (with_match libs h op sp 3 (set_node g op.src_node e.1) t ≡ ok w))

    -- The entry's node has an id.
    abbrev pub HasId : Text × ℕ → Type 0
    HasId e = (n : Node) × (get_elem? h.nodes e.1 ≡ some n) × (is_invalid n.entity.id ≡ false)

    entry_lem :
        (e : Text × ℕ)
        → IsHexastore libs.triplets h op.hexastore
        → HasId e
        → (ws : List Graph) × (matches libs h op sp 3 (set_node g op.src_node e.1) ≡ ok ws)
          × ((w : Graph) → Memᴰ w ws ↔ Found e w)
    unfolding open_at
    entry_lem e held (n, there, valid) =
        let (ws, done, iff) =
          matches-IsStored libs h op 3 (set_node g op.src_node e.1) (open_at e.1 n there valid) n
            dest edge r
            (record {
              subject = e.1;
              predicate = op.original_relation;
              object = op.original_dest;
              subject_is = refl;
              predicate_is = refl;
              object_is = refl;
              subject_node = there;
              predicate_edge = p.edge_is;
              object_node = p.dest_is;
            })
            p.named p.new_edge p.plain held in
        (
          ws,
          done,
          λ w. (
            λ i. (n, there, (iff w).0 i),
            λ (n0, there0, rest).
                let same : n0 ≡ n = some-injective (sym there0 ∙ there) in
                (iff w).1 (rw same at rest),
          ),
        )

    entries_lem :
        (es : List (Text × ℕ))
        → IsHexastore libs.triplets h op.hexastore
        → ((e : Text × ℕ) → Memᴰ e es → HasId e)
        → (ws : List Graph) × (matching libs h op sp 3 (map (λ e. set_node g op.src_node e.1) es)
            ≡ ok ws)
          × ((w : Graph) → Memᴰ w ws ↔ ((e : Text × ℕ) × Memᴰ e es × Found e w))
    entries_lem [] held ids =
        ([], refl, λ w. (λ i. absurd (Memᴰ.not-nil i), λ (e, i, f). absurd (Memᴰ.not-nil i)))
    entries_lem (e ∷ es) held ids =
        let (vs, here, iff) = entry_lem e held (ids e (Memᴰ.head refl)) in
        let (ws, more, iffs) = entries_lem es held (λ d i. ids d (Memᴰ.tail i)) in
        (
          vs ++ ws,
          rw (here, more) refl,
          λ w. (
            λ i.
                ⊎_elim (λ k. (e, Memᴰ.head refl, (iff w).0 k))
                  (λ k. let (d, j, f) = (iffs w).0 k in (d, Memᴰ.tail j, f))
                  (Memᴰ.append_cases vs i),
            λ (d, i, f).
                ⊎_elim (λ k. Memᴰ.append_left ws ((iff w).1 (rw k at f)))
                  (λ j. Memᴰ.append_right vs ((iffs w).1 (d, j, f))) (Memᴰ.cases_cons i),
          ),
        )

    open_lem :
        (es : List (Text × ℕ))
        → ((e : Text × ℕ) → Memᴰ e es → HasId e)
        → All (IsOpen libs h op sp 3) (map (λ e. set_node g op.src_node e.1) es)
    open_lem [] ids = tt
    open_lem (e ∷ es) ids =
        let (n, there, valid) = ids e (Memᴰ.head refl) in
        (open_at e.1 n there valid, open_lem es (λ d i. ids d (Memᴰ.tail i)))

    pub scanned-Found :
        (slot : ℕ) (es : List (Text × ℕ))
        → slot ≡ op.src_node
        → IsHexastore libs.triplets h op.hexastore
        → ((e : Text × ℕ) → Memᴰ e es → HasId e)
        → (ws : List Graph) × (matching libs h op sp 3 (scanned slot g es) ≡ ok ws)
          × All (IsOpen libs h op sp 3) (scanned slot g es)
          × ((w : Graph) → Memᴰ w ws ↔ ((e : Text × ℕ) × Memᴰ e es × Found e w))
    scanned-Found slot es same held ids =
        let (ws, done, iff) = entries_lem es held ids in
        let these = ap (λ s. scanned s g es) same ∙ scanned-map op.src_node g es in
        (ws, ap (matching libs h op sp 3) these ∙ done, rw these (open_lem es ids), iff)
