-- ===== src/Plan/Streams/Edges.antt =====
-- src/execution_plan/ops/op_expand_all.c: the edges that an expansion goes along.
use redis_graph.Base.{
  ℕ, List, [], ◌∷◌, ◌++◌, ok, some, Text, ◌≡◌, ◌↔◌, refl, ap, sym, ◌∙◌, ok-injective, codes,
  print_int,
}
use mathlib.Core.List.{Memᴰ}
use mathlib.Core.List.Memᴰ
use mathlib.Core.List.{append-nil}
use mathlib.Core.Logic.{⊎_elim}
use redis_graph.Value.{Machine}
use redis_graph.Graph.{Heap, Graph, Node, Edge, invalid_id}
use redis_graph.Hexastore.{Triplet, sp, unknow, to_string}
use redis_graph.Hexastore.Search.{Refers, IsPlain, to_string-sp}
use redis_graph.Hexastore.Edges.{IsEdge, IsHexastore, IsStored, entries-IsStored}
use redis_graph.Aggregate.{Registry}
use redis_graph.Query.{Query}
use redis_graph.Plan.Operations.{Libs, ExpandAll, expand_all, expand_all_uninitialized}
use redis_graph.Plan.Expand.{expanded}
use redis_graph.Plan.Streams.{Serving}
use redis_graph.Plan.Streams.Select.{world_of, ops}
use redis_graph.Plan.Streams.Matches.{matches, sought, with_match, each_match, IsOpen}
use redis_graph.Plan.Streams.Expansion.{expand-Serving}

module _ (libs : Libs) (h : Heap) (op : ExpandAll libs) (c : ℕ) (g : Graph) where
  -- The entries have each a graph: these are the graphs.
  each_match_lem :
      (ms : List (Text × Triplet))
      → ((j : Text) (t : Triplet)
          → Memᴰ (j, t) ms
          → (w : Graph) × (with_match libs h op sp c g t ≡ ok w))
      → (ws : List Graph) × (each_match libs h op sp c g ms ≡ ok ws)
        × ((w : Graph)
            → Memᴰ w ws ↔ (
                (t : Triplet) × ((j : Text) × Memᴰ (j, t) ms)
                × (with_match libs h op sp c g t ≡ ok w)))
  each_match_lem [] all =
      ([], refl, λ w. (λ i. absurd (Memᴰ.not-nil i), λ (t, (j, i), e). absurd (Memᴰ.not-nil i)))
  each_match_lem ((j, t) ∷ ms) all =
      let (w, here) = all j t (Memᴰ.head refl) in
      let (ws, done, iff) = each_match_lem ms (λ j t i. all j t (Memᴰ.tail i)) in
      (
        w ∷ ws,
        rw (here, done) refl,
        λ v. (
          λ i.
              ⊎_elim (λ e. (t, (j, Memᴰ.head refl), here ∙ ap ok (sym e)))
                (λ rest.
                  let (t', (j', i'), found) = (iff v).0 rest in (t', (j', Memᴰ.tail i'), found))
                (Memᴰ.cases_cons i),
          λ (t', (j', i), found).
              ⊎_elim
                (λ e.
                  Memᴰ.head
                    (ok-injective (sym found ∙ ap (λ x. with_match libs h op sp c g x.1) e ∙ here)))
                (λ i'. Memᴰ.tail ((iff v).1 (t', (j', i'), found))) (Memᴰ.cases_cons i),
        ),
      )

  with_match-IsEdge :
      (t : Triplet) (n : Node) (r : Text)
      → IsEdge h t n r
      → (w : Graph) × (with_match libs h op sp c g t ≡ ok w)
  with_match-IsEdge t n r x = (
    expanded libs g (record op { changes = c }) x.refers.subject x.refers.predicate x.refers.object,
    rw (x.refers.subject_is, x.refers.predicate_is, x.refers.object_is) refl,
  )

-- The graphs of an expansion, on a hexastore that holds only triplets of edges with relationships
-- without "@" that the keys have room for: those of the edges stored, of the relationship and out of
-- the node.
pub matches-IsStored :
    (libs : Libs) (h : Heap) (op : ExpandAll libs) (c : ℕ) (g : Graph) (o : IsOpen libs h op sp c g)
    (n' m' : Node) (e' : Edge) (r' : Text)
    → Refers h (sought o.src o.edge o.dest sp) n' e' m'
    → e'.relationship ≡ some r'
    → e'.entity.id ≡ invalid_id
    → IsPlain r'
    → IsHexastore libs.triplets h op.hexastore
    → (ws : List Graph) × (matches libs h op sp c g ≡ ok ws)
      × ((w : Graph)
          → Memᴰ w ws ↔ (
              (t : Triplet) × (n : Node) × IsEdge h t n r'
              × (n.entity.id ≡ n'.entity.id)
              × IsStored libs.triplets h op.hexastore t
              × (with_match libs h op sp c g t ≡ ok w)))
matches-IsStored libs h op c g o n' m' e' r' refers named unset plain held =
    let text : Text = codes "SPO:" ++ (print_int n'.entity.id ++ b':' ∷ (r' ++ b'@' ∷ [])) in
    let shown : to_string h (sought o.src o.edge o.dest sp) ≡ ok text =
      to_string-sp h (sought o.src o.edge o.dest sp) n' m' e' r' refers refl named unset in
    let found : (t : Triplet)
        → ((j : Text) × Memᴰ (j, t) (libs.triplets.entries op.hexastore text)) ↔ (
            (n : Node) × IsEdge h t n r'
            × (n.entity.id ≡ n'.entity.id)
            × IsStored libs.triplets h op.hexastore t) =
      λ t.
        entries-IsStored libs.triplets h op.hexastore (sought o.src o.edge o.dest sp) t n' m' e' r'
          text held refers refl named unset plain shown in
    let (ws, done, iff) =
      each_match_lem libs h op c g (libs.triplets.entries op.hexastore text) (λ j t i.
        let (n, x, same, stored) = (found t).0 (j, i) in
        with_match-IsEdge libs h op c g t n r' x) in
    (
      ws,
      rw (o.src_at, o.edge_at, o.dest_at, shown) done,
      λ w. (
        λ i.
            let (t, there, made) = (iff w).0 i in
            let (n, x, same, stored) = (found t).0 there in (t, n, x, same, stored, made),
        λ (t, n, x, same, stored, made). (iff w).1 (t, (found t).1 (n, x, same, stored), made),
      ),
    )

-- The hexastore holds only triplets, each under one of its keys, of edges whose relationships have
-- at most 42 bytes without "@", and which have ids of 64 bits, as their sources have. An expansion is
-- new: its state is uninitialized, and its bits of changes are 0 and the kind of its triplet unknown,
-- as in memory that is cleared. It is given one graph, with the pattern's entities in the slots that
-- it writes, of which the source has an id, the edge has no id and such a relationship, and the
-- destination has no id. Then it hands out graphs without a fault: with the entities of a triplet in
-- the slots, for each triplet stored of an edge with that relationship from the node with that id,
-- and for no other.
pub expand_all-IsStored :
    (m : Machine) (libs : Libs) (h : Heap) (reg : Registry) (q : Query) (op : ExpandAll libs)
    (c : ℕ) (g : Graph) (o : IsOpen libs h op sp c g) (n' m' : Node) (e' : Edge) (r' : Text)
    → op.state ≡ expand_all_uninitialized
    → op.changes ≡ 0
    → op.triplet.kind ≡ unknow
    → Refers h (sought o.src o.edge o.dest sp) n' e' m'
    → e'.relationship ≡ some r'
    → e'.entity.id ≡ invalid_id
    → IsPlain r'
    → IsHexastore libs.triplets h op.hexastore
    → (ws : List Graph) × Serving
        (ops m libs h reg q)
        (world_of libs)
        (expand_all op)
        g
        g
        (g ∷ [])
        ws
      × ((w : Graph)
          → Memᴰ w ws ↔ (
              (t : Triplet) × (n : Node) × IsEdge h t n r'
              × (n.entity.id ≡ n'.entity.id)
              × IsStored libs.triplets h op.hexastore t
              × (with_match libs h op sp c g t ≡ ok w)))
expand_all-IsStored m libs h reg q op c g o n' m' e' r' new clear kinds refers named unset plain
      held =
    let (ws, done, iff) =
      matches-IsStored libs h op c g o n' m' e' r' refers named unset plain held in
    (
      ws,
      expand-Serving m libs h reg q op sp c (g ∷ []) ws g new clear kinds (o, tt)
          (rw done (ap ok (append-nil ws))),
      iff,
    )
