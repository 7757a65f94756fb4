-- ===== src/Plan/Streams/Expansion.antt =====
-- src/execution_plan/ops/op_expand_all.c: the expansion as a stream of graphs.
use redis_graph.Base.{
  ℕ, false, List, [], ◌∷◌, ◌++◌, Option, none, All, some, ok, ◌>>=◌, deref, bind-ok, ok-injective,
  inl, inr, Text, ◌≡◌, ◌⊎◌, refl, sym, ap, ap₂, ◌∙◌, arith,
}
use redis_graph.Value.{Machine}
use redis_graph.Graph.{Heap, Graph}
use redis_graph.Hexastore.{Triplet, TripletKind, unknow, to_string}
use redis_graph.Aggregate.{Registry}
use redis_graph.Query.{Query}
use redis_graph.Plan.{op_ok, op_refresh}
use redis_graph.Plan.Operations.{
  Libs, Operation, ExpandAll, expand_all, expand_all_uninitialized, expand_all_resetted,
  expand_all_consuming,
}
use redis_graph.Plan.Consume.{
  consume, reset, has_s, has_o, has_p, next_expand, expand_all_consume, expand_all_reset,
}
use redis_graph.Plan.Expand.{expanded, next_expand-expanded}
use redis_graph.Plan.Streams.Slots.{set_if-twice, set_if-undone, set_if-own}
use redis_graph.Plan.Streams.{Serving, hands, asks, ends}
use redis_graph.Plan.Streams.Select.{world_of, ops}
use redis_graph.Plan.Streams.Matches.{
  running, sought, with_match, each_match, matches, matching, IsOpen, start_lem,
}

deref-some {ℓ} : {A : Type ℓ} (x : Option A) {a : A} → deref x ≡ ok a → x ≡ some a
deref-some none h = ground arith
deref-some (some b) h = ap some (ok-injective h)

module _ (m : Machine) (libs : Libs) (h : Heap) (reg : Registry) (q : Query) where
  module _ (op : ExpandAll libs) (k : TripletKind) (c : ℕ) where
    abbrev bare : ExpandAll libs
    bare = record op { changes = c }

    -- The graph g with the entities a, e, b in the slots.
    abbrev over : Graph → ℕ → ℕ → ℕ → Graph
    over g a e b = expanded libs g bare a e b

    over-over : (g : Graph) (a e b a' e' b' : ℕ) → over (over g a e b) a' e' b' ≡ over g a' e' b'
    over-over g a e b a' e' b' =
        ap₂ (λ ns es. record g { nodes = ns; edges = es })
          (set_if-twice (has_s c) (has_o c) g.nodes op.src_node op.dest_node a b a' b')
          (set_if-twice (has_p c) false g.edges op.relation op.relation e e e' e')

    over-own : (g : Graph) (o : IsOpen libs h op k c g) → over g o.src o.edge o.dest ≡ g
    over-own g o =
        ap₂ (λ ns es. record g { nodes = ns; edges = es })
          (set_if-own (has_s c) (has_o c) g.nodes op.src_node op.dest_node o.src o.dest o.src_at
            o.dest_at)
          (set_if-own (has_p c) false g.edges op.relation op.relation o.edge o.edge o.edge_at
            o.edge_at)

    reset_over :
        (g : Graph) (o : IsOpen libs h op k c g) (a e b : ℕ) (t : Triplet) (text : Text)
        (ms : List (Text × Triplet))
        → expand_all_reset libs (over g a e b) (running op t text ms expand_all_consuming c)
          ≡ (op_ok, g, running op t [] ms expand_all_resetted c)
    unfolding expand_all_reset
    reset_over g o a e b t text ms =
        ap₂
          (λ ns es.
            (op_ok, record g { nodes = ns; edges = es }, running op t [] ms expand_all_resetted c))
          (set_if-undone (has_s c) (has_o c) g.nodes op.src_node op.dest_node op.original_src
            op.original_dest a b (λ s. o.src_at ∙ ap some (o.old_src s))
            (λ s. o.dest_at ∙ ap some (o.old_dest s)))
          (set_if-undone (has_p c) false g.edges op.relation op.relation op.original_relation e e e
            (λ s. o.edge_at ∙ ap some (o.old_edge s)) (λ s. cc))

    -- What the operation does next is what the expansion does at the graph v with the entries ms.
    abbrev Goes : Operation libs → Graph → Triplet → Text → List (Text × Triplet) → Type 0
    Goes o v t text ms =
        (γ : libs.groups.Map)
        → (ops m libs h reg q).consume (world_of libs γ v) o ≡ (
            next_expand libs v (running op t text ms expand_all_consuming c) >>= λ r.
            ok (r.0, world_of libs γ r.1, expand_all r.2))

    Goes-running :
        (v : Graph) (t : Triplet) (text : Text) (ms : List (Text × Triplet))
        → Goes (expand_all (running op t text ms expand_all_consuming c)) v t text ms
    unfolding consume expand_all_consume
    Goes-running v t text ms γ = refl

    with_match-over :
        (g w : Graph) (t : Triplet)
        → with_match libs h op k c g t ≡ ok w
        → (a : ℕ) × (e : ℕ) × (b : ℕ) × (t.subject ≡ some a)
          × (t.predicate ≡ some e)
          × (t.object ≡ some b)
          × (over g a e b ≡ w)
    with_match-over g w t found =
        let (a, ha, f1) = bind-ok (deref t.subject) _ found in
        let (e, he, f2) = bind-ok (deref t.predicate) _ f1 in
        let (b, hb, f3) = bind-ok (deref t.object) _ f2 in
        (
          a,
          e,
          b,
          deref-some t.subject ha,
          deref-some t.predicate he,
          deref-some t.object hb,
          ok-injective f3,
        )

    -- One entry: the graph is handed out whatever was written before.
    hand_one :
        (g v w : Graph) (a e b : ℕ) (o : Operation libs) (t t1 : Triplet) (text key : Text)
        (ms : List (Text × Triplet))
        → v ≡ over g a e b
        → Goes o v t text ((key, t1) ∷ ms)
        → with_match libs h op k c g t1 ≡ ok w
        → (a' : ℕ) × (e' : ℕ) × (b' : ℕ) × (w ≡ over g a' e' b')
          × ((γ : libs.groups.Map)
              → (ops m libs h reg q).consume (world_of libs γ v) o
                ≡ ok (
                  op_ok,
                  world_of libs γ w,
                  expand_all (running op t text ms expand_all_consuming c),
                ))
    hand_one g v w a e b o t t1 text key ms at goes found =
        let (a', e', b', hs, hp, ho, made) = with_match-over g w t1 found in
        let start = running op t text [] expand_all_consuming c in
        let same : over v a' e' b' ≡ w = rw at (over-over g a e b a' e' b' ∙ made) in
        (
          a',
          e',
          b',
          sym made,
          λ γ.
              goes γ
              ∙ ap (λ x. x >>= λ r. ok (r.0, world_of libs γ r.1, expand_all r.2))
                  (next_expand-expanded libs v start key t1 ms a' e' b' hs hp ho)
              ∙ ap
                  (λ x. ok (
                    op_ok,
                    world_of libs γ x,
                    expand_all (running op t text ms expand_all_consuming c),
                  ))
                  same,
        )

    -- The entries one by one, before what the operation then does.
    hand_all :
        (ms : List (Text × Triplet)) (ws rest gs : List Graph) (g v : Graph) (a e b : ℕ)
        (o : Operation libs) (t : Triplet) (text : Text)
        → v ≡ over g a e b
        → Goes o v t text ms
        → each_match libs h op k c g ms ≡ ok ws
        → ((a e b : ℕ) (o : Operation libs)
            → Goes o (over g a e b) t text []
            → Serving (ops m libs h reg q) (world_of libs) o (over g a e b) g gs rest)
        → Serving (ops m libs h reg q) (world_of libs) o v g gs (ws ++ rest)
    hand_all [] ws rest gs g v a e b o t text at goes e1 after =
        rw (← ok-injective e1, at) (after a e b o (rw at at goes))
    hand_all ((key, t1) ∷ ms) ws rest gs g v a e b o t text at goes e1 after =
        let (w, found, e2) = bind-ok (with_match libs h op k c g t1) _ e1 in
        let (ws', more, e3) = bind-ok (each_match libs h op k c g ms) _ e2 in
        let (a', e', b', made, gives) = hand_one g v w a e b o t t1 text key ms at goes found in
        rw (← ok-injective e3) (
          hands (expand_all (running op t text ms expand_all_consuming c)) gives (
            hand_all ms ws' rest gs g w a' e' b'
              (expand_all (running op t text ms expand_all_consuming c)) t text made
              (Goes-running w t text ms) more after))

    -- After a reset, the entries are those of the text of the new triplet.
    Goes-resetted :
        (g : Graph) (o : IsOpen libs h op k c g) (t : Triplet) (text text' : Text)
        (ms : List (Text × Triplet)) (ch : ℕ)
        → (t.kind ≡ unknow) ⊎ (t.kind ≡ k)
        → (ch ≡ 0) ⊎ (ch ≡ c)
        → to_string h (sought o.src o.edge o.dest k) ≡ ok text'
        → Goes
            (expand_all (running op t text ms expand_all_resetted ch))
            g
            (sought o.src o.edge o.dest k)
            text'
            (libs.triplets.entries op.hexastore text')
    unfolding consume expand_all_consume
    Goes-resetted g o t text text' ms ch kinds changes shown γ =
        rw (start_lem libs h op k c g o t text text' ms ch kinds changes shown) refl

    -- The entries that the hexastore has for a graph.
    entries_at :
        (g : Graph) (o : IsOpen libs h op k c g) (ws : List Graph)
        → matches libs h op k c g ≡ ok ws
        → (text : Text) × (to_string h (sought o.src o.edge o.dest k) ≡ ok text)
          × (each_match libs h op k c g (libs.triplets.entries op.hexastore text) ≡ ok ws)
    entries_at g o ws found =
        bind-ok (to_string h (sought o.src o.edge o.dest k)) _
          (rw (o.src_at, o.edge_at, o.dest_at) at found)

    -- An expansion that asks, for whatever reason.
    next_lem :
        (gs rest : List Graph) (o o' : Operation libs) (v v' b : Graph) (t : Triplet) (text : Text)
        (ms : List (Text × Triplet)) (ch : ℕ)
        → ((γ : libs.groups.Map)
            → (ops m libs h reg q).consume (world_of libs γ v) o
              ≡ ok (op_refresh, world_of libs γ v', o'))
        → ((γ : libs.groups.Map)
            → (ops m libs h reg q).reset (world_of libs γ v') o'
              ≡ ok (
                op_ok,
                world_of libs γ b,
                expand_all (running op t text ms expand_all_resetted ch),
              ))
        → (t.kind ≡ unknow) ⊎ (t.kind ≡ k)
        → (ch ≡ 0) ⊎ (ch ≡ c)
        → All (IsOpen libs h op k c) gs
        → matching libs h op k c gs ≡ ok rest
        → Serving (ops m libs h reg q) (world_of libs) o v b gs rest
    unfolding reset next_expand
    next_lem [] rest o o' v v' b t text ms ch does undoes kinds changes opens found =
        rw (← ok-injective found)
          (ends o' (expand_all (running op t text ms expand_all_resetted ch)) v' does undoes)
    next_lem (g ∷ gs) rest o o' v v' b t text ms ch does undoes kinds changes (open_g, opens)
          found =
        let (ws, at_g, e1) = bind-ok (matches libs h op k c g) _ found in
        let (rest', more, e2) = bind-ok (matching libs h op k c gs) _ e1 in
        let (text', shown, each) = entries_at g open_g ws at_g in
        let t' = sought open_g.src open_g.edge open_g.dest k in
        rw (← ok-injective e2) (
          asks o' (expand_all (running op t text ms expand_all_resetted ch)) v' does undoes (
            hand_all (libs.triplets.entries op.hexastore text') ws rest' gs g g open_g.src
              open_g.edge open_g.dest (expand_all (running op t text ms expand_all_resetted ch)) t'
              text' (sym (over-own g open_g))
              (Goes-resetted g open_g t text text' ms ch kinds changes shown) each
              (λ a e b o2 goes.
                next_lem gs rest' o2 (expand_all (running op t' text' [] expand_all_consuming c))
                  (over g a e b) (over g a e b) g t' [] [] c goes
                  (λ γ.
                    ap (λ r. ok (r.0, world_of libs γ r.1, expand_all r.2))
                      (reset_over g open_g a e b t' text' []))
                  (inr refl) (inr refl) opens more)))

    -- An expansion as it is made, with cleared memory, gives the matches of each graph of its
    -- stream, in order.
    pub expand-Serving :
        (gs ws : List Graph) (g : Graph)
        → op.state ≡ expand_all_uninitialized
        → op.changes ≡ 0
        → op.triplet.kind ≡ unknow
        → All (IsOpen libs h op k c) gs
        → matching libs h op k c gs ≡ ok ws
        → Serving (ops m libs h reg q) (world_of libs) (expand_all op) g g gs ws
    unfolding consume reset expand_all_consume expand_all_reset
    expand-Serving gs ws g new clear kinds opens found =
        next_lem gs ws (expand_all op) (expand_all op) g g g op.triplet [] op.iter op.changes
          (λ γ. rw new refl) (λ γ. rw clear refl) (inl kinds) (inl clear) opens found
