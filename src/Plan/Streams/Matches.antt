-- ===== src/Plan/Streams/Matches.antt =====
-- src/execution_plan/ops/op_expand_all.c: the graphs that an expansion stands for, and its start.
use redis_graph.Base.{
  ℕ, true, List, [], ◌∷◌, ◌++◌, some, Run, ok, ◌>>=◌, deref, Bool-cases, inl, inr, Text, get_elem?,
  ◌≡◌, ◌⊎◌, refl, ap, ◌∙◌, ◌==◌, ==_iff,
}
use redis_graph.Graph.{Heap, Graph}
use redis_graph.Hexastore.{Triplet, TripletKind, unknow, get_kind, to_string}
use redis_graph.Plan.Operations.{
  Libs, ExpandAll, ExpandAllState, expand_all_resetted, expand_all_consuming, node_in, edge_in,
}
use redis_graph.Plan.Consume.{has_s, has_o, has_p, is_unknow, find_kind, find_changes, start_expand}
use redis_graph.Plan.Expand.{expanded}

-- The triplet that is searched for.
abbrev pub sought : ℕ → ℕ → ℕ → TripletKind → Triplet
sought a e b kind = record { subject = some a; predicate = some e; object = some b; kind = kind }

module _ {libs : Libs} (op : ExpandAll libs) where
  -- The operation with these variables.
  abbrev pub running : Triplet → Text → List (Text × Triplet) → ExpandAllState → ℕ → ExpandAll libs
  running t text ms st ch = record op {
    triplet = t;
    changes = ch;
    str_triplet = text;
    iter = ms;
    state = st;
  }

-- The expansion `op`, searching by triplets of the kind k and writing the slots of the bits c.
module _ (libs : Libs) (h : Heap) (op : ExpandAll libs) (k : TripletKind) (c : ℕ) where
  -- The graph with the entities of a triplet in the slots.
  abbrev pub with_match : Graph → Triplet → Run Graph
  with_match g t = deref t.subject >>= λ a. deref t.predicate >>= λ e.
      deref t.object >>= λ b. ok (expanded libs g (record op { changes = c }) a e b)

  abbrev pub each_match : Graph → List (Text × Triplet) → Run (List Graph)
  each_match g [] = ok []
  each_match g (entry ∷ more) =
      with_match g entry.1 >>= λ w. each_match g more >>= λ ws. ok (w ∷ ws)

  -- The graphs that the hexastore makes of a graph: the entries that begin with the text of the
  -- triplet in the slots.
  abbrev pub matches : Graph → Run (List Graph)
  matches g = node_in g op.src_node >>= λ a. edge_in g op.relation >>= λ e.
      node_in g op.dest_node >>= λ b.
      to_string h (record { subject = some a; predicate = some e; object = some b; kind = k })
      >>= λ text. each_match g (libs.triplets.entries op.hexastore text)

  abbrev pub matching : List Graph → Run (List Graph)
  matching [] = ok []
  matching (g ∷ gs) = matches g >>= λ ws. matching gs >>= λ rest. ok (ws ++ rest)

  -- In the slots that will be written there are the entities of the pattern, and the triplet has
  -- this kind and these bits.
  pub record IsOpen (g : Graph) : Type 0 where
    pub src : ℕ
    pub edge : ℕ
    pub dest : ℕ
    pub src_at : get_elem? g.nodes op.src_node ≡ some src
    pub edge_at : get_elem? g.edges op.relation ≡ some edge
    pub dest_at : get_elem? g.nodes op.dest_node ≡ some dest
    pub kind :
        get_kind h
          (record { subject = some src; predicate = some edge; object = some dest; kind = unknow })
        ≡ ok k
    pub bits : find_changes libs h 0 src edge dest ≡ ok c
    pub old_src : has_s c ≡ true → src ≡ op.original_src
    pub old_edge : has_p c ≡ true → edge ≡ op.original_relation
    pub old_dest : has_o c ≡ true → dest ≡ op.original_dest

  kind_lem :
      (t : Triplet) (k' : TripletKind)
      → (k' ≡ unknow) ⊎ (k' ≡ k)
      → get_kind h (record t { kind = unknow }) ≡ ok k
      → find_kind libs h (record t { kind = k' }) ≡ ok k
  unfolding find_kind get_kind
  kind_lem t k' (inl e) found = rw e found
  kind_lem t k' (inr e) found =
      rw e (elim (Bool-cases (is_unknow k)) [ inl new ↦ rw new found | inr old ↦ rw old refl ])

  bits_lem :
      (a e b ch : ℕ)
      → (ch ≡ 0) ⊎ (ch ≡ c)
      → find_changes libs h 0 a e b ≡ ok c
      → find_changes libs h ch a e b ≡ ok c
  unfolding find_changes
  bits_lem a e b ch (inl new) found = rw new found
  bits_lem a e b ch (inr old) found = rw old (elim (Bool-cases (c == 0)) [
    | inl new ↦ ap (λ x. find_changes libs h x a e b) ((==_iff c 0).0 new) ∙ found
    | inr same ↦ rw same refl
  ])

  pub start_lem :
      (g : Graph) (o : IsOpen g) (t : Triplet) (text text' : Text) (ms : List (Text × Triplet))
      (ch : ℕ)
      → (t.kind ≡ unknow) ⊎ (t.kind ≡ k)
      → (ch ≡ 0) ⊎ (ch ≡ c)
      → to_string h (sought o.src o.edge o.dest k) ≡ ok text'
      → start_expand libs h g (running op t text ms expand_all_resetted ch)
        ≡ ok (
            running op
              (sought o.src o.edge o.dest k)
              text'
              (libs.triplets.entries op.hexastore text')
              expand_all_consuming
              c)
  unfolding start_expand
  start_lem g o t text text' ms ch kinds changes shown =
      let kind_found = kind_lem (sought o.src o.edge o.dest t.kind) t.kind kinds o.kind in
      let bits_found = bits_lem o.src o.edge o.dest ch changes o.bits in
      rw (o.src_at, o.edge_at, o.dest_at, kind_found, bits_found, shown) refl
