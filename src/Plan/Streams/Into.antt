-- ===== src/Plan/Streams/Into.antt =====
-- src/execution_plan/ops/op_expand_into.c: which edges an ExpandInto takes.
use redis_graph.Base.{
  ℕ, true, ◌||◌, Bool-cases, List, [], ◌∷◌, Option, none, some, Run, ok, ◌>>=◌, bind-ok,
  ok-injective, get_elem?, inl, inr, Text, ◌≡◌, refl, sym, ap, ◌∙◌, arith, deref, set,
}
use redis_graph.Graph.{Heap, Graph}
use redis_graph.Hexastore.{id_text, Triplet, so, to_string, string_of_kind}
use redis_graph.Plan.{OpResult, op_ok, op_refresh}
use redis_graph.Plan.Operations.{Libs, ExpandInto, node_in}
use redis_graph.Plan.Consume.{
  expand_into_consume, search_between, node_is_new, write_edge, set_edge,
}
use redis_graph.Plan.TreeLaws.{get_elem?-set}
use redis_graph.Plan.Streams.Slots.{set-twice}

abbrev between : ℕ → ℕ → ℕ → Triplet
between e a b = record { subject = some a; predicate = some e; object = some b; kind = so }

module _ (libs : Libs) (h : Heap) (op : ExpandInto libs) (g : Graph) (e d d' : ℕ)
    (there : get_elem? g.edges op.relation ≡ some e) where
  -- The graph with an edge in the slot of the relation.
  abbrev with_edge : ℕ → Graph
  with_edge x = set_edge g op.relation x

  write_edge-same :
      (t : Option ℕ)
      → write_edge libs true (with_edge d) op.relation t
        ≡ write_edge libs true (with_edge d') op.relation t
  unfolding write_edge
  write_edge-same none = refl
  write_edge-same (some x) =
      ap (λ es. ok (record g { edges = es }))
        (set-twice g.edges op.relation d x ∙ sym (set-twice g.edges op.relation d' x))

  -- What is done with the entries of the search.
  abbrev chosen : Graph → Text → List (Text × Triplet) → Run (OpResult × Graph × ExpandInto libs)
  chosen v str entries = elim entries [
    | [] ↦ ok (op_refresh, v, record op { str_triplet = str; iter = [] })
    | entry ∷ more ↦ (do
      g' ← write_edge libs true v op.relation entry.1.predicate
      ok (op_ok, g', record op { str_triplet = str; iter = more; refresh_after_pass = true }))
  ]

  chosen-same :
      (str : Text) (entries : List (Text × Triplet)) (g' : Graph) (op' : ExpandInto libs)
      → chosen (with_edge d) str entries ≡ ok (op_ok, g', op')
      → chosen (with_edge d') str entries ≡ ok (op_ok, g', op')
  chosen-same str [] g' op' found = absurd (ground (arith, ap (λ r. r.0) (ok-injective found)))
  chosen-same str (entry ∷ more) g' op' found = rw (write_edge-same entry.1.predicate) at found

  search_between-same :
      (a b : ℕ) (g' : Graph) (op' : ExpandInto libs)
      → search_between libs h (with_edge d) op a b ≡ ok (op_ok, g', op')
      → search_between libs h (with_edge d') op a b ≡ ok (op_ok, g', op')
  unfolding search_between to_string string_of_kind id_text
  search_between-same a b g' op' found =
      let (e1, e1_is, h1) =
        bind-ok (deref (get_elem? (set g.edges op.relation d) op.relation)) _ found in
      let (str, str_is, h2) = bind-ok (to_string h (between e1 a b)) _ h1 in
      rw (ap deref (get_elem?-set g.edges op.relation e d' there), str_is)
        (chosen-same str (libs.triplets.entries op.hexastore str) g' op' h2)

  -- If ExpandInto hands out a graph, it hands out the same graph whatever edge the pattern has in the
  -- slot of the relation: the search does not read which relationship it asks for.
  pub expand_into_any_relationship :
      (g' : Graph) (op' : ExpandInto libs)
      → expand_into_consume libs h (with_edge d) op ≡ ok (op_ok, g', op')
      → expand_into_consume libs h (with_edge d') op ≡ ok (op_ok, g', op')
  unfolding expand_into_consume
  expand_into_any_relationship g' op' found =
      let (a, src, h1) = bind-ok (node_in g op.src_node) _ found in
      let (b, dest, h2) = bind-ok (node_in g op.dest_node) _ h1 in
      let (s, s_is, h3) = bind-ok (node_is_new libs h a) _ h2 in
      let (o, o_is, h4) = bind-ok (node_is_new libs h b) _ h3 in
      elim (Bool-cases (s || o)) [
        | inl new ↦ absurd (ground (arith, ap (λ r. r.0) (ok-injective (rw new at h4))))
        | inr known ↦ elim (Bool-cases op.refresh_after_pass) [
          | inl due ↦ absurd (ground (arith, ap (λ r. r.0) (ok-injective (rw (known, due) at h4))))
          | inr not_due ↦
              rw (src, dest, s_is, o_is, known, not_due)
                (search_between-same a b g' op' (rw (known, not_due) at h4))
        ]
      ]
