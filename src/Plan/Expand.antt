-- ===== src/Plan/Expand.antt =====
-- src/execution_plan/ops/op_expand_all.c: what an expansion does to the graph.
use redis_graph.Base.{
  ℕ, zero, suc, Bool, true, false, some, ok, Text, List, [], ◌∷◌, get_elem?, set, ◌≡◌, refl, ap,
  ap₂, sym, some-injective,
}
use redis_graph.Graph.{Graph}
use redis_graph.Hexastore.{Triplet}
use redis_graph.Plan.{op_ok}
use redis_graph.Plan.Operations.{Libs, ExpandAll, expand_all_resetted}
use redis_graph.Plan.Consume.{
  set_if, has_s, has_o, has_p, write_node, write_edge, next_expand, expand_all_reset,
}

pub set-again : (xs : List ℕ) (i x a : ℕ) → get_elem? xs i ≡ some x → set (set xs i a) i x ≡ xs
set-again [] i x a h = refl
set-again (y ∷ xs) zero x a h = ap (λ z. z ∷ xs) (sym (some-injective h))
set-again (y ∷ xs) (suc i) x a h = ap (λ zs. y ∷ zs) (set-again xs i x a h)

pub set-back : (xs : List ℕ) (i x : ℕ) → get_elem? xs i ≡ some x → set xs i x ≡ xs
set-back [] i x h = refl
set-back (y ∷ xs) zero x h = ap (λ z. z ∷ xs) (sym (some-injective h))
set-back (y ∷ xs) (suc i) x h = ap (λ zs. y ∷ zs) (set-back xs i x h)

-- Two writes are undone by writing the old values in the same order, also if the slots are one.
pub set-both :
    (xs : List ℕ) (i j x y a b : ℕ)
    → get_elem? xs i ≡ some x
    → get_elem? xs j ≡ some y
    → set (set (set (set xs i a) j b) i x) j y ≡ xs
set-both [] i j x y a b hi hj = refl
set-both (z ∷ xs) zero zero x y a b hi hj = ap (λ w. w ∷ xs) (sym (some-injective hj))
set-both (z ∷ xs) zero (suc j) x y a b hi hj =
    ap₂ (λ w ws. w ∷ ws) (sym (some-injective hi)) (set-again xs j y b hj)
set-both (z ∷ xs) (suc i) zero x y a b hi hj =
    ap₂ (λ w ws. w ∷ ws) (sym (some-injective hj)) (set-again xs i x a hi)
set-both (z ∷ xs) (suc i) (suc j) x y a b hi hj = ap (λ ws. z ∷ ws) (set-both xs i j x y a b hi hj)

set_if-both :
    (s o : Bool) (xs : List ℕ) (i j x y a b : ℕ)
    → get_elem? xs i ≡ some x
    → get_elem? xs j ≡ some y
    → set_if o (set_if s (set_if o (set_if s xs i a) j b) i x) j y ≡ xs
set_if-both true true xs i j x y a b hi hj = set-both xs i j x y a b hi hj
set_if-both true false xs i j x y a b hi hj = set-again xs i x a hi
set_if-both false true xs i j x y a b hi hj = set-again xs j y b hj
set_if-both false false xs i j x y a b hi hj = refl

set_if-again :
    (p : Bool) (xs : List ℕ) (i x a : ℕ)
    → get_elem? xs i ≡ some x
    → set_if p (set_if p xs i a) i x ≡ xs
set_if-again true xs i x a h = set-again xs i x a h
set_if-again false xs i x a h = refl

module _ (libs : Libs) where
  write_node-some :
      (s : Bool) (g : Graph) (slot a : ℕ)
      → write_node libs s g slot (some a) ≡ ok (record g { nodes = set_if s g.nodes slot a })
  unfolding write_node
  write_node-some true g slot a = refl
  write_node-some false g slot a = refl

  write_edge-some :
      (p : Bool) (g : Graph) (slot e : ℕ)
      → write_edge libs p g slot (some e) ≡ ok (record g { edges = set_if p g.edges slot e })
  unfolding write_edge
  write_edge-some true g slot e = refl
  write_edge-some false g slot e = refl

  -- The graph that an expansion makes of a triplet.
  abbrev pub expanded : Graph → ExpandAll libs → ℕ → ℕ → ℕ → Graph
  expanded g op a e b = record g {
    nodes =
        set_if (has_o op.changes) (set_if (has_s op.changes) g.nodes op.src_node a) op.dest_node b;
    edges = set_if (has_p op.changes) g.edges op.relation e;
  }

  pub next_expand-expanded :
      (g : Graph) (op : ExpandAll libs) (key : Text) (t : Triplet) (more : List (Text × Triplet))
      (a e b : ℕ)
      → t.subject ≡ some a
      → t.predicate ≡ some e
      → t.object ≡ some b
      → next_expand libs g (record op { iter = (key, t) ∷ more })
        ≡ ok (op_ok, expanded g op a e b, record op { iter = more })
  unfolding next_expand
  next_expand-expanded g op key t more a e b hs hp ho =
      rw
        (
          hs,
          hp,
          ho,
          write_node-some (has_s op.changes) g op.src_node a,
          write_edge-some (has_p op.changes)
              (record g { nodes = set_if (has_s op.changes) g.nodes op.src_node a }) op.relation e,
          write_node-some (has_o op.changes)
              (record g {
                nodes = set_if (has_s op.changes) g.nodes op.src_node a;
                edges = set_if (has_p op.changes) g.edges op.relation e;
              })
              op.dest_node b,
        )
        refl

  -- An expansion writes the entities of the next triplet into the slots that its bits name, and
  -- resetting it then gives back the graph that it had started from.
  pub expand_all_reset-next_expand :
      (g : Graph) (op : ExpandAll libs) (key : Text) (t : Triplet) (more : List (Text × Triplet))
      (a e b : ℕ)
      → t.subject ≡ some a
      → t.predicate ≡ some e
      → t.object ≡ some b
      → get_elem? g.nodes op.src_node ≡ some op.original_src
      → get_elem? g.nodes op.dest_node ≡ some op.original_dest
      → get_elem? g.edges op.relation ≡ some op.original_relation
      → (next_expand libs g (record op { iter = (key, t) ∷ more })
          ≡ ok (op_ok, expanded g op a e b, record op { iter = more }))
        × (expand_all_reset libs (expanded g op a e b) (record op { iter = more })
            ≡ (op_ok, g, record op { iter = more; str_triplet = []; state = expand_all_resetted }))
  unfolding expand_all_reset
  expand_all_reset-next_expand g op key t more a e b hs hp ho src dest rel = (
    next_expand-expanded g op key t more a e b hs hp ho,
    ap₂
        (λ ns es. (
          op_ok,
          record g { nodes = ns; edges = es },
          record op { iter = more; str_triplet = []; state = expand_all_resetted },
        ))
        (set_if-both (has_s op.changes) (has_o op.changes) g.nodes op.src_node op.dest_node
          op.original_src op.original_dest a b src dest)
        (set_if-again (has_p op.changes) g.edges op.relation op.original_relation e rel),
  )
