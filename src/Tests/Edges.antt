-- ===== src/Tests/Edges.antt =====
-- An expansion along what one person knows of the other: the theorems on the edges that it finds,
-- and on a plan that ends in it.
use redis_graph.Base.{
  codes, [], ◌∷◌, List, ok, none, some, refl, ◌≡◌, negsuc, arith, inl, inr, ◌↔◌, pos, Bool-cases,
  text_eq, text_eq→≡, some-injective, print_int,
}
use redis_graph.Value.{double_val}
use redis_graph.Trie.Assoc.{assoc}
use redis_graph.Graph.{Node, Graph, new_node, new_edge}
use redis_graph.Hexastore.{Triplet, Parts, key_parts, sp}
use redis_graph.Plan.Streams.Select.{world_of, ops}
use redis_graph.Plan.Operations.{expand_all}
use redis_graph.Tests.{machine, ann, bob, knows}
use redis_graph.Hexastore.Search.{Refers, IsPlain}
use redis_graph.Hexastore.Edges.{IsEdge, IsHexastore, IsStored}
use redis_graph.Plan.Streams.{Serving}
use redis_graph.Plan.Streams.Matches.{sought, with_match}
use redis_graph.Plan.Streams.Edges.{expand_all-IsStored}
use mathlib.Core.List.{Memᴰ}
use redis_graph.Tests.Plans.{libs, keys}
use redis_graph.Base.{Text, ℕ, map, ◌>>=◌}
use redis_graph.Graph.{Edge}
use redis_graph.Filter.{null}
use redis_graph.ResultSet.{new_result_set}
use redis_graph.Plan.{stream_uninitialized}
use redis_graph.Plan.Operations.{produce_results, new_produce_results, node_by_label_scan}
use redis_graph.Plan.Start.{ExecutionPlan, run_execution_plan}
use redis_graph.Plan.Streams.Root.{collect}
use redis_graph.Plan.Streams.Chains.{Chain, plain, label_scan, expanded}
use redis_graph.Plan.Streams.Hop.{IsPattern, HasId, Found}
use redis_graph.Plan.Streams.Executed.{IsPlanOf, run_execution_plan-IsPattern}
use mathlib.Core.List.Memᴰ
use mathlib.Core.Logic.{⊎_elim}
use redis_graph.Tests.Chains.{
  stored, hop, scan, node_of, hop_graph, expansion, hop_heap, ann_first, hop_open,
}

sought-Refers :
    Refers hop_heap
      (sought 0 2 3 sp)
      ann
      (new_edge (negsuc 0) 2 3 (some (codes "knows")))
      (record (new_node (negsuc 0) none) { incoming = 2 ∷ [] })
sought-Refers = record {
  subject = 0;
  predicate = 2;
  object = 3;
  subject_is = refl;
  predicate_is = refl;
  object_is = refl;
  subject_node = refl;
  predicate_edge = refl;
  object_node = refl;
}

knows-IsPlain : IsPlain (codes "knows")
knows-IsPlain = record { short = omega arith; no_at = refl }

abbrev aged_bob : Node
aged_bob = record bob {
  entity = record {
    id = pos 71;
    properties = record { name = codes "age"; value = double_val 20 } ∷ [];
  };
}

abbrev stored_edge : IsEdge hop_heap stored ann (codes "knows")
stored_edge = record {
  edge = knows;
  object = aged_bob;
  refers = record {
    subject = 0;
    predicate = 0;
    object = 1;
    subject_is = refl;
    predicate_is = refl;
    object_is = refl;
    subject_node = refl;
    predicate_edge = refl;
    object_node = refl;
  };
  named = refl;
  long_subject = omega arith;
  long_edge = omega arith;
  plain = knows-IsPlain;
}

abbrev stored_parts : Parts
stored_parts = record { subject = codes "7"; predicate = codes "knows@5"; object = codes "71" }

stored_keyed : key_parts hop_heap stored ≡ ok stored_parts
unfolding key_parts print_int
stored_keyed = refl

hop-IsHexastore : IsHexastore (assoc Triplet) hop_heap expansion.hexastore
hop-IsHexastore j t found = elim (Bool-cases (text_eq (codes "SPO:7:knows@5:71") j)) [
  | inl same ↦
      let ours : stored ≡ t = some-injective (rw same at found) in
      rw (← ours) (record {
        subject = ann;
        relationship = codes "knows";
        parts = stored_parts;
        edge = stored_edge;
        keyed = stored_keyed;
        under = rw (← text_eq→≡ (codes "SPO:7:knows@5:71") j same) refl;
      })
  | inr other ↦ absurd (ground (arith, (rw other at found)))
]

expand_all-IsStored_example :
    (ws : List Graph) × Serving
      (ops machine libs hop_heap [] hop)
      (world_of libs)
      (expand_all expansion)
      ann_first
      ann_first
      (ann_first ∷ [])
      ws
    × ((w : Graph)
        → Memᴰ w ws ↔ (
            (t : Triplet) × (n : Node) × IsEdge hop_heap t n (codes "knows")
            × (n.entity.id ≡ ann.entity.id)
            × IsStored (assoc Triplet) hop_heap expansion.hexastore t
            × (with_match libs hop_heap expansion sp 3 ann_first t ≡ ok w)))
unfolding hop_open
expand_all-IsStored_example =
    expand_all-IsStored machine libs hop_heap [] hop expansion 3 ann_first hop_open ann
      (record (new_node (negsuc 0) none) { incoming = 2 ∷ [] })
      (new_edge (negsuc 0) 2 3 (some (codes "knows"))) (codes "knows") refl refl refl sought-Refers
      refl refl knows-IsPlain hop-IsHexastore

-- The plan of MATCH (a:person)-[e:knows]->(b) RETURN b.age.
abbrev bare_chain : Chain libs
bare_chain =
    expanded 1 (0 ∷ []) stream_uninitialized expansion sp 3
      (label_scan 2 (1 ∷ []) stream_uninitialized scan)

abbrev bare_plan : ExecutionPlan libs
bare_plan = record {
  root = 0;
  heap = hop_heap;
  graph = hop_graph;
  filter_tree = null;
  draft = record {
    nodes =
        node_of (produce_results (new_produce_results libs)) (1 ∷ []) []
        ∷ node_of (expand_all expansion) (2 ∷ []) (0 ∷ [])
        ∷ node_of (node_by_label_scan scan) [] (1 ∷ [])
        ∷ [];
    keys = keys;
  };
}

bare_plan-IsPlanOf : IsPlanOf bare_plan (plain bare_chain)
bare_plan-IsPlanOf = record {
  parents = [];
  state = stream_uninitialized;
  new = ((λ e. omega arith), refl, refl, refl, tt);
  apart = λ h. elim h [ inl e ↦ omega arith | inr e ↦ omega arith ];
  laid_out = λ j h. elim h [
    | inl h' ↦ elim h' [ inl e ↦ rw e refl | inr e ↦ rw e refl ]
    | inr e ↦ rw e refl
  ];
}

abbrev any_one : Node
any_one = record (new_node (negsuc 0) none) { incoming = 2 ∷ [] }

abbrev any_link : Edge
any_link = new_edge (negsuc 0) 2 3 (some (codes "knows"))

hop-IsPattern : IsPattern libs hop_heap expansion hop_graph any_link any_one (codes "knows")
unfolding new_node new_edge
hop-IsPattern = record {
  src = 2;
  src_at = refl;
  edge_at = refl;
  dest_at = refl;
  apart = λ e. omega arith;
  edge_is = refl;
  dest_is = refl;
  named = refl;
  new_edge = refl;
  new_dest = refl;
  plain = knows-IsPlain;
}

people-HasId :
    (e : Text × ℕ)
    → Memᴰ e scan.iter
    → HasId libs hop_heap expansion hop_graph any_link any_one (codes "knows") hop-IsPattern e
people-HasId e i =
    ⊎_elim (λ first. (ann, rw first refl, refl))
      (λ later.
        ⊎_elim (λ second. (aged_bob, rw second refl, refl))
          (λ none_left. absurd (Memᴰ.not-nil none_left)) (Memᴰ.cases_cons later))
      (Memᴰ.cases_cons i)

run_execution_plan-IsPattern_example :
    (fuel : ℕ) × (gs : List Graph) × (run_execution_plan machine libs fuel [] hop bare_plan [] ≡ (
      new_result_set machine libs.heaps libs.seen hop >>= λ held.
      collect machine libs hop_heap [] hop held [] (map (world_of libs []) gs)))
    × ((w : Graph)
        → Memᴰ w gs ↔ (
            (e : Text × ℕ) × Memᴰ e scan.iter
            × Found libs hop_heap expansion hop_graph any_link any_one
                (codes "knows")
                hop-IsPattern
                e
                w))
run_execution_plan-IsPattern_example =
    run_execution_plan-IsPattern machine libs [] hop bare_plan scan expansion 1 2 (0 ∷ []) (1 ∷ [])
      stream_uninitialized stream_uninitialized [] any_link any_one (codes "knows") hop-IsPattern
      bare_plan-IsPlanOf refl hop-IsHexastore people-HasId
