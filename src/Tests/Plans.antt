-- ===== src/Tests/Plans.antt =====
-- The execution plans: the theorems on the two people, and whole queries.
use redis_graph.Base.{
  ℕ, Text, codes, [], ◌∷◌, List, ok, false, none, some, refl, ◌≡◌, Run, pos, negsuc, ◌>>=◌, ◌++◌,
  arith, print_nat,
}
use redis_graph.Value.{double_val, clone}
use redis_graph.Trie.Assoc.{assoc}
use redis_graph.Graph.{
  Heap, add_node, find_by_alias, get_entity_by_alias, get_node_by_alias, get_property,
  n_degree_nodes, node_alias, node_ref,
}
use redis_graph.Hexastore.{Triplet}
use redis_graph.Grouping.{Group}
use redis_graph.Query.{
  AstEntity, Query, ReturnElement, n_prop, n_entity, left_to_right, contains_aggregation,
  contains_collapsed_nodes, new_node_entity, element_value, retrieve_prop_values, retrieve_values,
}
use redis_graph.Filter.{AstFilter, gt}
use redis_graph.Store.{store, put, get_store, store_id, store_node}
use redis_graph.Plan.Operations.{Libs, Keys, op_modifies, op_name}
use redis_graph.Commands.Ask.{Session, Answer, array, text, mgraph_query, mgraph_explain}
use redis_graph.Graph.{Graph, Node, new_node}
use redis_graph.Filter.{null}
use redis_graph.Filter.Single.{IsAbout}
use redis_graph.Filter.Split.{IsCloneable}
use redis_graph.Filter.Build.{build_filters_tree}
use redis_graph.ResultSet.{new_result_set}
use redis_graph.Plan.Start.{new_execution_plan, run_execution_plan}
use redis_graph.Plan.Pipeline.{Setting, one_node_plan, results_of, with_groups}
use redis_graph.Plan.Pipeline.Executed.{run_execution_plan-one_node_plan}
use redis_graph.Plan.Pipeline.Planned.{run_execution_plan-new_execution_plan}
use redis_graph.Filter.Prune.{contains_node, min_filter_tree, remove_pred_nodes}
use redis_graph.Plan.Consume.{consume, reset}
use redis_graph.Value.Compare.{cmp_generic}
use redis_graph.Value.Print.{string_concat}
use redis_graph.Tests.{machine, ann, bob, knows, any_knows}
use redis_graph.Tests.Results.{stack}

abbrev pub libs : Libs
libs = record {
  nodes = assoc ℕ;
  triplets = assoc Triplet;
  groups = assoc Group;
  seen = assoc (Unit {0});
  heaps = stack;
}

abbrev pub people : List (Text × ℕ)
people = (codes "7", 0) ∷ (codes "71", 1) ∷ []

abbrev pub keys : Keys libs
keys =
    put (assoc ℕ) (assoc Triplet)
      (put (assoc ℕ) (assoc Triplet) (λ k. none) (codes "redis_graph_store_g_NODE_ALL")
        (some (store people)))
      (codes "redis_graph_store_g_NODE_person") (some (store people))

abbrev pub aged : Heap
aged = record {
  nodes =
      ann
      ∷ record bob {
        entity = record {
          id = pos 71;
          properties = record { name = codes "age"; value = double_val 20 } ∷ [];
        };
      }
      ∷ [];
  edges = knows ∷ any_knows ∷ [];
}

abbrev session : Session libs
session = record { heap = aged; keys = keys; groups = [] }

abbrev pub age_of_a : ReturnElement
age_of_a = record {
  var_alias = some (codes "a");
  var_property = some (codes "age");
  func = none;
  alias = none;
  type = n_prop;
}

abbrev pub entity_a : AstEntity
entity_a = record {
  alias = some (codes "a");
  label = some (codes "person");
  properties = none;
  type = n_entity;
  direction = left_to_right;
}

abbrev pub older_people : Query
older_people = record {
  entities = entity_a ∷ [];
  where_filters = some (AstFilter.constant (codes "a") (codes "age") gt (double_val 30));
  returns = record { elements = age_of_a ∷ []; distinct = false };
  order = none;
  limit = none;
}

answered : Run (Answer × Session libs) → Run Answer
answered r = r >>= λ a. ok a.0

argv : List Text
argv = codes "GRAPH.QUERY" ∷ codes "g" ∷ codes "q" ∷ []

query_answers :
    answered
      (mgraph_query machine libs (λ t. some older_people) (λ t. []) 8 (λ n. 0) [] session argv)
    ≡ ok (array (record { announced = 3; lines = codes "a.age" ∷ codes "33" ∷ [] }))
unfolding mgraph_query argv answered contains_collapsed_nodes n_degree_nodes add_node new_node
    node_ref contains_aggregation contains_node double_val op_modifies node_alias min_filter_tree
    remove_pred_nodes consume reset get_entity_by_alias get_node_by_alias find_by_alias cmp_generic
    get_property retrieve_prop_values retrieve_values element_value string_concat print_nat
query_answers = refl

explain_answers :
    answered
      (mgraph_explain machine libs (λ t. some older_people) (λ t. []) 8 (λ n. 0) session argv)
    ≡ ok (text (codes "Produce Results\n    Filter\n        Node By Label Scan\n"))
unfolding mgraph_explain argv answered n_degree_nodes add_node new_node node_ref
    contains_aggregation contains_node double_val op_modifies node_alias min_filter_tree
    remove_pred_nodes op_name
explain_answers = refl

-- The query's node, behind the two people.
abbrev place : Node
place = new_node (negsuc 0) (some (codes "person"))

abbrev setting : Setting
setting = record {
  machine = machine;
  libs = libs;
  heap = record aged { nodes = aged.nodes ++ place ∷ [] };
  registry = [];
  query = older_people;
  slot = 0;
  original = 2;
  store = people;
  aliases = some (codes "a") ∷ [];
  tree = build_filters_tree (AstFilter.constant (codes "a") (codes "age") gt (double_val 30));
  groups = [];
}

abbrev pattern_graph : Graph
pattern_graph = record {
  nodes = 2 ∷ [];
  edges = [];
  node_aliases = some (codes "a") ∷ [];
  edge_aliases = [];
}

run_execution_plan-one_node_plan_example :
    run_execution_plan machine libs 6 [] older_people
      (one_node_plan setting people pattern_graph null keys)
      []
    ≡ (new_result_set machine stack (assoc (Unit {0})) older_people >>= λ set.
        with_groups setting (results_of setting pattern_graph people set))
run_execution_plan-one_node_plan_example =
    run_execution_plan-one_node_plan setting 6 people pattern_graph null keys (omega arith)

-- That the planner makes this plan.
plans_chain :
    (new_execution_plan machine libs 6 (λ n. 0) aged keys (codes "g") older_people >>= λ p.
    ok p.draft.nodes)
    ≡ ok (one_node_plan setting people pattern_graph null keys).draft.nodes
unfolding new_execution_plan n_degree_nodes add_node new_node node_ref contains_aggregation
    contains_node double_val op_modifies node_alias min_filter_tree remove_pred_nodes
plans_chain = refl

abbrev pub older_filter : AstFilter
older_filter = AstFilter.constant (codes "a") (codes "age") gt (double_val 30)

older_IsCloneable : IsCloneable machine (build_filters_tree older_filter)
unfolding double_val build_filters_tree clone
older_IsCloneable = (refl, refl)

older_IsAbout : IsAbout (codes "a") (build_filters_tree older_filter)
unfolding double_val build_filters_tree
older_IsAbout = refl

no_aggregation : contains_aggregation older_people.returns ≡ false
unfolding contains_aggregation
no_aggregation = refl

older_where : older_people.where_filters ≡ some older_filter
older_where = refl

older_entities :
    older_people.entities ≡ new_node_entity (some (codes "a")) (some (codes "person")) none ∷ []
unfolding new_node_entity
older_entities = refl

person_store :
    get_store
      (assoc ℕ)
      (assoc Triplet)
      keys
      (store_id store_node (codes "g") (some (codes "person")))
    ≡ ok (people, keys)
unfolding get_store store_id
person_store = refl

run_execution_plan-new_execution_plan_example :
    (new_execution_plan machine libs 6 (λ n. 0) aged keys (codes "g") older_people >>= λ plan.
    run_execution_plan machine libs 6 [] older_people plan [])
    ≡ (new_result_set machine stack (assoc (Unit {0})) older_people >>= λ set.
        with_groups setting (results_of setting pattern_graph people set))
run_execution_plan-new_execution_plan_example =
    run_execution_plan-new_execution_plan machine libs aged [] older_people [] (codes "a")
      (codes "person") people 6 (λ n. 0) (codes "g") keys keys older_filter (omega arith)
      older_entities older_where no_aggregation person_store older_IsCloneable older_IsAbout
