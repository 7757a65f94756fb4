-- ===== src/Tests/Operations.antt =====
-- The operations of a plan, the groups and the reply: the theorems at concrete inputs.
use redis_graph.Base.{
  ℕ, Text, codes, true, false, [], ◌∷◌, List, ok, none, some, refl, ◌≡◌, ◌+◌, length, Option, Run,
  arith, print_int, print_nat, All,
}
use redis_graph.Value.{double_val, null_val, bits}
use redis_graph.Value.Print.{string_concat}
use redis_graph.Trie.Assoc.{assoc}
use redis_graph.Graph.{Graph}
use redis_graph.Hexastore.{Triplet, sop, unknow, to_string, string_of_kind, id_text}
use redis_graph.Aggregate.{AggCtx, Registry, count, count_func, get_func, step}
use redis_graph.Query.{ReturnNode, n_agg_func, get_agg_funcs}
use redis_graph.Grouping.{Group, aggregate_values}
use redis_graph.Grouping.Laws.{Row, aggregate_rows}
use redis_graph.Grouping.Total.{IsReturn, IsRow, IsCache, aggregate_rows-IsCache}
use redis_graph.Grouping.Columns.{rows_of, grouped, aggregate_rows-grouped}
use redis_graph.ResultSet.{ResultSet, resultset_ok, add_record, elem_compare, records_compare}
use redis_graph.ResultSet.Replay.{Reply, replay, result_size}
use redis_graph.ResultSet.Reply.{IsWithinLimit, replay_announced, add_record-IsWithinLimit}
use redis_graph.Plan.{OpNode, stream_uninitialized, op_ok}
use redis_graph.Plan.TreeLaws.{children_at, push_in_between-children}
use redis_graph.Plan.Tree.{push_in_between}
use redis_graph.Plan.Operations.{ExpandAll, ExpandInto, expand_all_consuming, expand_all_resetted}
use redis_graph.Plan.Consume.{
  next_expand, expand_all_reset, expand_into_consume, set_edge, search_between, node_is_new,
  write_edge,
}
use redis_graph.Plan.Expand.{expanded, expand_all_reset-next_expand}
use redis_graph.Plan.Streams.Into.{expand_into_any_relationship}
use redis_graph.Tests.{machine, heap}
use redis_graph.Tests.Results.{stack}
use redis_graph.Tests.Plans.{libs}

-- A chain of three, and a fourth node that is pushed in.
abbrev one_node : List ℕ → List ℕ → OpNode ℕ
one_node cs ps = record { operation = 0; children = cs; parents = ps; state = stream_uninitialized }

abbrev three : List (OpNode ℕ)
three = one_node (1 ∷ 2 ∷ []) [] ∷ one_node [] (0 ∷ []) ∷ one_node [] (0 ∷ []) ∷ one_node [] [] ∷ []

push_in_between-children_example :
    (ns' : List (OpNode ℕ)) × (push_in_between three 0 3 ≡ ok ns')
    × (children_at ns' 0 ≡ some (3 ∷ []))
    × (children_at ns' 3 ≡ some (1 ∷ 2 ∷ []))
    × (children_at ns' 1 ≡ children_at three 1)
push_in_between-children_example =
    push_in_between-children three 0 3 (1 ∷ 2 ∷ []) [] 1 (λ e. omega arith) refl refl
      (
        (([], refl), (λ e. omega arith), (λ e. omega arith)),
        ((([], refl), (λ e. omega arith), (λ e. omega arith)), tt),
      )
      (λ e. omega arith) (λ e. omega arith)

-- Any person knows any: the two slots hold the query's nodes, at 2 and 3.
abbrev pair_graph : Graph
pair_graph = record { nodes = 2 ∷ 3 ∷ []; edges = 1 ∷ []; node_aliases = []; edge_aliases = [] }

abbrev stored : Triplet
stored = record { subject = some 0; predicate = some 0; object = some 1; kind = sop }

abbrev expansion : ExpandAll libs
expansion = record {
  src_node = 0;
  original_src = 2;
  dest_node = 1;
  original_dest = 3;
  relation = 0;
  original_relation = 1;
  hexastore = [];
  triplet = record stored { kind = unknow };
  changes = 7;
  str_triplet = codes "SPO:";
  iter = [];
  state = expand_all_consuming;
  modifies = [];
}

expand_all_reset-next_expand_example :
    (next_expand libs pair_graph (record expansion { iter = (codes "k", stored) ∷ [] })
      ≡ ok (op_ok, expanded libs pair_graph expansion 0 0 1, expansion))
    × (expand_all_reset libs (expanded libs pair_graph expansion 0 0 1) expansion
        ≡ (op_ok, pair_graph, record expansion { str_triplet = []; state = expand_all_resetted }))
expand_all_reset-next_expand_example =
    expand_all_reset-next_expand libs pair_graph expansion (codes "k") stored [] 0 0 1 refl refl
      refl refl refl refl

-- Between the two people.
abbrev people_graph : Graph
people_graph = record pair_graph { nodes = 0 ∷ 1 ∷ [] }

abbrev into : ExpandInto libs
into = record {
  src_node = 0;
  dest_node = 1;
  relation = 0;
  original_relation = 1;
  hexastore = (codes "SOP:7:71:hates@5", stored) ∷ [];
  str_triplet = [];
  iter = [];
  refresh_after_pass = false;
  modifies = [];
}

-- The edge that is found is called `hates`: it is handed out whichever edge the pattern has.
found_between :
    expand_into_consume libs heap (set_edge people_graph 0 1) into
    ≡ ok (
      op_ok,
      set_edge people_graph 0 0,
      record into { str_triplet = codes "SOP:7:71"; refresh_after_pass = true },
    )
unfolding expand_into_consume search_between node_is_new to_string string_of_kind id_text write_edge
    print_int
found_between = refl

expand_into_any_relationship_example :
    expand_into_consume libs heap (set_edge people_graph 0 0) into
    ≡ ok (
      op_ok,
      set_edge people_graph 0 0,
      record into { str_triplet = codes "SOP:7:71"; refresh_after_pass = true },
    )
expand_into_any_relationship_example =
    expand_into_any_relationship libs heap into people_graph 1 1 0 refl (set_edge people_graph 0 0)
      (record into { str_triplet = codes "SOP:7:71"; refresh_after_pass = true }) found_between

-- Rows of two groups, counted.
abbrev registry : Registry
registry = (codes "count", count_func machine) ∷ []

abbrev counting : ReturnNode
counting = record {
  elements =
      record {
        var_alias = some (codes "a");
        var_property = some (codes "age");
        func = some (codes "count");
        alias = none;
        type = n_agg_func;
      }
      ∷ [];
  distinct = false;
}

abbrev rows : List Row
rows =
    (double_val 1 ∷ [], double_val 10 ∷ [])
    ∷ (double_val 2 ∷ [], double_val 20 ∷ [])
    ∷ (double_val 1 ∷ [], double_val 30 ∷ [])
    ∷ []

abbrev groups_after : Run (List (Text × Group)) → List (Text × Group)
groups_after (ok cache) = cache
groups_after _ = []

abbrev cache : List (Text × Group)
cache = groups_after (aggregate_rows machine (assoc Group) registry counting rows [])

aggregate_rows-grouped_example :
    (mine : List Row) × (rows_of machine (codes "1") rows ≡ ok mine)
    × (grouped machine registry counting none mine ≡ ok ((assoc Group).find cache (codes "1")))
unfolding aggregate_values string_concat double_val print_nat get_agg_funcs get_func
aggregate_rows-grouped_example =
    aggregate_rows-grouped machine (assoc Group) registry counting rows [] cache (codes "1") refl

counting-IsReturn : IsReturn machine (assoc Group) registry counting 1
unfolding get_agg_funcs get_func
counting-IsReturn = (count_func machine ∷ [], refl, refl)

rows-IsRow : All (IsRow machine (assoc Group) registry counting 1) rows
unfolding string_concat double_val print_nat
rows-IsRow = (
  (codes "1", refl, omega arith),
  ((codes "2", refl, omega arith), ((codes "1", refl, omega arith), tt)),
)

aggregate_rows-IsCache_example :
    (cache' : List (Text × Group)) × (aggregate_rows machine (assoc Group) registry counting rows []
      ≡ ok cache')
    × IsCache machine (assoc Group) registry counting 1 cache'
aggregate_rows-IsCache_example =
    aggregate_rows-IsCache machine (assoc Group) registry counting 1 rows [] counting-IsReturn
      (λ k g found. absurd (ground (arith, found))) rows-IsRow

-- That the group of 1 has counted two rows, and the group of 2 one.
abbrev counts : Option Group → Option (Option (List AggCtx))
counts none = none
counts (some g) = some g.functions

group_counts_two :
    counts ((assoc Group).find cache (codes "1"))
    ≡ some (some (record { fctx = count 2; err = none; result = null_val } ∷ []))
unfolding aggregate_values null_val string_concat double_val print_nat get_agg_funcs get_func step
    count_func
group_counts_two = refl

-- Two records are kept, ordered by their first column.
abbrev ordered_set : ResultSet stack (assoc (Unit {0}))
ordered_set = record {
  records = [];
  heap = (double_val 5 ∷ []) ∷ (double_val 2 ∷ []) ∷ [];
  seen = [];
  header = record {
    columns = record { name = codes "a.age"; alias = none } ∷ [];
    order_bys = some 0 ∷ [];
  };
  aggregated = false;
  ordered = true;
  descending = false;
  limit = 2;
  distinct = false;
}

abbrev reply : Reply
reply = record { announced = 4; lines = codes "a.age" ∷ codes "2" ∷ codes "5" ∷ [] }

replay_announced_example :
    (reply.announced ≡ length reply.lines + 1)
    × (length reply.lines ≡ result_size machine stack (assoc (Unit {0})) ordered_set + 1)
unfolding replay string_concat double_val print_nat
replay_announced_example = replay_announced machine stack (assoc (Unit {0})) ordered_set reply refl

abbrev swapped_set : ResultSet stack (assoc (Unit {0}))
swapped_set = record ordered_set { heap = (double_val 1 ∷ []) ∷ (double_val 2 ∷ []) ∷ [] }

ordered_set-IsWithinLimit : IsWithinLimit machine stack (assoc (Unit {0})) ordered_set
unfolding result_size
ordered_set-IsWithinLimit = ((λ e. omega arith), omega arith)

add_record-IsWithinLimit_example : IsWithinLimit machine stack (assoc (Unit {0})) swapped_set
unfolding add_record double_val elem_compare records_compare bits
add_record-IsWithinLimit_example =
    add_record-IsWithinLimit machine stack (assoc (Unit {0})) ordered_set swapped_set
      (some (double_val 1 ∷ [])) resultset_ok ordered_set-IsWithinLimit refl
