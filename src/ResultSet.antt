-- ===== src/ResultSet.antt =====
-- src/resultset/: records, the header with the columns to order by, and the result set, which keeps
-- its records in a vector or, if they are ordered and limited, in a heap.
pub mod Limits
pub mod Order
pub mod Distinct
pub mod Replay
pub mod Reply
use redis_graph.Base.{
  ℕ, zero, suc, ◌+◌, ◌%◌, ◌^◌, Bool, true, false, not, ◌&&◌, Option, none, some, Run, ok, fault,
  ◌>>=◌, deref, Text, codes, text_eq, List, [], ◌∷◌, ◌++◌, length, take, get_elem?, ltb, leb, ◌==◌,
  ◌≡◌, Ordering, if◌then◌else◌,
}
use redis_graph.Value.{Machine, SiValue, bits}
use redis_graph.Value.Print.{string_concat}
use redis_graph.Trie.{TrieMap}
use redis_graph.Graph.{Heap, Graph}
use redis_graph.Aggregate.{AggCtx}
use redis_graph.Query.{
  ReturnElement, ReturnType, n_node, n_prop, n_agg_func, ReturnNode, OrderNode, ColumnNode,
  ColumnType, n_variable, n_alias, Query, contains_aggregation, retrieve_prop_values,
}

-- The values of a record.
abbrev pub Record : Type 0
Record = List SiValue

-- Record_FromGraph; `none` is NULL.
unfoldable pub record_from_graph : Heap → Graph → ReturnNode → Run (Option Record)
record_from_graph h g r = retrieve_prop_values h g r

-- Record_FromGroup: keys and results in the order of the RETURN clause.
unfoldable pub record_from_group : List ReturnElement → List SiValue → List AggCtx → Run Record
record_from_group [] keys funcs = ok []
record_from_group (r ∷ rs) keys funcs = elim r.type [
  | n_agg_func ↦ elim funcs [
    | [] ↦ fault
    | f ∷ fs ↦ record_from_group rs keys fs >>= λ more. ok (f.result ∷ more)
  ]
  | _ ↦ elim keys [ [] ↦ fault | k ∷ ks ↦ record_from_group rs ks funcs >>= λ more. ok (k ∷ more) ]
]

-- What Records_Compare makes of one column: 1, -1, or on to the next.
abbrev pub by_column : (ℕ → ℕ → Bool) → ℕ → ℕ → Run Ordering → Run Ordering
by_column less a b rest =
    if less b a then ok Ordering.gt else if less a b then ok Ordering.lt else rest

-- Records_Compare: `none` is an index that was never written, and one that names no column leaves
-- the value's pointer as it was.
unfoldable pub records_compare : Machine → Record → Record → List (Option ℕ) → Run Ordering
records_compare m a b [] = ok Ordering.eq
records_compare m a b (index ∷ is) =
    let rest = records_compare m a b is in
    deref index >>= λ i. deref (get_elem? a i) >>= λ v.
    deref (get_elem? b i) >>= λ w. by_column m.double_lt (bits m v) (bits m w) rest

pub record Column : Type 0 where
  pub name : Text
  pub alias : Option Text

-- `order_bys` holds `none` where the code leaves the allocated integer unwritten.
pub record Header : Type 0 where
  pub columns : List Column
  pub order_bys : List (Option ℕ)

-- The name of a column; the strings that `%s` prints are not tested for NULL.
unfoldable pub column_name : ReturnElement → Run Text
column_name r = elim r.type [
  | n_prop ↦ (do a ← deref r.var_alias; k ← deref r.var_property; ok (a ++ b'.' ∷ k))
  | _ ↦ (do
    f ← deref r.func
    a ← deref r.var_alias
    k ← deref r.var_property
    ok (f ++ b'(' ∷ (a ++ b'.' ∷ (k ++ b')' ∷ []))))
]

unfoldable pub new_columns : List ReturnElement → Run (List Column)
unfolding column_name
new_columns [] = ok []
new_columns (r ∷ rs) = do
  n ← column_name r
  more ← new_columns rs
  ok (record { name = n; alias = r.alias } ∷ more)

-- Whether a column is the one to order by. The buffer for the name of a variable has room for the
-- property and a NUL only, since its size is a comma expression; sprintf writes behind it.
unfoldable pub column_matches : ColumnNode → Column → Run Bool
column_matches o c = elim o.type [
  | n_variable ↦ (do
    k ← deref o.property
    let full = o.alias ++ b'.' ∷ k
    if ltb (length full) (length k + 1) then ok (text_eq full c.name) else fault)
  | n_alias ↦ ok (elim c.alias [ none ↦ false | some a ↦ text_eq o.alias a ])
]

-- The inner loop, from column j on.
unfoldable pub find_column : ColumnNode → ℕ → List Column → Run (Option ℕ)
unfolding column_matches
find_column o j [] = ok none
find_column o j (c ∷ cs) =
    let rest = find_column o (suc j) cs in
    column_matches o c >>= λ match. if match then ok (some j) else rest

unfoldable pub find_columns : List ColumnNode → List Column → Run (List (Option ℕ))
unfolding find_column
find_columns [] cs = ok []
find_columns (o ∷ os) cs = do i ← find_column o 0 cs; is ← find_columns os cs; ok (i ∷ is)

abbrev pub order_columns : Option OrderNode → List ColumnNode
order_columns none = []
order_columns (some o) = o.columns

-- NewResultSetHeader
unfoldable pub new_header : Query → Run Header
unfolding new_columns find_columns
new_header q = do
  cs ← new_columns q.returns.elements
  is ← find_columns (order_columns q.order) cs
  ok (record { columns = cs; order_bys = is })

-- ResultSetHeader_ToString: the titles with a comma behind each, the last one cut off; with no
-- column it writes before the string.
unfoldable pub titles : List Column → Text
titles [] = []
titles (c ∷ cs) = (elim c.alias [ some a ↦ a | none ↦ c.name ]) ++ b',' ∷ titles cs

unfoldable pub header_to_string : Header → Run Text
unfolding titles
header_to_string hd = elim (titles hd.columns) [ [] ↦ fault | c ∷ t ↦ ok (take (length t) (c ∷ t)) ]

-- The heap library (src/util/heap.c), with what the result set relies on. The comparison may fail.
pub record HeapLib : Type 1 where
  pub Tree : Type 0
  pub new : Tree
  pub count : Tree → ℕ
  pub offer : (Record → Record → Run Ordering) → Tree → Record → Run Tree
  pub peek : Tree → Option Record
  pub poll : (Record → Record → Run Ordering) → Tree → Run Tree
  pub count-new : count new ≡ 0
  pub count-offer :
      (cmp : Record → Record → Run Ordering) (t t' : Tree) (r : Record)
      → offer cmp t r ≡ ok t'
      → count t' ≡ count t + 1
  pub count-poll :
      (cmp : Record → Record → Run Ordering) (t t' : Tree)
      → poll cmp t ≡ ok t'
      → count t' + 1 ≡ count t

-- The comparison with its result times the direction.
abbrev pub reversed : Ordering → Ordering
reversed Ordering.lt = Ordering.gt
reversed Ordering.eq = Ordering.eq
reversed Ordering.gt = Ordering.lt

abbrev pub is_gt : Ordering → Bool
is_gt Ordering.gt = true
is_gt _ = false

-- RESULTSET_OK and RESULTSET_FULL.
pub data AddStatus : Type 0 where
  resultset_ok resultset_full : AddStatus

-- `limit` is 0 for RESULTSET_UNLIMITED; a NULL record is `none`.
pub record ResultSet (lib : HeapLib) (trie : TrieMap (Unit {0})) : Type 0 where
  pub records : List (Option Record)
  pub heap : lib.Tree
  pub seen : trie.Map
  pub header : Header
  pub aggregated : Bool
  pub ordered : Bool
  pub descending : Bool
  pub limit : ℕ
  pub distinct : Bool

module _ (m : Machine) (lib : HeapLib) (trie : TrieMap (Unit {0})) where
  -- NewResultSet
  unfoldable pub new_result_set : Query → Run (ResultSet lib trie)
  unfolding new_header
  new_result_set q = do
    hd ← new_header q
    ok (record {
      records = [];
      heap = lib.new;
      seen = trie.empty;
      header = hd;
      aggregated = contains_aggregation q.returns;
      ordered = elim q.order [ none ↦ false | some o ↦ true ];
      descending = elim q.order [ none ↦ false | some o ↦ o.descending ];
      limit = elim q.limit [ none ↦ 0 | some n ↦ n ];
      distinct = q.returns.distinct;
    })

  -- _heap_elem_compare
  unfoldable pub elem_compare : ResultSet lib trie → Record → Record → Run Ordering
  elem_compare set a b = do
    o ← records_compare m a b set.header.order_bys
    ok (if set.descending then reversed o else o)

  -- __encounteredRecord: the text, by its length of 16 bits, and whether it was seen.
  unfoldable pub encountered : ResultSet lib trie → Option Record → Run (Bool × ResultSet lib trie)
  encountered set r = do
    vs ← deref r
    t ← string_concat m vs
    let k = take (length t % 2 ^ 16) t
    ok (
      elim (trie.find set.seen k) [ none ↦ false | some u ↦ true ],
      record set { seen = trie.add set.seen k tt },
    )

  unfoldable pub is_full : ResultSet lib trie → Bool
  is_full set =
      if set.ordered then false else not (set.limit == 0) && leb set.limit (length set.records)

  unfoldable pub offer_record : ResultSet lib trie → Record → Run (ResultSet lib trie)
  offer_record set r = do t ← lib.offer (elem_compare set) set.heap r; ok (record set { heap = t })

  -- The top of a full heap makes way for a record that comes before it.
  unfoldable pub replace_top : ResultSet lib trie → Record → Run (ResultSet lib trie)
  unfolding offer_record
  replace_top set r = do
    top ← deref (lib.peek set.heap)
    o ← elem_compare set top r
    let swap =
        lib.poll (elem_compare set) set.heap >>= λ t. offer_record (record set { heap = t }) r
    if is_gt o then swap else ok set

  unfoldable pub keep_in_heap : ResultSet lib trie → Record → Run (ResultSet lib trie)
  unfolding offer_record replace_top
  keep_in_heap set r =
      if ltb (lib.count set.heap) set.limit then offer_record set r else replace_top set r

  abbrev pub uses_heap : ResultSet lib trie → Bool
  uses_heap set = set.ordered && not (set.limit == 0)

  -- What becomes of a record that is neither refused nor skipped.
  unfoldable pub store_record : ResultSet lib trie → Option Record → Run (ResultSet lib trie)
  unfolding keep_in_heap
  store_record set r =
      if uses_heap set
      then (deref r >>= λ vs. keep_in_heap set vs)
      else ok (record set { records = set.records ++ r ∷ [] })

  unfoldable pub store_new : Bool × ResultSet lib trie → Option Record → Run (ResultSet lib trie)
  unfolding store_record
  store_new (old, set) r = if old then ok set else store_record set r

  -- ResultSet_AddRecord
  unfoldable pub add_record :
      ResultSet lib trie → Option Record → Run (AddStatus × ResultSet lib trie)
  unfolding is_full encountered store_new store_record
  add_record set r =
      if is_full set
      then ok (resultset_full, set)
      else ((if set.distinct
            then (encountered set r >>= λ found. store_new found r)
            else store_record set r)
          >>= λ set'. ok (resultset_ok, set'))
