-- ===== src/ResultSet/Replay.antt =====
-- src/resultset/resultset.c: the groups' records, the sort, and the reply.
use redis_graph.Base.{
  ℕ, zero, suc, Bool, ◌+◌, true, false, Option, some, Run, ok, out_of_fuel, ◌>>=◌, deref, Text,
  List, [], ◌∷◌, Ordering, length, map, if◌then◌else◌, ◌==◌,
}
use redis_graph.Value.{Machine}
use redis_graph.Value.Print.{string_concat}
use redis_graph.Trie.{TrieMap}
use redis_graph.Aggregate.{AggCtx, finalize}
use redis_graph.Query.{ReturnNode}
use redis_graph.Grouping.{Group, cache_groups}
use redis_graph.ResultSet.{
  Record, ResultSet, HeapLib, resultset_full, add_record, elem_compare, header_to_string,
  record_from_group, uses_heap,
}

-- The array that RedisModule_ReplyWithArray announces, and the strings that follow.
pub record Reply : Type 0 where
  pub announced : ℕ
  pub lines : List Text

unfoldable pub finalize_all : Machine → List AggCtx → List AggCtx
finalize_all m fs = map (finalize m) fs

-- The last one first.
unfoldable pub reverse_onto : List Text → List Text → List Text
reverse_onto [] out = out
reverse_onto (t ∷ ts) out = reverse_onto ts (t ∷ out)

module _ (lib : HeapLib) where
  -- The loop of heap_poll until the heap is empty; the fuel is the number of records in it.
  unfoldable pub poll_all : (Record → Record → Run Ordering) → ℕ → lib.Tree → Run (List Record)
  poll_all cmp zero t = if lib.count t == 0 then ok [] else out_of_fuel
  poll_all cmp (suc fuel) t = elim (lib.count t == 0) [
    | true ↦ ok []
    | false ↦ (do
      top ← deref (lib.peek t)
      t' ← lib.poll cmp t
      more ← poll_all cmp fuel t'
      ok (top ∷ more))
  ]

  unfoldable pub offer_all :
      (Record → Record → Run Ordering) → lib.Tree → List (Option Record) → Run lib.Tree
  offer_all cmp t [] = ok t
  offer_all cmp t (r ∷ rs) = do record' ← deref r; t' ← lib.offer cmp t record'; offer_all cmp t' rs

module _ (m : Machine) where
  -- Record_ToString on each record.
  unfoldable pub record_lines : List Record → Run (List Text)
  record_lines [] = ok []
  record_lines (r ∷ rs) = do t ← string_concat m r; more ← record_lines rs; ok (t ∷ more)

  unfoldable pub stored_lines : List (Option Record) → Run (List Text)
  stored_lines [] = ok []
  stored_lines (r ∷ rs) = do
    vs ← deref r
    t ← string_concat m vs
    more ← stored_lines rs
    ok (t ∷ more)

module _ (m : Machine) (lib : HeapLib) (trie : TrieMap (Unit {0})) where
  -- _aggregateResultSet, over the entries of the group cache: the loop ends at a full result set.
  unfoldable pub add_groups :
      ReturnNode → ResultSet lib trie → List (Text × Group) → Run (ResultSet lib trie)
  unfolding finalize_all add_record record_from_group
  add_groups returns set [] = ok set
  add_groups returns set (entry ∷ rest) = do
    fs ← deref entry.1.functions
    r ← record_from_group returns.elements entry.1.keys (finalize_all m fs)
    added ← add_record m lib trie set (some r)
    elim added.0 [ resultset_full ↦ ok added.1 | _ ↦ add_groups returns added.1 rest ]

  -- The group cache is made anew.
  unfoldable pub aggregate_result_set :
      (groups : TrieMap Group)
      → ReturnNode
      → ResultSet lib trie
      → groups.Map
      → Run (ResultSet lib trie × groups.Map)
  unfolding add_groups cache_groups
  aggregate_result_set groups returns set cache = do
    set' ← add_groups returns set (cache_groups m groups cache)
    ok (set', groups.empty)

  -- _sortResultSet
  unfoldable pub sort_result_set : ResultSet lib trie → List (Option Record) → Run (List Record)
  unfolding poll_all offer_all elem_compare
  sort_result_set set records = do
    t ← offer_all lib (elem_compare m lib trie set) lib.new records
    poll_all lib (elem_compare m lib trie set) (lib.count t) t

  -- The lines of a result set that is ordered or not, without a limit or with one: from the heap or
  -- the sorted array in reverse, or as they are stored.
  unfoldable pub lines_of : Bool → Bool → ResultSet lib trie → Run (List Text)
  unfolding poll_all elem_compare record_lines reverse_onto sort_result_set stored_lines
  lines_of false unlimited set = stored_lines m set.records
  lines_of true false set = do
    rs ← poll_all lib (elem_compare m lib trie set) (lib.count set.heap) set.heap
    ts ← record_lines m rs
    ok (reverse_onto ts [])
  lines_of true true set = do
    rs ← sort_result_set set set.records
    ts ← record_lines m rs
    ok (reverse_onto ts [])

  unfoldable pub result_lines : ResultSet lib trie → Run (List Text)
  unfolding lines_of
  result_lines set = lines_of set.ordered (set.limit == 0) set

  unfoldable pub result_size : ResultSet lib trie → ℕ
  result_size set = if uses_heap m lib trie set then lib.count set.heap else length set.records

  -- ResultSet_Replay, of a result set that has its groups' records. The array announces the header
  -- and, for the caller, the time.
  unfoldable pub replay : ResultSet lib trie → Run Reply
  unfolding result_lines result_size header_to_string
  replay set = do
    title ← header_to_string set.header
    ts ← result_lines set
    ok (record { announced = result_size set + 2; lines = title ∷ ts })

  unfoldable pub result_set_replay :
      (groups : TrieMap Group)
      → ReturnNode
      → ResultSet lib trie
      → groups.Map
      → Run (Reply × groups.Map)
  unfolding aggregate_result_set replay
  result_set_replay groups returns set cache = do
    grouped ←
        (if set.aggregated then aggregate_result_set groups returns set cache else ok (set, cache))
    r ← replay grouped.0
    ok (r, grouped.1)
