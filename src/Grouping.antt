-- ===== src/Grouping.antt =====
-- src/grouping/ and the record step of src/execution_plan/ops/op_aggregate.c: the groups of an
-- aggregation and the cache that holds them by the text of their keys.
pub mod Laws
pub mod Columns
pub mod Total
use redis_graph.Base.{
  ℕ, ◌%◌, ◌^◌, Option, none, some, Run, ok, ◌>>=◌, deref, Text, List, [], ◌∷◌, length, take,
}
use redis_graph.Value.{Machine, SiValue}
use redis_graph.Value.Print.{string_concat}
use redis_graph.Trie.{TrieMap}
use redis_graph.Graph.{Heap, Graph}
use redis_graph.Aggregate.{AggCtx, Registry, step}
use redis_graph.Query.{ReturnNode, retrieve_group_keys, retrieve_group_agg_vals, get_agg_funcs}

-- `functions` is `none` where ReturnClause_GetAggFuncs gave NULL.
pub record Group : Type 0 where
  pub keys : List SiValue
  pub functions : Option (List AggCtx)

unfoldable pub new_group : List SiValue → Option (List AggCtx) → Group
new_group ks fs = record { keys = ks; functions = fs }

-- The trie takes a length of 16 bits.
abbrev pub cache_key : Text → Text
cache_key t = take (length t % 2 ^ 16) t

-- Each value goes through the function at its index; more values than functions are read behind
-- the vector.
unfoldable pub step_each : Machine → List SiValue → List AggCtx → Run (List AggCtx)
step_each m [] fs = ok fs
step_each m (v ∷ vs) [] = Run.fault
step_each m (v ∷ vs) (f ∷ fs) = do more ← step_each m vs fs; ok ((step m f v).0 ∷ more)

module _ (m : Machine) (trie : TrieMap Group) where
  unfoldable pub cache_group_add : trie.Map → Text → Group → trie.Map
  cache_group_add cache k g = trie.add cache (cache_key k) g

  -- `none` is NULL.
  unfoldable pub cache_group_get : trie.Map → Text → Option Group
  cache_group_get cache k = trie.find cache (cache_key k)

  -- The entries that CacheGroupIter and CacheGroupIterNext go through.
  unfoldable pub cache_groups : trie.Map → List (Text × Group)
  cache_groups cache = trie.entries cache []

  -- The group that the cache gave, or a new one. Without functions the pointer is not followed here.
  unfoldable pub group_or_new : Registry → ReturnNode → List SiValue → Option Group → Run Group
  unfolding new_group
  group_or_new reg returns keys (some g) = ok g
  group_or_new reg returns keys none = do
    fs ← get_agg_funcs reg returns.elements
    ok (new_group keys fs)

  -- The values go through the functions of the group.
  unfoldable pub step_group : List SiValue → Group → Run Group
  unfolding step_each
  step_group vals g = do
    fs ← deref g.functions
    stepped ← step_each m vals fs
    ok (record g { functions = some stepped })

  -- The cache holds a pointer to the group, so what it leads to then is the stepped group.
  unfoldable pub aggregate_keyed :
      Registry → ReturnNode → trie.Map → List SiValue → Text → List SiValue → Run trie.Map
  unfolding cache_group_get group_or_new step_group cache_group_add
  aggregate_keyed reg returns cache keys k vals = do
    g ← group_or_new reg returns keys (cache_group_get cache k)
    g' ← step_group vals g
    ok (cache_group_add cache k g')

  unfoldable pub aggregate_values :
      Registry → ReturnNode → trie.Map → List SiValue → List SiValue → Run trie.Map
  unfolding aggregate_keyed
  aggregate_values reg returns cache keys vals = do
    k ← string_concat m keys
    aggregate_keyed reg returns cache keys k vals

  -- _aggregateRecord
  unfoldable pub aggregate_record : Heap → Registry → ReturnNode → Graph → trie.Map → Run trie.Map
  unfolding aggregate_values
  aggregate_record h reg returns g cache = do
    keys ← retrieve_group_keys h g returns
    ks ← deref keys
    vals ← retrieve_group_agg_vals h g returns
    vs ← deref vals
    aggregate_values reg returns cache ks vs
