-- ===== src/Grouping/Total.antt =====
-- When the rows of an aggregation can be aggregated, src/grouping/ and
-- src/execution_plan/ops/op_aggregate.c.
use redis_graph.Base.{
  ℕ, suc, ◌≤◌, some, some-injective, ok, Bool-cases, Option-cases, inl, inr, Text, text_eq, List,
  [], ◌∷◌, length, All, ◌≡◌, refl, sym, ap, ◌∙◌, arith,
}
use redis_graph.Value.{Machine, SiValue}
use redis_graph.Value.Print.{string_concat}
use redis_graph.Trie.{TrieMap}
use redis_graph.Aggregate.{AggCtx, Registry, step}
use redis_graph.Query.{ReturnNode, get_agg_funcs}
use redis_graph.Grouping.{
  Group, cache_key, group_or_new, new_group, step_group, step_each, cache_group_add,
  cache_group_get, aggregate_keyed, aggregate_values,
}
use redis_graph.Grouping.Laws.{Row, aggregate_rows}

step_each-length :
    (m : Machine) (vs : List SiValue) (fs : List AggCtx)
    → length vs ≤ length fs
    → (fs' : List AggCtx) × (step_each m vs fs ≡ ok fs') × (length fs' ≡ length fs)
unfolding step_each
step_each-length m [] fs h = (fs, refl, refl)
step_each-length m (v ∷ vs) [] h = absurd (omega (arith, h))
step_each-length m (v ∷ vs) (f ∷ fs) h =
    let (fs', done, same) = step_each-length m vs fs (omega (arith, h)) in
    ((step m f v).0 ∷ fs', rw done refl, ap suc same)

module _ (m : Machine) (trie : TrieMap Group) (reg : Registry) (returns : ReturnNode) (n : ℕ) where
  -- The group has n functions.
  abbrev pub HasFunctions : Group → Type 0
  HasFunctions g = (fs : List AggCtx) × (g.functions ≡ some fs) × (length fs ≡ n)

  -- Each group of the cache has n functions.
  abbrev pub IsCache : trie.Map → Type 0
  IsCache cache = (k : Text) (g : Group) → trie.find cache k ≡ some g → HasFunctions g

  -- The text of the row's keys can be made, and it has at most n values.
  abbrev pub IsRow : Row → Type 0
  IsRow row = (t : Text) × (string_concat m row.0 ≡ ok t) × (length row.1 ≤ n)

  -- The RETURN clause has n functions, and all of them are known.
  abbrev pub IsReturn : Type 0
  IsReturn =
      (fs : List AggCtx) × (get_agg_funcs reg returns.elements ≡ ok (some fs)) × (length fs ≡ n)

  group_or_new-HasFunctions :
      (keys : List SiValue) (cache : trie.Map) (k : Text)
      → IsReturn
      → IsCache cache
      → (g : Group) × (group_or_new m trie reg returns keys (trie.find cache k) ≡ ok g)
        × HasFunctions g
  unfolding group_or_new new_group
  group_or_new-HasFunctions keys cache k (fs, known, count) held =
      elim (Option-cases (trie.find cache k)) [
        | inl missing ↦ (new_group keys (some fs), rw (missing, known) refl, (fs, refl, count))
        | inr (g, there) ↦ (g, rw there refl, held k g there)
      ]

  step_group-HasFunctions :
      (vals : List SiValue) (g : Group)
      → length vals ≤ n
      → HasFunctions g
      → (g' : Group) × (step_group m trie vals g ≡ ok g') × HasFunctions g'
  unfolding step_group
  step_group-HasFunctions vals g few (fs, has, count) =
      let (fs', done, same) = step_each-length m vals fs (omega (arith, few, count)) in
      (record g { functions = some fs' }, rw (has, done) refl, (fs', refl, same ∙ count))

  cache_group_add-IsCache :
      (cache : trie.Map) (t : Text) (g : Group)
      → IsCache cache
      → HasFunctions g
      → IsCache (cache_group_add m trie cache t g)
  unfolding cache_group_add
  cache_group_add-IsCache cache t g held has j g' found =
      elim (Bool-cases (text_eq (cache_key t) j)) [
        | inl its ↦
            let same : g ≡ g' =
              some-injective (sym (trie.find-add cache (cache_key t) j g ∙ rw its refl) ∙ found) in
            rw (← same) has
        | inr other ↦
            held j g' (sym (trie.find-add cache (cache_key t) j g ∙ rw other refl) ∙ found)
      ]

  row_lem :
      (cache : trie.Map) (row : Row)
      → IsReturn
      → IsCache cache
      → IsRow row
      → (cache' : trie.Map) × (aggregate_values m trie reg returns cache row.0 row.1 ≡ ok cache')
        × IsCache cache'
  unfolding aggregate_values aggregate_keyed cache_group_get
  row_lem cache row fit held (t, shown, few) =
      let (g, made, has) = group_or_new-HasFunctions row.0 cache (cache_key t) fit held in
      let (g', done, still) = step_group-HasFunctions row.1 g few has in
      (
        cache_group_add m trie cache t g',
        rw (shown, made, done) refl,
        cache_group_add-IsCache cache t g' held still,
      )

  -- The RETURN clause has n functions, all of them known, as has each group of the cache, and each
  -- row has a text of its keys and at most n values. Then the rows are aggregated without a failure,
  -- and each group of the cache has n functions again.
  pub aggregate_rows-IsCache :
      (rows : List Row) (cache : trie.Map)
      → IsReturn
      → IsCache cache
      → All IsRow rows
      → (cache' : trie.Map) × (aggregate_rows m trie reg returns rows cache ≡ ok cache')
        × IsCache cache'
  aggregate_rows-IsCache [] cache fit held all = (cache, refl, held)
  aggregate_rows-IsCache (row ∷ rows) cache fit held (first, all) =
      let (next, done, ready) = row_lem cache row fit held first in
      let (last, ended, still) = aggregate_rows-IsCache rows next fit ready all in
      (last, rw done ended, still)
