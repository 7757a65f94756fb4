-- ===== src/Grouping/Laws.antt =====
-- What the groups of an aggregation hold after a list of rows, src/grouping/ and
-- src/execution_plan/ops/op_aggregate.c.
use redis_graph.Base.{
  Option, some, Run, ok, ◌>>=◌, bind-ok, ok-injective, Bool-cases, inl, inr, Text, text_eq,
  text_eq→≡, List, [], ◌∷◌, ◌≡◌, refl, sym, ap, ◌∙◌, if◌then◌else◌,
}
use redis_graph.Value.{Machine, SiValue}
use redis_graph.Value.Print.{string_concat}
use redis_graph.Trie.{TrieMap}
use redis_graph.Aggregate.{Registry}
use redis_graph.Query.{ReturnNode}
use redis_graph.Grouping.{
  Group, cache_key, group_or_new, step_group, cache_group_add, cache_group_get, aggregate_keyed,
  aggregate_values,
}

-- A row: the keys, and the values to aggregate.
abbrev pub Row : Type 0
Row = List SiValue × List SiValue

module _ (m : Machine) (trie : TrieMap Group) (reg : Registry) (returns : ReturnNode) where
  -- Rows, one after the other.
  abbrev pub aggregate_rows : List Row → trie.Map → Run trie.Map
  aggregate_rows [] cache = ok cache
  aggregate_rows (row ∷ rows) cache =
      aggregate_values m trie reg returns cache row.0 row.1 >>= aggregate_rows rows

  -- One group after a row of its own.
  abbrev pub own_row : Row → Option Group → Run Group
  own_row row found = group_or_new m trie reg returns row.0 found >>= step_group m trie row.1

  -- One group after a row that has the text, or another one.
  abbrev pub with_row : Text → Text → Row → Option Group → Run (Option Group)
  with_row k t row found =
      if text_eq (cache_key t) k then (own_row row found >>= λ g. ok (some g)) else ok found

  -- One group after the rows: those with another text do not touch it.
  abbrev pub own_rows : Text → List Row → Option Group → Run (Option Group)
  own_rows k [] found = ok found
  own_rows k (row ∷ rows) found =
      string_concat m row.0 >>= λ t. with_row k t row found >>= own_rows k rows

  keyed-with_row :
      (cache cache' : trie.Map) (row : Row) (k t : Text)
      → aggregate_keyed m trie reg returns cache row.0 t row.1 ≡ ok cache'
      → with_row k t row (trie.find cache k) ≡ ok (trie.find cache' k)
  unfolding aggregate_keyed cache_group_add cache_group_get
  keyed-with_row cache cache' row k t h =
      let (g, u, h1) =
        bind-ok (group_or_new m trie reg returns row.0 (trie.find cache (cache_key t))) _ h in
      let (g', w, h2) = bind-ok (step_group m trie row.1 g) _ h1 in
      let found = trie.find-add cache (cache_key t) k g' in
      let after = ap (λ c. trie.find c k) (ok-injective h2) in
      elim (Bool-cases (text_eq (cache_key t) k)) [
        | inl its ↦
            let same = text_eq→≡ (cache_key t) k its in
            let own =
              sym (ap (λ x. group_or_new m trie reg returns row.0 (trie.find cache x)) same) ∙ u in
            rw (its, own, w) (ap ok (sym (sym after ∙ rw its at found)))
        | inr other ↦ rw (other) (ap ok (sym (sym after ∙ rw other at found)))
      ]

  -- Rows that are aggregated in turn leave each group as if there were no others.
  pub aggregate_rows-own_rows :
      (rows : List Row) (cache cache' : trie.Map) (k : Text)
      → aggregate_rows rows cache ≡ ok cache'
      → own_rows k rows (trie.find cache k) ≡ ok (trie.find cache' k)
  unfolding aggregate_values
  aggregate_rows-own_rows [] cache cache' k h = rw (ok-injective h) refl
  aggregate_rows-own_rows (row ∷ rows) cache cache' k h =
      let (next, u, h1) = bind-ok (aggregate_values m trie reg returns cache row.0 row.1) _ h in
      let (t, v, h2) = bind-ok (string_concat m row.0) _ u in
      rw (v, keyed-with_row cache next row k t h2) (aggregate_rows-own_rows rows next cache' k h1)
