-- ===== src/Grouping/Columns.antt =====
-- src/grouping/ and src/execution_plan/ops/op_aggregate.c: the groups of an aggregation, read by
-- column. Each function of a group is stepped through the values at its own index.
use redis_graph.Base.{
  Option, none, some, Run, ok, ◌>>=◌, deref, bind-ok, ok-injective, Bool-cases, inl, inr, Text,
  text_eq, List, [], ◌∷◌, map, ◌≡◌, refl, sym, ap, ◌∙◌, if◌then◌else◌,
}
use redis_graph.Value.{Machine, SiValue}
use redis_graph.Value.Print.{string_concat}
use redis_graph.Trie.{TrieMap}
use redis_graph.Aggregate.{Registry, AggCtx, step, step_all}
use redis_graph.Query.{ReturnNode, get_agg_funcs}
use redis_graph.Grouping.{Group, cache_key, new_group, group_or_new, step_group, step_each}
use redis_graph.Grouping.Laws.{
  Row, aggregate_rows, own_row, with_row, own_rows, aggregate_rows-own_rows,
}

-- The first value of each list that has one, and what is behind it.
abbrev pub heads : List (List SiValue) → List SiValue
heads [] = []
heads ([] ∷ vss) = heads vss
heads ((v ∷ vs) ∷ vss) = v ∷ heads vss

abbrev pub tails : List (List SiValue) → List (List SiValue)
tails [] = []
tails ([] ∷ vss) = tails vss
tails ((v ∷ vs) ∷ vss) = vs ∷ tails vss

module _ (m : Machine) where
  -- The function at each index, stepped through the values at that index, in order.
  abbrev pub by_index : List AggCtx → List (List SiValue) → List AggCtx
  by_index [] vss = []
  by_index (f ∷ fs) vss = step_all m f (heads vss) ∷ by_index fs (tails vss)

  by_index-none : (fs : List AggCtx) → by_index fs [] ≡ fs
  unfolding step_all
  by_index-none [] = refl
  by_index-none (f ∷ fs) = ap (λ gs. f ∷ gs) (by_index-none fs)

  step_each-by_index :
      (vs : List SiValue) (fs fs' : List AggCtx) (vss : List (List SiValue))
      → step_each m vs fs ≡ ok fs'
      → by_index fs' vss ≡ by_index fs (vs ∷ vss)
  unfolding step_each step_all
  step_each-by_index [] [] fs' vss h = rw (← ok-injective h) refl
  step_each-by_index [] (f ∷ fs) fs' vss h = rw (← ok-injective h) refl
  step_each-by_index (v ∷ vs) [] fs' vss h = cc
  step_each-by_index (v ∷ vs) (f ∷ fs) fs' vss h =
      let (more, stepped, e) = bind-ok (step_each m vs fs) _ h in
      rw (← ok-injective e) (
        ap (λ gs. step_all m (step m f v).0 (heads vss) ∷ gs)
          (step_each-by_index vs fs more (tails vss) stepped))

  -- The rows whose keys have the text, in order.
  abbrev pub rows_of : Text → List Row → Run (List Row)
  rows_of k [] = ok []
  rows_of k (row ∷ rows) = string_concat m row.0 >>= λ t.
      rows_of k rows >>= λ more. ok (if text_eq (cache_key t) k then row ∷ more else more)

  abbrev values_of : List Row → List (List SiValue)
  values_of = map (λ row. row.1)

  -- The group with these keys and functions after the rows.
  abbrev pub after_rows : List SiValue → Option (List AggCtx) → List Row → Run (Option Group)
  after_rows keys functions rows = deref functions >>= λ fs.
      ok (some (record { keys = keys; functions = some (by_index fs (values_of rows)) }))

  -- What the cache holds for a text after the rows of the text: the group that was there, or one
  -- with the keys of the first row and the functions of the RETURN clause, with its functions
  -- stepped by column.
  abbrev pub grouped : Registry → ReturnNode → Option Group → List Row → Run (Option Group)
  grouped reg returns found [] = ok found
  grouped reg returns (some g) (row ∷ rows) = after_rows g.keys g.functions (row ∷ rows)
  grouped reg returns none (row ∷ rows) =
      get_agg_funcs reg returns.elements >>= λ functions. after_rows row.0 functions (row ∷ rows)

  module _ (trie : TrieMap Group) (reg : Registry) (returns : ReturnNode) where
    at_columns :
        (keys : List SiValue) (fs : List AggCtx) (mine : List Row)
        → grouped reg returns (some (record { keys = keys; functions = some fs })) mine
          ≡ ok (some (record { keys = keys; functions = some (by_index fs (values_of mine)) }))
    at_columns keys fs [] =
        ap (λ gs. ok (some (record { keys = keys; functions = some gs }))) (sym (by_index-none fs))
    at_columns keys fs (row ∷ mine) = refl

    stepped_lem :
        (row : Row) (mine : List Row) (g g' : Group) (after : Option Group)
        → step_group m trie row.1 g ≡ ok g'
        → grouped reg returns (some g') mine ≡ ok after
        → after_rows g.keys g.functions (row ∷ mine) ≡ ok after
    unfolding step_group
    stepped_lem row mine g g' after stepped rest =
        let (fs, there, h1) = bind-ok (deref g.functions) _ stepped in
        let (fs', each, h2) = bind-ok (step_each m row.1 fs) _ h1 in
        rw there (
          ap (λ gs. ok (some (record { keys = g.keys; functions = some gs })))
            (sym (step_each-by_index row.1 fs fs' (values_of mine) each))
          ∙ sym (at_columns g.keys fs' mine)
          ∙ ap (λ x. grouped reg returns (some x) mine) (ok-injective h2)
          ∙ rest)

    own_lem :
        (row : Row) (mine : List Row) (found : Option Group) (g' : Group) (after : Option Group)
        → own_row m trie reg returns row found ≡ ok g'
        → grouped reg returns (some g') mine ≡ ok after
        → grouped reg returns found (row ∷ mine) ≡ ok after
    unfolding group_or_new new_group
    own_lem row mine (some g) g' after own rest = stepped_lem row mine g g' after own rest
    own_lem row mine none g' after own rest =
        let (g, made, h1) = bind-ok (group_or_new m trie reg returns row.0 none) _ own in
        let (fs, got, h2) = bind-ok (get_agg_funcs reg returns.elements) _ made in
        rw got (
          stepped_lem row mine (new_group row.0 fs) g' after
            (ap (step_group m trie row.1) (ok-injective h2) ∙ h1) rest)

    own_rows-grouped :
        (k : Text) (rows : List Row) (found after : Option Group)
        → own_rows m trie reg returns k rows found ≡ ok after
        → (mine : List Row) × (rows_of k rows ≡ ok mine)
          × (grouped reg returns found mine ≡ ok after)
    own_rows-grouped k [] found after h = ([], refl, h)
    own_rows-grouped k (row ∷ rows) found after h =
        let (t, text, h1) = bind-ok (string_concat m row.0) _ h in
        let (next, with, h2) = bind-ok (with_row m trie reg returns k t row found) _ h1 in
        let (mine, those, rest) = own_rows-grouped k rows next after h2 in
        elim (Bool-cases (text_eq (cache_key t) k)) [
          | inl its ↦
              let (g', own, is) =
                bind-ok (own_row m trie reg returns row found) _ (rw its at with) in
              (
                row ∷ mine,
                rw (text, those, its) refl,
                own_lem row mine found g' after own
                    (ap (λ x. grouped reg returns x mine) (ok-injective is) ∙ rest),
              )
          | inr other ↦
              let same : found ≡ next = ok-injective (rw other at with) in
              (mine, rw (text, those, other) refl, ap (λ x. grouped reg returns x mine) same ∙ rest)
        ]

    -- Rows that are aggregated in turn, without a failure, leave under each key of the cache what the
    -- rows of that key alone make: the group that was there, or a new one with the values of the first
    -- row's keys and the functions of the RETURN clause, in which the function at each index has been
    -- stepped through the values at that index, in order. Without a row of the key nothing changes.
    pub aggregate_rows-grouped :
        (rows : List Row) (cache cache' : trie.Map) (k : Text)
        → aggregate_rows m trie reg returns rows cache ≡ ok cache'
        → (mine : List Row) × (rows_of k rows ≡ ok mine)
          × (grouped reg returns (trie.find cache k) mine ≡ ok (trie.find cache' k))
    aggregate_rows-grouped rows cache cache' k h =
        own_rows-grouped k rows (trie.find cache k) (trie.find cache' k)
          (aggregate_rows-own_rows m trie reg returns rows cache cache' k h)
