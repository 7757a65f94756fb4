-- ===== src/Aggregate.antt =====
-- src/aggregate/: the aggregation functions, each a context with a step and a final reduction, and
-- the registry in which a query finds them by name.
pub mod Laws
use redis_graph.Base.{
  ℕ, zero, suc, ◌+◌, ◌%◌, Bool, true, false, Option, none, some, Text, codes, text_caseeq, List, [],
  ◌∷◌, ◌++◌, ltb, if◌then◌else◌,
}
use redis_graph.Value.{Machine, SiValue, to_double, is_null, double_val, null_val}

-- AGG_OK and AGG_ERR.
pub data Status : Type 0 where
  agg_ok agg_err : Status

-- The function context: the type is fixed when the context is made, and says which step it has.
pub data FuncCtx : Type 0 where
  sum : ℕ → ℕ → FuncCtx
  avg : ℕ → ℕ → FuncCtx
  max : ℕ → FuncCtx
  min : ℕ → FuncCtx
  count : ℕ → FuncCtx

pub record AggCtx : Type 0 where
  pub fctx : FuncCtx
  pub err : Option Text
  pub result : SiValue

-- Agg_NewCtx and Agg_Reduce: Step and ReduceNext are those of the function context.
unfoldable pub reduce : FuncCtx → AggCtx
unfolding null_val
reduce f = record { fctx = f; err = none; result = null_val }

unfoldable pub set_error : AggCtx → Text → AggCtx × Status
set_error c e = (record c { err = some e }, agg_err)

unfoldable pub set_result : AggCtx → SiValue → AggCtx
set_result c v = record c { result = v }

-- What each step does with a value that is no number: NULL is passed over.
unfoldable pub not_a_number : AggCtx → SiValue → Text → AggCtx × Status
unfolding set_error is_null
not_a_number c v e = if is_null v then (c, agg_ok) else set_error c e

module _ (m : Machine) where
  unfoldable pub sum_step : AggCtx → ℕ → ℕ → SiValue → AggCtx × Status
  unfolding not_a_number
  sum_step c num total v = elim (to_double m v) [
    | none ↦ not_a_number c v (codes "SUM Could not convert upstream value to double")
    | some n ↦ (record c { fctx = sum (num + 1) (m.double_add total n) }, agg_ok)
  ]

  unfoldable pub avg_step : AggCtx → ℕ → ℕ → SiValue → AggCtx × Status
  unfolding not_a_number
  avg_step c num total v = elim (to_double m v) [
    | none ↦ not_a_number c v (codes "AVG Could not convert upstream value to double")
    | some n ↦ (record c { fctx = avg (num + 1) (m.double_add total n) }, agg_ok)
  ]

  unfoldable pub max_step : AggCtx → ℕ → SiValue → AggCtx × Status
  unfolding not_a_number
  max_step c top v = elim (to_double m v) [
    | none ↦ not_a_number c v (codes "MAX Could not convert upstream value to double")
    | some n ↦ (record c { fctx = max (if m.double_lt top n then n else top) }, agg_ok)
  ]

  unfoldable pub min_step : AggCtx → ℕ → SiValue → AggCtx × Status
  unfolding not_a_number
  min_step c low v = elim (to_double m v) [
    | none ↦ not_a_number c v (codes "MIN Could not convert upstream value to double")
    | some n ↦ (record c { fctx = min (if m.double_lt n low then n else low) }, agg_ok)
  ]

  unfoldable pub count_step : AggCtx → ℕ → SiValue → AggCtx × Status
  count_step c n v = (record c { fctx = count (n + 1) }, agg_ok)

  -- Agg_Step
  unfoldable pub step : AggCtx → SiValue → AggCtx × Status
  unfolding sum_step avg_step max_step min_step count_step
  step c v = elim c.fctx [
    | sum n t ↦ sum_step c n t v
    | avg n t ↦ avg_step c n t v
    | max t ↦ max_step c t v
    | min t ↦ min_step c t v
    | count n ↦ count_step c n v
  ]

  unfoldable pub sum_result : ℕ → SiValue
  unfolding double_val
  sum_result total = double_val total

  unfoldable pub avg_result : ℕ → ℕ → SiValue
  unfolding double_val
  avg_result n total =
      if ltb 0 n then double_val (m.double_div total (m.double_of_uint n)) else double_val 0

  unfoldable pub count_result : ℕ → SiValue
  unfolding double_val
  count_result n = double_val (m.double_of_uint n)

  -- Agg_Finalize; it always returns AGG_OK.
  unfoldable pub finalize : AggCtx → AggCtx
  unfolding set_result sum_result avg_result count_result double_val
  finalize c = elim c.fctx [
    | sum n t ↦ set_result c (sum_result t)
    | avg n t ↦ set_result c (avg_result n t)
    | max t ↦ set_result c (double_val t)
    | min t ↦ set_result c (double_val t)
    | count n ↦ set_result c (count_result n)
  ]

  -- The init functions. A double's word is 0 for 0.0.
  unfoldable pub sum_func : AggCtx
  unfolding reduce
  sum_func = reduce (sum 0 0)

  unfoldable pub avg_func : AggCtx
  unfolding reduce
  avg_func = reduce (avg 0 0)

  unfoldable pub max_func : AggCtx
  unfolding reduce
  max_func = reduce (max m.double_min)

  unfoldable pub min_func : AggCtx
  unfolding reduce
  min_func = reduce (min m.double_max)

  unfoldable pub count_func : AggCtx
  unfolding reduce
  count_func = reduce (count 0)

-- The registry: names with the context that the init function makes.
abbrev pub Registry : Type 0
Registry = List (Text × AggCtx)

unfoldable pub register_func : Registry → Text → AggCtx → Registry
register_func reg name f = reg ++ (name, f) ∷ []

-- Agg_GetFunc: the first entry of that name, whatever its case.
unfoldable pub get_func : Registry → Text → Option AggCtx
get_func [] name = none
get_func ((k, f) ∷ reg) name =
    let rest = get_func reg name in if text_caseeq name k then some f else rest

unfoldable pub register_funcs : Machine → Registry → Registry
unfolding register_func sum_func avg_func max_func min_func count_func
register_funcs m reg =
    let r1 = register_func reg (codes "sum") (sum_func m) in
    let r2 = register_func r1 (codes "avg") (avg_func m) in
    let r3 = register_func r2 (codes "max") (max_func m) in
    let r4 = register_func r3 (codes "min") (min_func m) in
    register_func r4 (codes "count") (count_func m)

-- The values of one group, stepped in order; the status of a step is not looked at.
unfoldable pub step_all : Machine → AggCtx → List SiValue → AggCtx
step_all m c [] = c
step_all m c (v ∷ vs) = step_all m (step m c v).0 vs
