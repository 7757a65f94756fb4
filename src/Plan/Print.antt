-- ===== src/Plan/Print.antt =====
-- src/execution_plan/execution_plan.c: the text of a plan.
use redis_graph.Base.{
  ℕ, zero, suc, ◌+◌, List, [], ◌∷◌, ◌++◌, Run, ok, fault, out_of_fuel, ◌>>=◌, Text, length, ltb,
  if◌then◌else◌,
}
use redis_graph.Plan.{OpNode, op_node_at}

unfoldable pub spaces : ℕ → Text
spaces zero = []
spaces (suc n) = b' ' ∷ spaces n

module _ {O : Type 0} (name : O → Text) (ns : List (OpNode O)) where
  -- A line of `"%*s%s\n"`, in a buffer of 512 bytes.
  unfoldable pub plan_line : ℕ → O → Run Text
  unfolding spaces
  plan_line ident op =
      let line = spaces ident ++ (name op ++ b'\n' ∷ []) in
      if ltb (length line) 512 then ok line else fault

  unfoldable pub print_each : (ℕ → Run Text) → List ℕ → Run Text
  print_each print [] = ok []
  print_each print (c ∷ cs) = do t ← print c; more ← print_each print cs; ok (t ++ more)

  -- _ExecutionPlanPrint, the fuel for the depth of the plan.
  unfoldable pub print_from : ℕ → ℕ → ℕ → Run Text
  unfolding plan_line print_each
  print_from zero i ident = out_of_fuel
  print_from (suc fuel) i ident = do
    n ← op_node_at ns i
    line ← plan_line ident n.operation
    below ← print_each (λ c. print_from fuel c (ident + 4)) n.children
    ok (line ++ below)

  -- ExecutionPlanPrint
  unfoldable pub execution_plan_print : ℕ → ℕ → Run Text
  unfolding print_from
  execution_plan_print fuel root = print_from fuel root 0
