-- ===== src/Tests/Values.antt =====
-- Values, their text and the aggregations: the theorems at concrete values.
use redis_graph.Base.{
  Text, ◌-◌, ◌^◌, codes, text_caseeq, [], ◌∷◌, List, ok, true, false, refl, ◌≡◌, ◌↔◌, ◌⊎◌, ℕ,
  Ordering, some, if◌then◌else◌, ltb, length, All, arith,
}
use redis_graph.Base.{◌==◌, ◌||◌}
use redis_graph.Value.{Machine, to_double, SiValue, double_val, string_val_c, wrap_string, null_val}
use redis_graph.Value.Compare.{cmp_double, run_cmp, compare_strings}
use redis_graph.Value.Order.{flip, run_cmp-flip, compare_strings-eq_iff}
use redis_graph.Value.Print.{string_concat}
use redis_graph.Value.Concat.{joined, string_concat-joined, in_quotes, string_val_c-Fits}
use redis_graph.Aggregate.{finalize, step_all, sum_func, avg_func, max_func}
use redis_graph.Aggregate.Laws.{
  numbers, total_from, Among, IsOrdered, sum_of_group, avg_of_group, max_of_group,
}
use redis_graph.Value.{long_val, make, t_int64}
use redis_graph.Value.Print.{to_text}
use redis_graph.Value.Parse.{parse_value}
use redis_graph.Value.Roundtrip.{parse_value-to_text}
use redis_graph.Tests.{machine, machine-HasAsymmetricFloats}

run_cmp-flip_example :
    run_cmp machine cmp_double (some (double_val 5)) (some (double_val 3)) ≡ ok (flip Ordering.lt)
unfolding run_cmp double_val redis_graph.Value.is_inf redis_graph.Value.is_negative_inf
    redis_graph.Value.Compare.cmp_generic redis_graph.Value.bits
run_cmp-flip_example =
    run_cmp-flip machine cmp_double (double_val 3) (double_val 5) machine-HasAsymmetricFloats
      (refl, refl) (refl, refl) Ordering.lt refl

compare_strings-eq_iff_example :
    (compare_strings (wrap_string (codes "Anna")) (wrap_string (codes "aNNa")) ≡ Ordering.eq)
    ↔ (text_caseeq (codes "Anna") (codes "aNNa") ≡ true)
compare_strings-eq_iff_example = compare_strings-eq_iff (codes "Anna") (codes "aNNa")

string_concat-joined_example :
    string_concat machine (string_val_c (codes "Roi") ∷ string_val_c (codes "IL") ∷ [])
    ≡ ok (joined (in_quotes (codes "Roi") ∷ in_quotes (codes "IL") ∷ []))
string_concat-joined_example =
    string_concat-joined machine (string_val_c (codes "Roi")) (string_val_c (codes "IL") ∷ [])
      (in_quotes (codes "Roi")) (in_quotes (codes "IL") ∷ [])
      (string_val_c-Fits machine (codes "Roi"), (string_val_c-Fits machine (codes "IL"), tt))

-- A group of two numbers and a property that is missing.
abbrev group : List SiValue
group = double_val 3 ∷ null_val ∷ double_val 4 ∷ []

sum_of_group_example :
    (finalize machine (step_all machine (sum_func machine) group)).result
    ≡ double_val (total_from machine 0 (numbers machine group))
sum_of_group_example = sum_of_group machine group

avg_of_group_example : (finalize machine (step_all machine (avg_func machine) group)).result ≡ (
    if ltb 0 (length (numbers machine group))
    then double_val (
        machine.double_div
          (total_from machine 0 (numbers machine group))
          (machine.double_of_uint (length (numbers machine group))))
    else double_val 0)
avg_of_group_example = avg_of_group machine group

-- A machine on which 2000 is a NaN: no comparison with it holds.
abbrev nan_machine : Machine
nan_machine = record machine {
  double_lt = λ a b. if a == 2000 || b == 2000 then false else ltb a b;
}

abbrev IsNotNan : ℕ → Type 0
IsNotNan n = (n == 2000) ≡ false

nan_machine-IsOrdered : IsOrdered nan_machine IsNotNan
nan_machine-IsOrdered = record {
  lt_irrefl = λ a h. ground arith;
  le_trans = λ a b c h k l less less'. ground arith;
  le_of_lt = λ a b h k less. ground arith;
}

max_of_group_example :
    (r : ℕ) × ((finalize nan_machine (step_all nan_machine (max_func nan_machine) group)).result
      ≡ double_val r)
    × ((nan_machine.double_lt r nan_machine.double_min ≡ false)
        × All (λ n. nan_machine.double_lt r n ≡ false) (numbers nan_machine group)
        × ((r ≡ nan_machine.double_min) ⊎ Among r (numbers nan_machine group)))
unfolding to_double double_val null_val
max_of_group_example =
    max_of_group nan_machine IsNotNan nan_machine-IsOrdered group refl (refl, (refl, tt))

-- The pattern of -5.
parse_value-to_text_example :
    (t : Text) × (to_text machine (long_val (2 ^ 64 - 5)) ≡ ok t)
    × (parse_value machine (make 0 t_int64) t 2 ≡ some (long_val (2 ^ 64 - 5)))
parse_value-to_text_example =
    parse_value-to_text machine (make 0 t_int64) (2 ^ 64 - 5) 2 (omega arith) refl
