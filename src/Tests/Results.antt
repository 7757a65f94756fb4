-- ===== src/Tests/Results.antt =====
-- The result set: the theorems at a limit of two records and a header of two columns.
use redis_graph.Base.{
  Text, codes, true, [], ◌∷◌, List, ok, fault, false, none, some, refl, ◌≡◌, ◌+◌, length, Option,
  Run, Ordering, arith, take, if◌then◌else◌, ◌==◌,
}
use redis_graph.Value.{double_val, string_val_c}
use redis_graph.Value.Print.{string_concat}
use redis_graph.Value.Concat.{in_quotes, string_concat-joined, string_val_c-Fits}
use redis_graph.ResultSet.Distinct.{IsDistinct, offered, firsts, add_all_keeps_distinct}
use redis_graph.Value.Order.{flip}
use redis_graph.Trie.Assoc.{assoc}
use redis_graph.Query.{Query, ReturnElement, ColumnNode, n_prop, n_variable}
use redis_graph.ResultSet.{Record, HeapLib, ResultSet, records_compare, new_header, new_columns}
use redis_graph.ResultSet.Limits.{add_all, IsPlain, add_all_keeps_first}
use redis_graph.ResultSet.Order.{records_compare-flip, new_header_overflow}
use redis_graph.Tests.{machine, ltb-IsAsymmetric}

abbrev polled : List Record → Run (List Record)
polled [] = fault
polled (r ∷ rs) = ok rs

abbrev peeked : List Record → Option Record
peeked [] = none
peeked (r ∷ rs) = some r

pub count-polled : (t t' : List Record) → polled t ≡ ok t' → length t' + 1 ≡ length t
count-polled [] t' h = cc
count-polled (r ∷ rs) t' h = ground arith

pub count-offered :
    (r : Record) (t t' : List Record) → ok (r ∷ t) ≡ ok t' → length t' ≡ length t + 1
count-offered r t t' h = ground arith

-- A heap that only counts.
abbrev pub stack : HeapLib
stack = record {
  Tree = List Record;
  new = [];
  count = length;
  offer = λ cmp t r. ok (r ∷ t);
  peek = peeked;
  poll = λ cmp t. polled t;
  count-new = refl;
  count-offer = λ cmp t t' r h. count-offered r t t' h;
  count-poll = λ cmp t t' h. count-polled t t' h;
}

abbrev row : Option Record
row = some (double_val 1 ∷ double_val 2 ∷ [])

abbrev set_of_two : ResultSet stack (assoc (Unit {0}))
set_of_two = record {
  records = [];
  heap = [];
  seen = [];
  header = record { columns = []; order_bys = [] };
  aggregated = false;
  ordered = false;
  descending = false;
  limit = 2;
  distinct = false;
}

set_of_two-IsPlain : IsPlain machine stack (assoc (Unit {0})) set_of_two
set_of_two-IsPlain = record { unordered = refl; repeats = refl }

add_all_keeps_first_example :
    (set' : ResultSet stack (assoc (Unit {0}))) × (add_all machine stack
        (assoc (Unit {0}))
        set_of_two
        (row ∷ none ∷ row ∷ [])
      ≡ ok set')
    × (set'.records ≡ (
        if set_of_two.limit == 0
        then row ∷ none ∷ row ∷ []
        else take set_of_two.limit (row ∷ none ∷ row ∷ [])))
add_all_keeps_first_example =
    add_all_keeps_first machine stack (assoc (Unit {0})) set_of_two (row ∷ none ∷ row ∷ [])
      set_of_two-IsPlain refl

records_compare-flip_example :
    records_compare machine (double_val 5 ∷ []) (double_val 3 ∷ []) (some 0 ∷ [])
    ≡ ok (flip Ordering.lt)
unfolding records_compare double_val redis_graph.Value.bits
records_compare-flip_example =
    records_compare-flip machine (double_val 3 ∷ []) (double_val 5 ∷ []) (some 0 ∷ []) Ordering.lt
      ltb-IsAsymmetric refl

-- RETURN a.age ORDER BY a.age
abbrev age_column : ColumnNode
age_column = record { alias = codes "a"; property = some (codes "age"); type = n_variable }

abbrev age_element : ReturnElement
age_element = record {
  var_alias = some (codes "a");
  var_property = some (codes "age");
  func = none;
  alias = none;
  type = n_prop;
}

abbrev by_age : Query
by_age = record {
  entities = [];
  where_filters = none;
  returns = record { elements = age_element ∷ []; distinct = false };
  order = some (record { columns = age_column ∷ []; descending = false });
  limit = none;
}

new_header_overflow_example : new_header by_age ≡ fault
unfolding new_columns
new_header_overflow_example =
    new_header_overflow by_age age_column [] (codes "age")
      (record { name = codes "a.age"; alias = none }) [] refl refl refl refl

-- Two rows with the text "x", in quotes.
abbrev quoted_row : Record × Text
quoted_row = (string_val_c (codes "x") ∷ [], in_quotes (codes "x"))

quoted_row-text : string_concat machine quoted_row.0 ≡ ok quoted_row.1
quoted_row-text =
    string_concat-joined machine (string_val_c (codes "x")) [] (in_quotes (codes "x")) []
      (string_val_c-Fits machine (codes "x"), tt)

abbrev distinct_set : ResultSet stack (assoc (Unit {0}))
distinct_set = record set_of_two { limit = 0; distinct = true }

distinct_set-IsDistinct : IsDistinct machine stack (assoc (Unit {0})) distinct_set
distinct_set-IsDistinct = record { unordered = refl; unlimited = refl; once = refl }

add_all_keeps_distinct_example :
    (set' : ResultSet stack (assoc (Unit {0}))) × (add_all machine stack
        (assoc (Unit {0}))
        distinct_set
        (offered (quoted_row ∷ quoted_row ∷ []))
      ≡ ok set')
    × (set'.records ≡ firsts (λ t. false) (quoted_row ∷ quoted_row ∷ []))
add_all_keeps_distinct_example =
    add_all_keeps_distinct machine stack (assoc (Unit {0})) distinct_set
      (quoted_row ∷ quoted_row ∷ []) distinct_set-IsDistinct
      (quoted_row-text, omega arith, (quoted_row-text, omega arith, tt)) refl refl
