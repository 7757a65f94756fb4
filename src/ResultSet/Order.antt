-- ===== src/ResultSet/Order.antt =====
-- Comparing records, and the columns that ORDER BY names.
use redis_graph.Base.{
  ℕ, Option, none, some, Run, ok, fault, ◌>>=◌, deref, Text, List, [], ◌∷◌, ◌≡◌, refl, arith,
  Ordering, get_elem?, length-append,
}
use redis_graph.Value.{Machine, SiValue, bits}
use redis_graph.Value.Order.{IsAsymmetric, flip}
use redis_graph.Query.{Query, ColumnNode, n_variable}
use redis_graph.ResultSet.{
  Record, by_column, records_compare, Column, column_matches, find_column, find_columns,
  new_columns, order_columns, new_header,
}

module _ (m : Machine) (h : IsAsymmetric m.double_lt) where
  by_column-flip :
      (a b : ℕ) (rest rest' : Run Ordering) (o : Ordering)
      → (rest ≡ ok o → rest' ≡ ok (flip o))
      → by_column m.double_lt a b rest ≡ ok o
      → by_column m.double_lt b a rest' ≡ ok (flip o)
  by_column-flip a b rest rest' o k e = ground (arith, h a b, h b a)

  column-flip :
      (x y : Option SiValue) (rest rest' : Run Ordering) (o : Ordering)
      → (rest ≡ ok o → rest' ≡ ok (flip o))
      → (deref x >>= λ v. deref y >>= λ w. by_column m.double_lt (bits m v) (bits m w) rest) ≡ ok o
      → (deref y >>= λ v. deref x >>= λ w. by_column m.double_lt (bits m v) (bits m w) rest')
        ≡ ok (flip o)
  column-flip (some v) (some w) rest rest' o k e =
      by_column-flip (bits m v) (bits m w) rest rest' o k e
  column-flip (some v) none rest rest' o k e = cc
  column-flip none y rest rest' o k e = cc

-- Two records compare the other way round with the opposite sign, at any columns that both have,
-- where the machine's comparison of doubles is asymmetric.
pub records_compare-flip :
    (m : Machine) (a b : Record) (is : List (Option ℕ)) (o : Ordering)
    → IsAsymmetric m.double_lt
    → records_compare m a b is ≡ ok o
    → records_compare m b a is ≡ ok (flip o)
unfolding records_compare
records_compare-flip m a b [] o h e = ground arith
records_compare-flip m a b (none ∷ is) o h e = cc
records_compare-flip m a b (some i ∷ is) o h e =
    column-flip m h (get_elem? a i) (get_elem? b i) _ _ o (records_compare-flip m a b is o h) e

column_matches-variable :
    (o : ColumnNode) (c : Column) (k : Text)
    → o.type ≡ n_variable
    → o.property ≡ some k
    → column_matches o c ≡ fault
unfolding column_matches
column_matches-variable o c k t hk = ground (arith, length-append o.alias (b'.' ∷ k))

-- A query that orders by a variable's property, and returns something, always writes behind the
-- buffer for the column's name while its header is made.
pub new_header_overflow :
    (q : Query) (o : ColumnNode) (os : List ColumnNode) (k : Text) (c : Column) (cs : List Column)
    → order_columns q.order ≡ o ∷ os
    → o.type ≡ n_variable
    → o.property ≡ some k
    → new_columns q.returns.elements ≡ ok (c ∷ cs)
    → new_header q ≡ fault
unfolding new_header find_columns find_column
new_header_overflow q o os k c cs ho t hk hc =
    rw (hc, ho) (rw (column_matches-variable o c k t hk) refl)
