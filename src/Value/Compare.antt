-- ===== src/Value/Compare.antt =====
-- src/value_cmp.c and the macro of src/value_cmp.h. A comparison's int is an Ordering: `lt` below 0,
-- `eq` 0, `gt` above 0. The arguments are pointers, and a NULL one is read without a test.
use Prim.Native.Nat.{min}
use redis_graph.Base.{
  ℕ, zero, suc, ◌+◌, ◌%◌, ◌^◌, Bool, ◌||◌, Option, Run, ok, ◌>>=◌, deref, Text, lower, Ordering,
  ltb, if◌then◌else◌, [], ◌∷◌,
}
use redis_graph.Value.{
  Machine, SiValue, SiString, stringval, bits, low_bits, is_inf, is_negative_inf,
}

-- The comparison functions that a filter can hold.
pub data CmpFunc : Type 0 where
  cmp_string cmp_int cmp_long cmp_uint cmp_float cmp_double : CmpFunc

-- `a < b ? -1 : (a > b ? 1 : 0)`
abbrev pub three_way : (ℕ → ℕ → Bool) → ℕ → ℕ → Ordering
three_way less a b = if less a b then Ordering.lt else if less b a then Ordering.gt else Ordering.eq

-- The two guards that all comparisons begin with.
abbrev guarded : Option SiValue → Option SiValue → Run Ordering → Run Ordering
guarded p q rest =
    if is_inf p || is_negative_inf q
    then ok Ordering.gt
    else if is_inf q || is_negative_inf p
    then ok Ordering.lt
    else rest

-- GENERIC_CMP_FUNC_IMPL
unfoldable pub cmp_generic :
    (ℕ → ℕ → Bool) → (SiValue → ℕ) → Option SiValue → Option SiValue → Run Ordering
unfolding is_inf is_negative_inf
cmp_generic less member p q =
    guarded p q (deref p >>= λ v. deref q >>= λ w. ok (three_way less (member v) (member w)))

-- `strncasecmp` over the first n bytes.
unfoldable pub strncasecmp : ℕ → Text → Text → Ordering
strncasecmp zero s t = Ordering.eq
strncasecmp (suc n) [] [] = Ordering.eq
strncasecmp (suc n) [] (b ∷ t) = Ordering.lt
strncasecmp (suc n) (a ∷ s) [] = Ordering.gt
strncasecmp (suc n) (a ∷ s) (b ∷ t) =
    let rest = strncasecmp n s t in
    if ltb (lower a) (lower b)
    then Ordering.lt
    else if ltb (lower b) (lower a)
    then Ordering.gt
    else rest

-- Of two strings that agree as far as the shorter goes, the longer one wins.
unfoldable pub longer_wins : Ordering → ℕ → ℕ → Ordering
longer_wins Ordering.eq n k = three_way ltb n k
longer_wins Ordering.lt n k = Ordering.lt
longer_wins Ordering.gt n k = Ordering.gt

-- The comparison of two strings that cmp_string makes when neither value is infinite.
unfoldable pub compare_strings : SiString → SiString → Ordering
unfolding strncasecmp longer_wins
compare_strings s t = longer_wins (strncasecmp (min t.len s.len) s.str t.str) s.len t.len

unfoldable pub compare_string_values : Option SiValue → Option SiValue → Run Ordering
unfolding is_inf is_negative_inf
compare_string_values p q =
    guarded p q
      (do v ← deref p; w ← deref q; s ← stringval v; t ← stringval w; ok (compare_strings s t))

-- Signed order of patterns of 32 and of 64 bits.
abbrev pub less32 : ℕ → ℕ → Bool
less32 a b = ltb ((a + 2 ^ 31) % 2 ^ 32) ((b + 2 ^ 31) % 2 ^ 32)

abbrev pub less64 : ℕ → ℕ → Bool
less64 a b = ltb ((a + 2 ^ 63) % 2 ^ 64) ((b + 2 ^ 63) % 2 ^ 64)

module _ (m : Machine) where
  -- The six functions, by name.
  unfoldable pub run_cmp : CmpFunc → Option SiValue → Option SiValue → Run Ordering
  run_cmp cmp_string = compare_string_values
  run_cmp cmp_int = cmp_generic less32 (low_bits m)
  run_cmp cmp_long = cmp_generic less64 (bits m)
  run_cmp cmp_uint = cmp_generic ltb (bits m)
  run_cmp cmp_float = cmp_generic m.float_lt (low_bits m)
  run_cmp cmp_double = cmp_generic m.double_lt (bits m)
