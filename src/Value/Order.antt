-- ===== src/Value/Order.antt =====
-- The comparisons as orders.
use Prim.Native.Nat.{min}
use redis_graph.Base.{
  ℕ, zero, suc, ◌≡◌, refl, Ordering, Text, [], ◌∷◌, length, arith, ltb, text_caseeq, ok, fault,
  out_of_fuel, ◌>>=◌, some, ◌==◌, ◌≢◌, false, true, Bool-cases, inl, inr, ◌↔◌, Bool, Run,
}
use redis_graph.Value.{
  Machine, SiValue, SiString, is_inf, is_negative_inf, wrap_string, stringval, bits, low_bits,
}
use redis_graph.Value.Compare.{
  CmpFunc, cmp_string, cmp_int, cmp_long, cmp_uint, cmp_float, cmp_double, three_way, less32,
  less64, strncasecmp, longer_wins, compare_strings, run_cmp, cmp_generic, compare_string_values,
}

-- The sign of the comparison the other way round.
abbrev pub flip : Ordering → Ordering
flip Ordering.lt = Ordering.gt
flip Ordering.eq = Ordering.eq
flip Ordering.gt = Ordering.lt

strncasecmp-flip : (n : ℕ) (s t : Text) → strncasecmp n t s ≡ flip (strncasecmp n s t)
unfolding strncasecmp
strncasecmp-flip zero s t = refl
strncasecmp-flip (suc n) [] [] = refl
strncasecmp-flip (suc n) [] (b ∷ t) = refl
strncasecmp-flip (suc n) (a ∷ s) [] = refl
strncasecmp-flip (suc n) (a ∷ s) (b ∷ t) = ground (arith, strncasecmp-flip n s t)

longer_wins-flip : (o : Ordering) (n k : ℕ) → longer_wins (flip o) k n ≡ flip (longer_wins o n k)
unfolding longer_wins
longer_wins-flip Ordering.lt n k = refl
longer_wins-flip Ordering.eq n k = ground arith
longer_wins-flip Ordering.gt n k = refl

compare_strings-flip : (s t : SiString) → compare_strings t s ≡ flip (compare_strings s t)
unfolding compare_strings
compare_strings-flip s t =
    let same : min s.len t.len ≡ min t.len s.len = omega arith in
    rw (same, strncasecmp-flip (min t.len s.len) s.str t.str)
      (longer_wins-flip (strncasecmp (min t.len s.len) s.str t.str) s.len t.len)

abbrev pub IsAsymmetric : (ℕ → ℕ → Bool) → Type 0
IsAsymmetric less = (a b : ℕ) → less a b ≡ true → less b a ≡ false

-- Of the machine: neither comparison of floats holds both ways round.
pub record HasAsymmetricFloats (m : Machine) : Type 0 where
  pub float_lt_asym : IsAsymmetric m.float_lt
  pub double_lt_asym : IsAsymmetric m.double_lt

three_way-flip :
    (less : ℕ → ℕ → Bool) (a b : ℕ)
    → IsAsymmetric less
    → three_way less b a ≡ flip (three_way less a b)
three_way-flip less a b h = ground (arith, h a b, h b a)

abbrev pub IsFinite : SiValue → Type 0
IsFinite v = (is_inf (some v) ≡ false) × (is_negative_inf (some v) ≡ false)

module _ (less : ℕ → ℕ → Bool) (member : SiValue → ℕ) (v w : SiValue) where
  cmp_generic-flip :
      IsAsymmetric less
      → IsFinite v
      → IsFinite w
      → (o : Ordering) → cmp_generic less member (some v) (some w) ≡ ok o
      → cmp_generic less member (some w) (some v) ≡ ok (flip o)
  unfolding cmp_generic
  cmp_generic-flip h hv hw o e = ground (arith, h (member v) (member w), h (member w) (member v))

compared-flip :
    (r q : Run SiString) (o : Ordering)
    → (r >>= λ s. q >>= λ t. ok (compare_strings s t)) ≡ ok o
    → (q >>= λ s. r >>= λ t. ok (compare_strings s t)) ≡ ok (flip o)
compared-flip (ok s) (ok t) o e = cc (compare_strings-flip s t)
compared-flip (ok s) fault o e = cc
compared-flip (ok s) out_of_fuel o e = cc
compared-flip fault q o e = cc
compared-flip out_of_fuel q o e = cc

compare_string_values-flip :
    (v w : SiValue)
    → IsFinite v
    → IsFinite w
    → (o : Ordering) → compare_string_values (some v) (some w) ≡ ok o
    → compare_string_values (some w) (some v) ≡ ok (flip o)
unfolding compare_string_values
compare_string_values-flip v w hv hw o e =
    ground (arith, compared-flip (stringval v) (stringval w) o)

-- Two finite values compare the other way round with the opposite sign, by each comparison
-- function, where the machine's float comparisons are asymmetric.
pub run_cmp-flip :
    (m : Machine) (f : CmpFunc) (v w : SiValue)
    → HasAsymmetricFloats m
    → IsFinite v
    → IsFinite w
    → (o : Ordering) → run_cmp m f (some v) (some w) ≡ ok o
    → run_cmp m f (some w) (some v) ≡ ok (flip o)
unfolding run_cmp
run_cmp-flip m cmp_string v w h hv hw = compare_string_values-flip v w hv hw
run_cmp-flip m cmp_int v w h hv hw =
    cmp_generic-flip less32 (low_bits m) v w (λ a b e. ground arith) hv hw
run_cmp-flip m cmp_long v w h hv hw =
    cmp_generic-flip less64 (bits m) v w (λ a b e. ground arith) hv hw
run_cmp-flip m cmp_uint v w h hv hw =
    cmp_generic-flip ltb (bits m) v w (λ a b e. ground arith) hv hw
run_cmp-flip m cmp_float v w h hv hw =
    cmp_generic-flip m.float_lt (low_bits m) v w h.float_lt_asym hv hw
run_cmp-flip m cmp_double v w h hv hw =
    cmp_generic-flip m.double_lt (bits m) v w h.double_lt_asym hv hw

caseeq-length : (s t : Text) → text_caseeq s t ≡ true → length s ≡ length t
caseeq-length [] [] h = refl
caseeq-length [] (b ∷ t) h = cc
caseeq-length (a ∷ s) [] h = cc
caseeq-length (a ∷ s) (b ∷ t) h = ground (arith, caseeq-length s t)

strncasecmp-caseeq :
    (s t : Text)
    → length s ≡ length t
    → (strncasecmp (length s) s t ≡ Ordering.eq) ↔ (text_caseeq s t ≡ true)
unfolding strncasecmp
strncasecmp-caseeq [] [] h = (λ _. refl, λ _. refl)
strncasecmp-caseeq [] (b ∷ t) h = absurd (omega arith)
strncasecmp-caseeq (a ∷ s) [] h = absurd (omega arith)
strncasecmp-caseeq (a ∷ s) (b ∷ t) h = ground (arith, strncasecmp-caseeq s t)

longer_wins-eq : (o : Ordering) (n k : ℕ) → longer_wins o n k ≡ Ordering.eq → n ≡ k
unfolding longer_wins
longer_wins-eq Ordering.eq n k h = ground arith
longer_wins-eq Ordering.lt n k h = cc
longer_wins-eq Ordering.gt n k h = cc

-- Two whole C strings compare equal exactly if they differ only in the case of letters.
pub compare_strings-eq_iff :
    (s t : Text)
    → (compare_strings (wrap_string s) (wrap_string t) ≡ Ordering.eq) ↔ (text_caseeq s t ≡ true)
unfolding compare_strings longer_wins wrap_string
compare_strings-eq_iff s t = elim (Bool-cases (length s == length t)) [
  | inl same ↦
      let even : length s ≡ length t = ground arith in
      let n : min (length t) (length s) ≡ length s = omega arith in
      rw n (ground (arith, strncasecmp-caseeq s t even))
  | inr differ ↦
      let uneven : length s ≢ length t = ground arith in
      (
        λ e. absurd (uneven (longer_wins-eq _ (length s) (length t) e)),
        λ c. absurd (uneven (caseeq-length s t c)),
      )
]
