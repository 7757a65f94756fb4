-- ===== src/Value/Roundtrip.antt =====
-- Integers that are printed and parsed again.
use redis_graph.Base.{
  ℕ, suc, ◌+◌, ◌-◌, ◌*◌, ◌%◌, ◌^◌, ◌<◌, ◌≤◌, true, false, some, ok, Text, [], ◌∷◌, ◌≡◌, refl, ap,
  ◌∙◌, sym, arith, Bool-cases, inl, inr, ltb, leb, is_digit, IsDigits, digits_value, print_int,
  digits_value-print_nat, print_nat-IsDigits, print_nat-cons,
}
use mathlib.Core.Path.{subst}
use redis_graph.Value.{Machine, SiValue, bits, long_val, signed64, make, t_int64}
use redis_graph.Value.Parse.{strtoll, read_digits, read_sign, skip_spaces, parse_int, parse_value}
use redis_graph.Value.Print.{to_text}

read_digits-IsDigits :
    (acc : ℕ) (s : Text) → IsDigits s → read_digits true acc s ≡ some (digits_value acc s)
read_digits-IsDigits acc [] h = refl
read_digits-IsDigits acc (c ∷ s) h = rw (h.0) (read_digits-IsDigits (acc * 10 + (c - 48)) s h.1)

read_digits-first :
    (c : ℕ) (s : Text)
    → IsDigits (c ∷ s)
    → read_digits false 0 (c ∷ s) ≡ some (digits_value 0 (c ∷ s))
read_digits-first c s h = rw (h.0) (read_digits-IsDigits (0 * 10 + (c - 48)) s h.1)

skip_spaces-digit : (c : ℕ) (s : Text) → is_digit c ≡ true → skip_spaces (c ∷ s) ≡ c ∷ s
skip_spaces-digit c s h = ground arith

read_sign-digit : (c : ℕ) (s : Text) → is_digit c ≡ true → read_sign (c ∷ s) ≡ (false, c ∷ s)
read_sign-digit c s h = ground arith

strtoll-digits :
    (c : ℕ) (s : Text)
    → IsDigits (c ∷ s)
    → digits_value 0 (c ∷ s) < 2 ^ 63
    → strtoll (c ∷ s) ≡ some (digits_value 0 (c ∷ s))
unfolding strtoll
strtoll-digits c s h small =
    let fits : ltb (digits_value 0 (c ∷ s)) (2 ^ 63) ≡ true = ground arith in
    ground (arith, skip_spaces-digit c s h.0, read_sign-digit c s h.0, read_digits-first c s h)

strtoll-minus :
    (c : ℕ) (s : Text)
    → IsDigits (c ∷ s)
    → digits_value 0 (c ∷ s) ≤ 2 ^ 63
    → strtoll (b'-' ∷ c ∷ s) ≡ some ((2 ^ 64 - digits_value 0 (c ∷ s)) % 2 ^ 64)
unfolding strtoll
strtoll-minus c s h small =
    let fits : leb (digits_value 0 (c ∷ s)) (2 ^ 63) ≡ true = ground arith in
    ground (arith, read_digits-first c s h)

-- The text of an integer of 64 bits is read as its two's complement pattern.
pub strtoll-signed64 : (w : ℕ) → w < 2 ^ 64 → strtoll (print_int (signed64 w)) ≡ some w
unfolding print_int
strtoll-signed64 w h = elim (Bool-cases (ltb w (2 ^ 63))) [
  | inl plus ↦
      let below : w < 2 ^ 63 = ground arith in
      let (c, s, e) = print_nat-cons w in
      let digits : IsDigits (c ∷ s) = subst IsDigits e (print_nat-IsDigits w) in
      let value : digits_value 0 (c ∷ s) ≡ w =
        ap (digits_value 0) (sym e) ∙ digits_value-print_nat w in
      rw (plus, e) (strtoll-digits c s digits (omega (arith, value, below)) ∙ ap some value)
  | inr minus ↦
      let above : 2 ^ 63 ≤ w = ground arith in
      let n = suc (2 ^ 64 - 1 - w) in
      let (c, s, e) = print_nat-cons n in
      let digits : IsDigits (c ∷ s) = subst IsDigits e (print_nat-IsDigits n) in
      let value : digits_value 0 (c ∷ s) ≡ n =
        ap (digits_value 0) (sym e) ∙ digits_value-print_nat n in
      rw (minus, e)
        (strtoll-minus c s digits (omega (arith, value, above))
          ∙ ap some (omega (arith, value, above)))
]

parse_int-signed64 :
    (m : Machine) (v : SiValue) (w : ℕ)
    → w < 2 ^ 64
    → v.type ≡ t_int64
    → parse_int m v (print_int (signed64 w)) ≡ some (make w t_int64)
unfolding parse_int
parse_int-signed64 m v w h typed = ground (arith, strtoll-signed64 w h, typed)

-- An integer of 64 bits that SIValue_ToString prints, SI_ParseValue reads back from the text into
-- any value that has the integer's type.
pub parse_value-to_text :
    (m : Machine) (v : SiValue) (w n : ℕ)
    → w < 2 ^ 64
    → v.type ≡ t_int64
    → (t : Text) × (to_text m (long_val w) ≡ ok t) × (parse_value m v t n ≡ some (long_val w))
unfolding parse_value to_text long_val bits
parse_value-to_text m v w n h typed =
    let same : w % 2 ^ 64 ≡ w = omega arith in
    (print_int (signed64 w), rw same refl, ground (arith, typed, parse_int-signed64 m v w h typed))
