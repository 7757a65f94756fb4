-- ===== src/Hexastore/Keys.antt =====
-- The keys: how long they are, and what their separators keep apart.
use redis_graph.Base.{
  ℕ, suc, ◌+◌, ◌^◌, ◌≤◌, ◌<◌, false, ◌&&◌, Text, [], ◌∷◌, ◌++◌, ◌≡◌, refl, length, arith, ℤ, pos,
  negsuc, print_int, print_nat, print_nat-IsDigits, length-print_nat, IsDigits, length-append,
  has_byte, is_prefix, text_eq, is_digit,
}
use redis_graph.Hexastore.{key}

-- Identifiers are a `long` of 64 bits.
abbrev pub IsLong : ℤ → Type 0
IsLong (pos n) = n < 2 ^ 63
IsLong (negsuc n) = n < 2 ^ 63

pub length-print_int : (i : ℤ) → IsLong i → length (print_int i) ≤ 20
unfolding print_int
length-print_int (pos n) h = omega (arith, length-print_nat 18 n (omega arith))
length-print_int (negsuc n) h = omega (arith, length-print_nat 18 (suc n) (omega arith))

pub length-key :
    (tag a b c : Text) → length (key tag a b c) ≡ length tag + length a + length b + length c + 2
length-key tag a b c = omega (
  arith,
  length-append tag (a ++ b':' ∷ (b ++ b':' ∷ c)),
  length-append a (b':' ∷ (b ++ b':' ∷ c)),
  length-append b (b':' ∷ c),
)

-- A separator that neither text holds keeps the texts apart.
pub is_prefix-separated :
    (x : ℕ) (s t q r : Text)
    → has_byte x s ≡ false
    → has_byte x t ≡ false
    → is_prefix (s ++ x ∷ q) (t ++ x ∷ r) ≡ (text_eq s t && is_prefix q r)
is_prefix-separated x [] [] q r hs ht = ground arith
is_prefix-separated x [] (b ∷ t) q r hs ht = ground arith
is_prefix-separated x (a ∷ s) [] q r hs ht = ground arith
is_prefix-separated x (a ∷ s) (b ∷ t) q r hs ht = ground (arith, is_prefix-separated x s t q r)

has_byte-IsDigits : (x : ℕ) (s : Text) → is_digit x ≡ false → IsDigits s → has_byte x s ≡ false
has_byte-IsDigits x [] h d = refl
has_byte-IsDigits x (c ∷ s) h d = ground (arith, has_byte-IsDigits x s)

-- A printed number holds no colon.
pub has_byte-print_int : (i : ℤ) → has_byte b':' (print_int i) ≡ false
unfolding print_int
has_byte-print_int (pos n) = has_byte-IsDigits b':' (print_nat n) refl (print_nat-IsDigits n)
has_byte-print_int (negsuc n) =
    has_byte-IsDigits b':' (print_nat (suc n)) refl (print_nat-IsDigits (suc n))
