-- ===== src/Base/Numbers.antt =====
-- Decimal output of the printf family, and the integers that identifiers are.
use Prim.Native.Nat.{ℕ, zero, suc, ◌+◌, ◌-◌, ◌*◌, ◌/◌, ◌%◌, ◌^◌, ◌≤◌, ◌<◌}
use mathlib.Core.Path.{◌≡◌, refl, ap, ◌∙◌, sym, subst}
use mathlib.Core.Logic.{inl, inr}
use mathlib.Core.Bool.{Bool, true, false, ◌&&◌}
use mathlib.Core.List.{[], ◌∷◌, ◌++◌}
use native.Mathlib.Omega.{arith}
use native.Mathlib.Nat.{pow-suc}
use redis_graph.Base.Tests.{ltb, leb, if◌then◌else◌, Bool-cases}
use redis_graph.Base.Lists.{length, length-append, All}
use redis_graph.Base.Strings.{Text}

-- `negsuc n` is -(n + 1).
pub data ℤ : Type 0 where
  pos : ℕ → ℤ
  negsuc : ℕ → ℤ

print_digits : ℕ → ℕ → Text
print_digits zero n = []
print_digits (suc f) n =
    let more = print_digits f (n / 10) ++ (48 + n % 10) ∷ [] in
    if ltb n 10 then (48 + n) ∷ [] else more

-- `%lu`
unfoldable pub print_nat : ℕ → Text
unfolding print_digits
print_nat n = print_digits (suc n) n

-- `%ld`
unfoldable pub print_int : ℤ → Text
unfolding print_nat
print_int (pos n) = print_nat n
print_int (negsuc n) = b'-' ∷ print_nat (suc n)

-- The value of a run of digits, after the digits read so far.
abbrev pub digits_value : ℕ → Text → ℕ
digits_value acc [] = acc
digits_value acc (c ∷ t) = digits_value (acc * 10 + (c - 48)) t

abbrev pub is_digit : ℕ → Bool
is_digit c = leb b'0' c && leb c b'9'

abbrev pub IsDigits : Text → Type 0
IsDigits = All (λ c. is_digit c ≡ true)

pub digits_value-append :
    (acc : ℕ) (s t : Text) → digits_value acc (s ++ t) ≡ digits_value (digits_value acc s) t
digits_value-append acc [] t = refl
digits_value-append acc (c ∷ s) t = digits_value-append (acc * 10 + (c - 48)) s t

digits_value-print_digits : (f n : ℕ) → n < f → digits_value 0 (print_digits f n) ≡ n
unfolding print_digits
digits_value-print_digits zero n h = absurd (omega arith)
digits_value-print_digits (suc f) n h = elim (Bool-cases (ltb n 10)) [
  | inl small ↦ rw small (omega arith)
  | inr large ↦ rw large (
      digits_value-append 0 (print_digits f (n / 10)) ((48 + n % 10) ∷ [])
      ∙ rw (digits_value-print_digits f (n / 10) (ground arith)) (omega arith))
]

pub digits_value-print_nat : (n : ℕ) → digits_value 0 (print_nat n) ≡ n
unfolding print_nat
digits_value-print_nat n = digits_value-print_digits (suc n) n (omega arith)

pub print_nat-injective : (m n : ℕ) → print_nat m ≡ print_nat n → m ≡ n
print_nat-injective m n e =
    sym (digits_value-print_nat m) ∙ ap (digits_value 0) e ∙ digits_value-print_nat n

IsDigits-append : (s t : Text) → IsDigits s → IsDigits t → IsDigits (s ++ t)
IsDigits-append [] t hs ht = ht
IsDigits-append (c ∷ s) t hs ht = (hs.0, IsDigits-append s t hs.1 ht)

print_digits-IsDigits : (f n : ℕ) → IsDigits (print_digits f n)
unfolding print_digits
print_digits-IsDigits zero n = tt
print_digits-IsDigits (suc f) n = elim (Bool-cases (ltb n 10)) [
  | inl small ↦ rw small (ground arith, tt)
  | inr large ↦ rw large (
      IsDigits-append (print_digits f (n / 10)) _ (print_digits-IsDigits f (n / 10))
        (ground arith, tt))
]

pub print_nat-IsDigits : (n : ℕ) → IsDigits (print_nat n)
unfolding print_nat
print_nat-IsDigits n = print_digits-IsDigits (suc n) n

div_ten_lt : (k n : ℕ) → n < 10 ^ suc (suc k) → n / 10 < 10 ^ suc k
div_ten_lt k n h = omega (arith, pow-suc 10 (suc k))

-- A number below 10 ^ k, for k ≥ 1, prints in at most k bytes.
length-print_digits : (f k n : ℕ) → n < 10 ^ suc k → length (print_digits f n) ≤ suc k
unfolding print_digits
length-print_digits zero k n h = omega arith
length-print_digits (suc f) zero n h = ground arith
length-print_digits (suc f) (suc k) n h = elim (Bool-cases (ltb n 10)) [
  | inl small ↦ rw small (omega arith)
  | inr large ↦ rw large (
      omega (
        arith,
        length-append (print_digits f (n / 10)) ((48 + n % 10) ∷ []),
        length-print_digits f k (n / 10) (div_ten_lt k n h),
      ))
]

pub length-print_nat : (k n : ℕ) → n < 10 ^ suc k → length (print_nat n) ≤ suc k
unfolding print_nat
length-print_nat k n h = length-print_digits (suc n) k n h

print_digits-fuel : (f f' n : ℕ) → n < f → n < f' → print_digits f n ≡ print_digits f' n
unfolding print_digits
print_digits-fuel zero f' n h h' = absurd (omega arith)
print_digits-fuel (suc f) zero n h h' = absurd (omega arith)
print_digits-fuel (suc f) (suc f') n h h' = elim (Bool-cases (ltb n 10)) [
  | inl small ↦ rw small refl
  | inr large ↦ rw large (
      ap (λ s. s ++ (48 + n % 10) ∷ [])
        (print_digits-fuel f f' (n / 10) (ground arith) (ground arith)))
]

-- One more digit at the end.
pub print_nat-digit :
    (n d : ℕ) → 0 < n → d < 10 → print_nat (n * 10 + d) ≡ print_nat n ++ (48 + d) ∷ []
unfolding print_nat print_digits
print_nat-digit n d h k =
    let large : ltb (n * 10 + d) 10 ≡ false = ground arith in
    let front : (n * 10 + d) / 10 ≡ n = omega arith in
    let last : (n * 10 + d) % 10 ≡ d = omega arith in
    rw (large, front, last)
      (ap (λ s. s ++ (48 + d) ∷ [])
        (print_digits-fuel (n * 10 + d) (suc n) n (omega arith) (omega arith)))

pub print_int-injective : (i j : ℤ) → print_int i ≡ print_int j → i ≡ j
unfolding print_int
print_int-injective (pos m) (pos n) e = ap pos (print_nat-injective m n e)
print_int-injective (pos m) (negsuc n) e =
    let digits = subst IsDigits e (print_nat-IsDigits m) in cc (digits.0)
print_int-injective (negsuc m) (pos n) e =
    let digits = subst IsDigits (sym e) (print_nat-IsDigits n) in cc (digits.0)
print_int-injective (negsuc m) (negsuc n) e =
    let tails : print_nat (suc m) ≡ print_nat (suc n) = cc in
    let same = print_nat-injective (suc m) (suc n) tails in ap negsuc (omega arith)

snoc-cons : (t : Text) (x : ℕ) → (c : ℕ) × (s : Text) × (t ++ x ∷ [] ≡ c ∷ s)
snoc-cons [] x = (x, [], refl)
snoc-cons (c ∷ t) x = (c, t ++ x ∷ [], refl)

-- No number prints as the empty text.
pub print_nat-cons : (n : ℕ) → (c : ℕ) × (s : Text) × (print_nat n ≡ c ∷ s)
unfolding print_nat print_digits
print_nat-cons n = elim (Bool-cases (ltb n 10)) [
  | inl small ↦ (48 + n, [], rw small refl)
  | inr large ↦
      let (c, s, e) = snoc-cons (print_digits n (n / 10)) (48 + n % 10) in (c, s, rw large e)
]
