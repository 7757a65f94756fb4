-- ===== src/Base/Strings.antt =====
-- C strings: the bytes before the terminating NUL. `strcmp(a, b) == 0` is `text_eq a b`.
use Prim.Native.Nat.{ℕ, ◌+◌}
use Prim.Native.Char.{code}
use Prim.Native.String.{String}
use mathlib.Core.Path.{◌≡◌, refl}
use mathlib.Core.Logic.{◌↔◌, ◌≢◌, inl, inr}
use mathlib.Core.Bool.{Bool, true, false, ◌&&◌}
use mathlib.Core.List.{List, [], ◌∷◌, ◌++◌}
use native.Mathlib.Omega.{arith}
use redis_graph.Base.Tests.{◌==◌, Bool-cases, leb, if◌then◌else◌}

abbrev pub Text : Type 0
Text = List ℕ

-- The bytes of an ASCII literal.
abbrev pub codes : String → Text
codes String.[] = []
codes (String.◌∷◌ c s) = code c ∷ codes s

abbrev pub text_eq : Text → Text → Bool
text_eq [] [] = true
text_eq [] (b ∷ t) = false
text_eq (a ∷ s) [] = false
text_eq (a ∷ s) (b ∷ t) = a == b && text_eq s t

pub text_eq→≡ : (s t : Text) → text_eq s t ≡ true → s ≡ t
text_eq→≡ [] [] h = refl
text_eq→≡ [] (b ∷ t) h = cc
text_eq→≡ (a ∷ s) [] h = cc
text_eq→≡ (a ∷ s) (b ∷ t) h = ground (arith, text_eq→≡ s t)

pub text_eq_refl : (s : Text) → text_eq s s ≡ true
text_eq_refl [] = refl
text_eq_refl (a ∷ s) = ground (arith, text_eq_refl s)

pub text_eq_iff : (s t : Text) → (text_eq s t ≡ true) ↔ (s ≡ t)
text_eq_iff s t = (text_eq→≡ s t, λ e. rw e (text_eq_refl t))

-- `tolower` of the C locale.
abbrev pub lower : ℕ → ℕ
lower c = if leb b'A' c && leb c b'Z' then c + 32 else c

-- `!strcasecmp(s, t)`
abbrev pub text_caseeq : Text → Text → Bool
text_caseeq [] [] = true
text_caseeq [] (b ∷ t) = false
text_caseeq (a ∷ s) [] = false
text_caseeq (a ∷ s) (b ∷ t) = lower a == lower b && text_caseeq s t

-- Whether the first text is a prefix of the second.
abbrev pub is_prefix : Text → Text → Bool
is_prefix [] t = true
is_prefix (a ∷ s) [] = false
is_prefix (a ∷ s) (b ∷ t) = a == b && is_prefix s t

-- Whether the byte stands in the text.
abbrev pub has_byte : ℕ → Text → Bool
has_byte c [] = false
has_byte c (b ∷ t) = if b == c then true else has_byte c t

pub is_prefix-append : (s t : Text) → is_prefix s (s ++ t) ≡ true
is_prefix-append [] t = refl
is_prefix-append (a ∷ s) t = ground (arith, is_prefix-append s t)

pub is_prefix-same : (p s t : Text) → is_prefix (p ++ s) (p ++ t) ≡ is_prefix s t
is_prefix-same [] s t = refl
is_prefix-same (a ∷ p) s t = ground (arith, is_prefix-same p s t)

pub text_ne : (s t : Text) → s ≢ t → text_eq s t ≡ false
text_ne s t h = elim (Bool-cases (text_eq s t)) [ inl e ↦ absurd (h (text_eq→≡ s t e)) | inr e ↦ e ]
