-- ===== src/Value/Concat.antt =====
-- The text of records and of group keys: SIValue_StringConcat.
use redis_graph.Base.{
  ℕ, suc, ◌+◌, ◌≤◌, ◌<◌, ok, Text, [], ◌∷◌, ◌++◌, List, ◌≡◌, refl, ap, sym, ◌∙◌, length, arith,
  length-append, take-all, take-length-append, lt→ltb,
}
use mathlib.Core.List.{append_assoc, append-nil}
use redis_graph.Value.{Machine, SiValue, string_val_c}
use redis_graph.Value.Print.{
  to_text, reserved, reserved_all, write_all, drop_delimiter, string_concat,
}

-- The texts with a comma behind each.
abbrev pub with_commas : List Text → Text
with_commas [] = []
with_commas (t ∷ ts) = t ++ b',' ∷ with_commas ts

-- The texts with a comma between two of them.
abbrev pub joined : List Text → Text
joined [] = []
joined (t ∷ []) = t
joined (t ∷ u ∷ ts) = t ++ b',' ∷ joined (u ∷ ts)

-- The value is written as the text, in the bytes that are reserved for it.
pub record Fits (m : Machine) (v : SiValue) (t : Text) : Type 0 where
  pub room : ℕ
  pub text : to_text m v ≡ ok t
  pub space : reserved m v ≡ ok room
  pub within : length t ≤ room

abbrev pub AllFit : Machine → List SiValue → List Text → Type 0
AllFit m [] [] = Unit
AllFit m [] (t ∷ ts) = ⊥
AllFit m (v ∷ vs) [] = ⊥
AllFit m (v ∷ vs) (t ∷ ts) = Fits m v t × AllFit m vs ts

length-with_commas-le :
    (m : Machine) (vs : List SiValue) (ts : List Text)
    → AllFit m vs ts
    → (n : ℕ) × (reserved_all m vs ≡ ok n) × (length (with_commas ts) ≤ n + length vs)
unfolding reserved_all
length-with_commas-le m [] [] h = (0, refl, omega arith)
length-with_commas-le m [] (t ∷ ts) h = absurd h
length-with_commas-le m (v ∷ vs) [] h = absurd h
length-with_commas-le m (v ∷ vs) (t ∷ ts) h =
    let (n, e, le) = length-with_commas-le m vs ts h.1 in
    (
      h.0.room + n,
      rw (h.0.space, e) refl,
      omega (arith, h.0.within, length-append t (b',' ∷ with_commas ts)),
    )

write_all-AllFit :
    (m : Machine) (size : ℕ) (out : Text) (vs : List SiValue) (ts : List Text)
    → AllFit m vs ts
    → length out + length (with_commas ts) < size
    → write_all m size out vs ≡ ok (out ++ with_commas ts)
unfolding write_all
write_all-AllFit m size out [] [] h le = rw append-nil refl
write_all-AllFit m size out [] (t ∷ ts) h le = absurd h
write_all-AllFit m size out (v ∷ vs) [] h le = absurd h
write_all-AllFit m size out (v ∷ vs) (t ∷ ts) h le =
    let split = length-append t (b',' ∷ with_commas ts) in
    let size_t = length-append t (b',' ∷ []) in
    let size_out = length-append out (t ++ b',' ∷ []) in
    rw (h.0.text, lt→ltb (length out + length t) size (omega (arith, split)))
      (write_all-AllFit m size (out ++ (t ++ b',' ∷ [])) vs ts h.1
          (omega (arith, split, size_t, size_out))
        ∙ ap ok (
            append_assoc out (t ++ b',' ∷ []) (with_commas ts)
            ∙ ap (λ s. out ++ s) (append_assoc t (b',' ∷ []) (with_commas ts))))

with_commas-joined :
    (t : Text) (ts : List Text) → with_commas (t ∷ ts) ≡ joined (t ∷ ts) ++ b',' ∷ []
with_commas-joined t [] = refl
with_commas-joined t (u ∷ us) =
    ap (λ s. t ++ b',' ∷ s) (with_commas-joined u us)
    ∙ sym (append_assoc t (b',' ∷ joined (u ∷ us)) (b',' ∷ []))

drop_delimiter-append : (s : Text) → drop_delimiter (s ++ b',' ∷ []) ≡ ok s
unfolding drop_delimiter
drop_delimiter-append [] = refl
drop_delimiter-append (c ∷ s) =
    let size : length (s ++ b',' ∷ []) ≡ suc (length s) =
      omega (arith, length-append s (b',' ∷ [])) in
    rw size (ap (λ r. ok (c ∷ r)) (take-length-append s (b',' ∷ [])))

-- The values are written one after the other with a comma between them, inside the buffer that the
-- first loop measures, if there is a value and each fits the bytes that are reserved for it.
pub string_concat-joined :
    (m : Machine) (v : SiValue) (vs : List SiValue) (t : Text) (ts : List Text)
    → AllFit m (v ∷ vs) (t ∷ ts)
    → string_concat m (v ∷ vs) ≡ ok (joined (t ∷ ts))
unfolding string_concat
string_concat-joined m v vs t ts h =
    let (n, e, le) = length-with_commas-le m (v ∷ vs) (t ∷ ts) h in
    rw (e, write_all-AllFit m (n + length (v ∷ vs) + 1) [] (v ∷ vs) (t ∷ ts) h (omega (arith)))
      (ap drop_delimiter (with_commas-joined t ts) ∙ drop_delimiter-append (joined (t ∷ ts)))

pub string_val_c-Fits : (m : Machine) (s : Text) → Fits m (string_val_c s) (b'"' ∷ (s ++ b'"' ∷ []))
unfolding to_text reserved string_val_c
string_val_c-Fits m s = record {
  room = length s + 2;
  text = rw (take-all (length s) s (omega arith)) refl;
  space = refl;
  within = omega (arith, length-append s (b'"' ∷ []));
}

abbrev pub in_quotes : Text → Text
in_quotes s = b'"' ∷ (s ++ b'"' ∷ [])

string_concat-two :
    (m : Machine) (s t : Text)
    → string_concat m (string_val_c s ∷ string_val_c t ∷ [])
      ≡ ok (in_quotes s ++ b',' ∷ in_quotes t)
string_concat-two m s t =
    string_concat-joined m (string_val_c s) (string_val_c t ∷ []) (in_quotes s) (in_quotes t ∷ [])
      (string_val_c-Fits m s, (string_val_c-Fits m t, tt))
