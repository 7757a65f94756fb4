-- ===== src/Value/Parse.antt =====
-- Parsing in src/value.c: SI_ParseValue with its three helpers, SI_StringVal_Cast and
-- SIValue_FromString.
use redis_graph.Base.{
  ℕ, zero, suc, ◌+◌, ◌-◌, ◌*◌, ◌%◌, ◌^◌, Bool, true, false, ◌&&◌, ◌||◌, Option, none, some, Run, ok,
  ◌>>=◌, Text, [], ◌∷◌, codes, length, ltb, leb, ◌==◌, is_digit, if◌then◌else◌, lower,
}
use redis_graph.Value.{
  Machine, SiType, t_string, t_int32, t_int64, t_uint, t_bool, t_float, t_double, SiValue, Payload,
  word, chars, set_low, stringval, is_type_string,
}

-- What `strtoll` skips before the number.
abbrev pub is_space : ℕ → Bool
is_space c = c == 32 || leb 9 c && leb c 13

abbrev pub skip_spaces : Text → Text
skip_spaces [] = []
skip_spaces (c ∷ t) = let rest = skip_spaces t in if is_space c then rest else c ∷ t

-- The value of the digits at the start, after those read so far; the flag says if there was one.
abbrev pub read_digits : Bool → ℕ → Text → Option ℕ
read_digits seen acc [] = if seen then some acc else none
read_digits seen acc (c ∷ t) =
    let rest = read_digits true (acc * 10 + (c - 48)) t in
    if is_digit c then rest else if seen then some acc else none

-- The sign is `true` for a minus.
abbrev pub read_sign : Text → Bool × Text
read_sign [] = (false, [])
read_sign (c ∷ t) =
    if c == b'-' then (true, t) else if c == b'+' then (false, t) else (false, c ∷ t)

-- The pattern of `strtoll(s, …, 10)`, and `none` where nothing is converted or the number is out of
-- range: the two cases in which _parseInt fails.
unfoldable pub strtoll : Text → Option ℕ
strtoll s =
    let (minus, t) = read_sign (skip_spaces s) in
    elim (read_digits false 0 t) [
      | none ↦ none
      | some n ↦
          if minus
          then (if leb n (2 ^ 63) then some ((2 ^ 64 - n) % 2 ^ 64) else none)
          else if ltb n (2 ^ 63)
          then some n
          else none
    ]

-- `strncmp(a, s, n) == 0` and `strncasecmp(a, s, n) == 0`, up to a map on bytes.
unfoldable pub same_start : (ℕ → ℕ) → ℕ → Text → Text → Bool
same_start f zero s t = true
same_start f (suc n) [] [] = true
same_start f (suc n) [] (b ∷ t) = false
same_start f (suc n) (a ∷ s) [] = false
same_start f (suc n) (a ∷ s) (b ∷ t) = f a == f b && same_start f n s t

unfoldable pub parse_bool : Text → ℕ → Option ℕ
unfolding same_start
parse_bool s n =
    if n == 1 && same_start (λ c. c) n (codes "1") s
      || n == 4 && same_start lower n (codes "true") s
    then some 1
    else if n == 1 && same_start (λ c. c) n (codes "0") s
        || n == 5 && same_start lower n (codes "false") s
    then some 0
    else none

-- A byte that keeps the text numeric.
abbrev pub is_numeric : ℕ → Bool
is_numeric c = is_digit c || c == b'.' || c == b'-'

abbrev pub all_numeric : Text → Bool
all_numeric [] = true
all_numeric (c ∷ s) = is_numeric c && all_numeric s

module _ (m : Machine) where
  unfoldable pub parse_int : SiValue → Text → Option SiValue
  unfolding strtoll set_low
  parse_int v s = elim (strtoll s) [
    | none ↦ none
    | some w ↦ elim v.type [
      | t_int32 ↦ some (record v { payload = set_low m v w })
      | t_int64 ↦ some (record v { payload = word w })
      | t_uint ↦ some (record v { payload = word w })
      | _ ↦ none
    ]
  ]

  unfoldable pub parse_float : SiValue → Text → Option SiValue
  unfolding set_low
  parse_float v s = elim (m.strtod s) [
    | none ↦ none
    | some d ↦ elim v.type [
      | t_float ↦ some (record v { payload = set_low m v (m.float_of_double d) })
      | t_double ↦ some (record v { payload = word d })
      | _ ↦ none
    ]
  ]

  unfoldable pub store_bool : SiValue → Option ℕ → Option SiValue
  unfolding set_low
  store_bool v none = none
  store_bool v (some b) = some (record v { payload = set_low m v b })

  -- `none` where the function returns 0; the value is then as it was.
  unfoldable pub parse_value : SiValue → Text → ℕ → Option SiValue
  unfolding parse_int parse_float parse_bool store_bool
  parse_value v s n = elim v.type [
    | t_string ↦ some (record v { payload = chars (record { str = s; len = n }) })
    | t_int32 ↦ parse_int v s
    | t_int64 ↦ parse_int v s
    | t_uint ↦ parse_int v s
    | t_bool ↦ store_bool v (parse_bool s n)
    | t_float ↦ parse_float v s
    | t_double ↦ parse_float v s
    | _ ↦ none
  ]

  -- The default branch of SI_StringVal_Cast; `scrap` is the payload of its uninitialised `tmp`.
  unfoldable pub cast_by_parsing : Payload → SiValue → SiType → Run (SiValue × Bool)
  unfolding stringval parse_value
  cast_by_parsing scrap v t = do
    s ← stringval v
    ok (elim (parse_value (record { payload = scrap; type = t }) s.str s.len) [
      | some w ↦ (w, true)
      | none ↦ (v, false)
    ])

  unfoldable pub string_cast : Payload → SiValue → SiType → Run (SiValue × Bool)
  unfolding cast_by_parsing
  string_cast scrap v t = elim v.type [
    | t_string ↦ if is_type_string t then ok (v, true) else cast_by_parsing scrap v t
    | _ ↦ ok (v, false)
  ]

  -- SIValue_FromString: the result of the parse is not looked at.
  unfoldable pub from_string : SiValue → Text → SiValue
  unfolding parse_value
  from_string v s =
      let typed = record v { type = if all_numeric s then t_double else t_string } in
      elim (parse_value typed s (length s)) [ some w ↦ w | none ↦ typed ]
