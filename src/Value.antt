-- ===== src/Value.antt =====
-- src/value.c and src/value.h: the tagged union SIValue. A union is a word of 64 bits, or the
-- string that its pointer leads to; floats and doubles are their IEEE bit patterns.
pub mod Compare
pub mod Cast
pub mod Parse
pub mod Print
pub mod Order
pub mod Concat
pub mod Roundtrip
use redis_graph.Base.{
  ℕ, zero, suc, ◌+◌, ◌-◌, ◌*◌, ◌%◌, ◌^◌, Bool, true, false, Option, none, some, Run, ok, fault,
  ◌>>=◌, Text, length, ℤ, pos, negsuc, ltb, ◌==◌, not, if◌then◌else◌, List, [], ◌∷◌, ◌++◌,
}

-- The processor and the C library's floating point, which no file of the repository defines.
-- `address` is the word that a string pointer puts into the union; `strtod` is `none` where errno is
-- set or nothing is converted.
pub record Machine : Type 0 where
  pub address : Text → ℕ
  pub float_lt : ℕ → ℕ → Bool
  pub double_lt : ℕ → ℕ → Bool
  pub double_add : ℕ → ℕ → ℕ
  pub double_div : ℕ → ℕ → ℕ
  pub double_max : ℕ
  pub double_min : ℕ
  pub double_of_int : ℤ → ℕ
  pub double_of_uint : ℕ → ℕ
  pub double_of_float : ℕ → ℕ
  pub float_of_double : ℕ → ℕ
  pub float_of_int : ℤ → ℕ
  pub int_of_double : ℕ → ℕ
  pub uint_of_double : ℕ → ℕ
  pub int32_of_double : ℕ → ℕ
  pub print_double : ℕ → ℕ → Text
  pub strtod : Text → Option ℕ

pub data SiType : Type 0 where
  t_null t_string t_int32 t_int64 t_uint t_bool t_float t_double t_inf t_neginf : SiType

-- `str` holds the bytes before the first NUL.
pub record SiString : Type 0 where
  pub str : Text
  pub len : ℕ

pub data Payload : Type 0 where
  word : ℕ → Payload
  chars : SiString → Payload

pub record SiValue : Type 0 where
  pub payload : Payload
  pub type : SiType

abbrev pub two32 : ℕ
two32 = 2 ^ 32

abbrev pub two64 : ℕ
two64 = 2 ^ 64

-- The integer that a two's complement pattern stands for.
abbrev pub signed32 : ℕ → ℤ
signed32 w = if ltb w (2 ^ 31) then pos w else negsuc (2 ^ 32 - 1 - w)

abbrev pub signed64 : ℕ → ℤ
signed64 w = if ltb w (2 ^ 63) then pos w else negsuc (2 ^ 64 - 1 - w)

abbrev pub make : ℕ → SiType → SiValue
make w t = record { payload = word w; type = t }

unfoldable pub int_val : ℕ → SiValue
int_val i = make (i % two32) t_int32

unfoldable pub long_val : ℕ → SiValue
long_val i = make (i % two64) t_int64

unfoldable pub uint_val : ℕ → SiValue
uint_val i = make (i % two64) t_uint

unfoldable pub float_val : ℕ → SiValue
float_val f = make (f % two32) t_float

unfoldable pub double_val : ℕ → SiValue
double_val d = make d t_double

unfoldable pub bool_val : ℕ → SiValue
bool_val b = make (b % two32) t_bool

unfoldable pub wrap_string : Text → SiString
wrap_string s = record { str = s; len = length s }

unfoldable pub string_val : SiString → SiValue
string_val s = record { payload = chars s; type = t_string }

unfoldable pub string_val_c : Text → SiValue
unfolding string_val wrap_string
string_val_c s = string_val (wrap_string s)

unfoldable pub inf_val : SiValue
inf_val = make 0 t_inf

unfoldable pub negative_inf_val : SiValue
negative_inf_val = make 0 t_neginf

unfoldable pub null_val : SiValue
null_val = make 0 t_null

-- A read of the string member: of a number, the code follows a wild pointer.
unfoldable pub stringval : SiValue → Run SiString
stringval v = elim v.payload [ chars s ↦ ok s | word w ↦ fault ]

abbrev pub is_type_string : SiType → Bool
is_type_string t_string = true
is_type_string _ = false

abbrev pub is_type_inf : SiType → Bool
is_type_inf t_inf = true
is_type_inf _ = false

abbrev pub is_type_neginf : SiType → Bool
is_type_neginf t_neginf = true
is_type_neginf _ = false

abbrev pub is_type_null : SiType → Bool
is_type_null t_null = true
is_type_null _ = false

-- A pointer is `none` where it is NULL.
unfoldable pub is_inf : Option SiValue → Bool
is_inf none = false
is_inf (some v) = is_type_inf v.type

unfoldable pub is_negative_inf : Option SiValue → Bool
is_negative_inf none = false
is_negative_inf (some v) = is_type_neginf v.type

unfoldable pub is_null : SiValue → Bool
is_null v = is_type_null v.type

unfoldable pub is_null_ptr : Option SiValue → Bool
is_null_ptr none = true
is_null_ptr (some v) = is_type_null v.type

module _ (m : Machine) where
  -- The eight bytes at the start of the union.
  unfoldable pub bits : SiValue → ℕ
  bits v = elim v.payload [ word w ↦ w | chars s ↦ m.address s.str ]

  -- The members of four bytes are the low half of the word.
  unfoldable pub low_bits : SiValue → ℕ
  unfolding bits
  low_bits v = bits v % two32

  -- A write to a member of four bytes keeps the high half.
  unfoldable pub set_low : SiValue → ℕ → Payload
  unfolding bits
  set_low v x = word (bits v - bits v % two32 + x % two32)

  -- SIValue_ToDouble: `none` where it returns 0.
  unfoldable pub to_double : SiValue → Option ℕ
  unfolding bits low_bits
  to_double v = elim v.type [
    | t_double ↦ some (bits v)
    | t_int64 ↦ some (m.double_of_int (signed64 (bits v)))
    | t_int32 ↦ some (m.double_of_int (signed32 (low_bits v)))
    | t_uint ↦ some (m.double_of_uint (bits v))
    | t_float ↦ some (m.double_of_float (low_bits v))
    | _ ↦ none
  ]

  -- SI_Clone, by the constructor of the value's type. The members are read as that type.
  unfoldable pub clone : SiValue → Run SiValue
  unfolding bits low_bits stringval string_val int_val long_val uint_val bool_val float_val
      double_val inf_val negative_inf_val null_val
  clone v = elim v.type [
    | t_string ↦ (do s ← stringval v; ok (string_val s))
    | t_int32 ↦ ok (int_val (low_bits v))
    | t_int64 ↦ ok (long_val (bits v))
    | t_uint ↦ ok (uint_val (bits v))
    | t_bool ↦ ok (bool_val (low_bits v))
    | t_float ↦ ok (float_val (low_bits v))
    | t_double ↦ ok (double_val (bits v))
    | t_inf ↦ ok inf_val
    | t_neginf ↦ ok negative_inf_val
    | t_null ↦ ok null_val
  ]

-- SIValue_Free: a string's pointer becomes NULL; what it held cannot be read any more.
unfoldable pub free_value : SiValue → SiValue
free_value v = elim v.type [ t_string ↦ record v { payload = word 0 } | _ ↦ v ]

-- SiValueVector: `vals` holds the entries before `len`.
pub record SiValueVector : Type 0 where
  pub vals : List SiValue
  pub len : ℕ
  pub cap : ℕ

unfoldable pub new_value_vector : ℕ → SiValueVector
new_value_vector n = record { vals = []; len = 0; cap = n }

-- MIN(cap * 2, 1000), or cap + 1 where cap is 0.
abbrev pub grown_cap : ℕ → ℕ
grown_cap n = if n == 0 then n + 1 else if ltb (n * 2) 1000 then n * 2 else 1000

-- SIValueVector_Append: the write at `len` may lie behind the new capacity.
unfoldable pub append_value : SiValueVector → SiValue → Run SiValueVector
append_value v x =
    let room = if v.len == v.cap then grown_cap v.cap else v.cap in
    if ltb v.len room
    then ok (record { vals = v.vals ++ x ∷ []; len = v.len + 1; cap = room })
    else fault
