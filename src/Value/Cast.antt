-- ===== src/Value/Cast.antt =====
-- The casts of src/value.c. Each returns the value and whether it succeeded.
use redis_graph.Base.{
  Bool, true, false, Option, none, some, take, print_int, ◌==◌, ◌%◌, ◌^◌, if◌then◌else◌,
}
use redis_graph.Value.{
  Machine, SiType, t_string, t_int32, t_int64, t_uint, t_bool, t_float, t_double, SiValue, Payload,
  word, chars, signed64, bits, set_low, wrap_string,
}

module _ (m : Machine) where
  -- The conversion that SI_LongVal_Cast makes for each target type; `none` where it cannot convert.
  unfoldable pub long_payload : SiValue → SiType → Option Payload
  unfolding bits set_low wrap_string
  long_payload v t_int64 = some v.payload
  long_payload v t_int32 = some (set_low m v (bits m v))
  long_payload v t_bool = some (set_low m v (if bits m v == 0 then 0 else 1))
  long_payload v t_uint = some (word (bits m v))
  long_payload v t_float = some (set_low m v (m.float_of_int (signed64 (bits m v))))
  long_payload v t_double = some (word (m.double_of_int (signed64 (bits m v))))
  long_payload v t_string = some (chars (wrap_string (take 20 (print_int (signed64 (bits m v))))))
  long_payload v _ = none

  -- The patterns of the zeros are 0 and the sign alone; any other double differs from 0, a NaN too.
  unfoldable pub double_payload : SiValue → SiType → Option Payload
  unfolding bits set_low wrap_string
  double_payload v t_double = some v.payload
  double_payload v t_int64 = some (word (m.int_of_double (bits m v)))
  double_payload v t_int32 = some (set_low m v (m.int32_of_double (bits m v)))
  double_payload v t_bool = some (set_low m v (if bits m v % 2 ^ 63 == 0 then 0 else 1))
  double_payload v t_uint = some (word (m.uint_of_double (bits m v)))
  double_payload v t_float = some (set_low m v (m.float_of_double (bits m v)))
  double_payload v t_string = some (chars (wrap_string (take 255 (m.print_double 17 (bits m v)))))
  double_payload v _ = none

-- The end of both casts: the type is set where the value was converted.
unfoldable pub retype : SiValue → SiType → Option Payload → SiValue × Bool
retype v t (some p) = (record { payload = p; type = t }, true)
retype v t none = (v, false)

module _ (m : Machine) where
  unfoldable pub long_cast : SiValue → SiType → SiValue × Bool
  unfolding long_payload retype
  long_cast v t = elim v.type [ t_int64 ↦ retype v t (long_payload m v t) | _ ↦ (v, false) ]

  unfoldable pub double_cast : SiValue → SiType → SiValue × Bool
  unfolding double_payload retype
  double_cast v t = elim v.type [ t_double ↦ retype v t (double_payload m v t) | _ ↦ (v, false) ]
