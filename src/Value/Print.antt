-- ===== src/Value/Print.antt =====
-- SIValue_ToString and SIValue_StringConcat of src/value.c.
use redis_graph.Base.{
  ℕ, ◌+◌, Run, ok, fault, ◌>>=◌, Text, [], ◌∷◌, ◌++◌, List, codes, length, take, ltb, ◌==◌,
  print_int, if◌then◌else◌,
}
use redis_graph.Value.{
  Machine, t_null, t_string, t_int32, t_int64, t_uint, t_bool, t_float, t_double, t_inf, t_neginf,
  SiValue, SiString, signed32, signed64, stringval, bits, low_bits,
}

-- `"\"%.*s\""`
abbrev pub quoted : SiString → Text
quoted s = b'"' ∷ (take s.len s.str ++ b'"' ∷ [])

-- The write of the terminating NUL over the last delimiter; with no element it is at offset -1.
unfoldable pub drop_delimiter : Text → Run Text
drop_delimiter [] = fault
drop_delimiter (c ∷ t) = ok (take (length t) (c ∷ t))

module _ (m : Machine) where
  -- The text that SIValue_ToString would write into a buffer with room for it.
  unfoldable pub to_text : SiValue → Run Text
  unfolding stringval bits low_bits
  to_text v = elim v.type [
    | t_string ↦ (do s ← stringval v; ok (quoted s))
    | t_int32 ↦ ok (print_int (signed32 (low_bits m v)))
    | t_int64 ↦ ok (print_int (signed64 (bits m v)))
    | t_uint ↦ ok (print_int (signed64 (bits m v)))
    | t_bool ↦ ok (if low_bits m v == 0 then codes "false" else codes "true")
    | t_float ↦ ok (m.print_double 6 (m.double_of_float (low_bits m v)))
    | t_double ↦ ok (m.print_double 6 (bits m v))
    | t_inf ↦ ok (codes "+inf")
    | t_neginf ↦ ok (codes "-inf")
    | t_null ↦ ok (codes "NULL")
  ]

  -- The bytes that the first loop reserves for an element.
  unfoldable pub reserved : SiValue → Run ℕ
  unfolding stringval
  reserved v = elim v.type [ t_string ↦ (do s ← stringval v; ok (s.len + 2)) | _ ↦ ok 32 ]

  unfoldable pub reserved_all : List SiValue → Run ℕ
  unfolding reserved
  reserved_all [] = ok 0
  reserved_all (v ∷ vs) = do n ← reserved v; k ← reserved_all vs; ok (n + k)

  -- The second loop: `out` is what is written so far, and its length is `offset`. The delimiter is
  -- written at `offset` plus the length that snprintf returns, which may lie outside the buffer.
  unfoldable pub write_all : ℕ → Text → List SiValue → Run Text
  unfolding to_text
  write_all size out [] = ok out
  write_all size out (v ∷ vs) = do
    t ← to_text v
    if ltb (length out + length t) size then write_all size (out ++ (t ++ b',' ∷ [])) vs else fault

  unfoldable pub string_concat : List SiValue → Run Text
  unfolding reserved_all write_all drop_delimiter
  string_concat vs = do
    n ← reserved_all vs
    out ← write_all (n + length vs + 1) [] vs
    drop_delimiter out
