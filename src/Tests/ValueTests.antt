-- ===== src/Tests/ValueTests.antt =====
-- The theorem on the texts of values, on a negative number.
use propd.Prelude.{◌≡◌, refl, codes, true, false, [], ◌∷◌, none, some, ok, negsuc, arith}
use propd.Value.{Value, i32, value_i32}
use propd.Value.Printing.{Floats, ParseEnv, value_fmt, value_parse}
use propd.Value.Printing.RoundTrip.{of_i32, value_parse-value_fmt}

-- A C library that reads no floating-point number and prints none.
abbrev floats : Floats
floats = record {
  strtof = λ s. none;
  strtod = λ s. none;
  fmt_float = λ n. [];
  fmt_double = λ n. [];
}

abbrev parse_env : ParseEnv
parse_env = record { stale = true; memory_granted = true; value_granted = true }

abbrev cold : Value
cold = record { tag = i32; length = 4; bytes = 214 ∷ 255 ∷ 255 ∷ 255 ∷ [] }

cold_made : value_i32 true (negsuc 41) ≡ some cold
unfolding value_i32
cold_made = refl

cold_text : value_fmt floats 32 cold false [] ≡ ok (codes "i32:-42")
unfolding value_fmt
cold_text = refl

value_parse-value_fmt_example : value_parse floats parse_env (codes "i32:-42") ≡ ok cold
value_parse-value_fmt_example =
    value_parse-value_fmt floats parse_env 32 cold [] (codes "i32:-42") refl
      (of_i32 (negsuc 41) (omega arith) cold_made) cold_text (omega arith)
