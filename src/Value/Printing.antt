-- ===== src/Value/Printing.antt =====
-- lib/value.c: `value_parse` and `value_fmt`. The floating-point conversions of the C library are a
-- parameter.
pub mod Numbers
pub mod Types
pub mod RoundTrip
use propd.Prelude.{
  ℕ, zero, suc, ◌+◌, ◌-◌, ◌/◌, ◌^◌, ◌<◌, Text, Bool, true, false, ◌&&◌, ◌||◌, [], ◌∷◌, ◌++◌, List,
  Option, none, some, Reply, ok, err, fault, einval, enomem, length, take, codes, ltb, leb, ◌==◌,
  if◌then◌else◌, ℤ, pos, negsuc, ltb_ℤ, eq_ℤ, before_nul,
}
use propd.Misc.Prefix.{prefix_match}
use propd.Misc.Hex.{hexmem, hex2mem}
use propd.Value.{
  Value, Tag, undef, raw_data, cstring, i32, u32, i64, u64, float, double, unknown, value_data,
  value_cstring, value_i32, value_u32, value_i64, value_u64, value_float, value_double, copy_word,
  signed,
}
use propd.Value.Numerals.{strtol, strtoul, print_in, print_signed}

-- `strtof` and `strtod` give the bits and whether they set ERANGE, or convert nothing; `%g` prints
-- the bits of a number.
pub record Floats : Type 0 where
  pub strtof : Text → Option (ℕ × Bool)
  pub strtod : Text → Option (ℕ × Bool)
  pub fmt_float : ℕ → Text
  pub fmt_double : ℕ → Text

-- Whether errno is ERANGE when `value_parse` is called, and what `malloc` grants.
pub record ParseEnv : Type 0 where
  pub stale : Bool
  pub memory_granted : Bool
  pub value_granted : Bool

-- What stands after the first colon.
unfoldable pub after_colon : Text → Option Text
after_colon [] = none
after_colon (c ∷ s) = let rest = after_colon s in if c == b':' then some s else rest

-- The chain of prefixes; `none` is the last branch.
unfoldable pub type_of : Text → Option Tag
unfolding prefix_match
type_of str =
    if prefix_match (codes "i32:*") str
    then some i32
    else if prefix_match (codes "u32:*") str
    then some u32
    else if prefix_match (codes "i64:*") str
    then some i64
    else if prefix_match (codes "u64:*") str
    then some u64
    else if prefix_match (codes "float:*") str
    then some float
    else if prefix_match (codes "double:*") str
    then some double
    else if prefix_match (codes "data:*") str
    then some raw_data
    else if prefix_match (codes "cstring:*") str
    then some cstring
    else none

unfoldable pub allocated : Option Value → Reply Value
allocated none = err enomem
allocated (some v) = ok v

abbrev int32_min : ℤ
int32_min = negsuc (2 ^ 31 - 1)

abbrev int32_max : ℤ
int32_max = pos (2 ^ 31 - 1)

abbrev long_min : ℤ
long_min = negsuc (2 ^ 63 - 1)

abbrev long_max : ℤ
long_max = pos (2 ^ 63 - 1)

abbrev ulong_max : ℕ
ulong_max = 2 ^ 64 - 1

-- The case of the signed types, for the result of `strtol` and whether it set ERANGE.
unfoldable pub parse_signed : ParseEnv → Bool → Option (ℤ × Bool) → Reply Value
unfolding allocated value_i32 value_i64
parse_signed env narrow none = err einval
parse_signed env narrow (some (number, range)) =
    if (env.stale || range) && (eq_ℤ number long_max || eq_ℤ number long_min)
    then err einval
    else if narrow && (ltb_ℤ number int32_min || ltb_ℤ int32_max number)
    then err einval
    else allocated
        (if narrow then value_i32 env.value_granted number else value_i64 env.value_granted number)

-- The case of the unsigned types.
unfoldable pub parse_unsigned : ParseEnv → Bool → Option (ℕ × Bool) → Reply Value
unfolding allocated value_u32 value_u64
parse_unsigned env narrow none = err einval
parse_unsigned env narrow (some (number, range)) =
    if (env.stale || range) && number == ulong_max
    then err einval
    else if narrow && ltb (2 ^ 32 - 1) number
    then err einval
    else allocated
        (if narrow then value_u32 env.value_granted number else value_u64 env.value_granted number)

-- The cases of the floating-point types, with the constructor of each.
unfoldable pub parse_floating :
    ParseEnv → (Bool → ℕ → Option Value) → Option (ℕ × Bool) → Reply Value
unfolding allocated
parse_floating env make none = err einval
parse_floating env make (some (number, range)) =
    if env.stale || range then err einval else allocated (make env.value_granted number)

parse_bytes : ParseEnv → Option (List ℕ) → Reply Value
unfolding allocated value_data
parse_bytes env none = err einval
parse_bytes env (some bytes) = allocated (value_data env.value_granted bytes)

-- The case of the data, in hexadecimal.
unfoldable pub parse_data : ParseEnv → Text → Reply Value
unfolding parse_bytes hex2mem
parse_data env value =
    if env.memory_granted then parse_bytes env (hex2mem (length value / 2) value) else err enomem

-- The switch on the type.
unfoldable pub parse_as : Floats → ParseEnv → Tag → Text → Reply Value
unfolding parse_signed parse_unsigned parse_floating parse_data allocated strtol strtoul
    value_cstring value_float value_double
parse_as fl env i32 value = parse_signed env true (strtol value)
parse_as fl env i64 value = parse_signed env false (strtol value)
parse_as fl env u32 value = parse_unsigned env true (strtoul value)
parse_as fl env u64 value = parse_unsigned env false (strtoul value)
parse_as fl env float value = parse_floating env value_float (fl.strtof value)
parse_as fl env double value = parse_floating env value_double (fl.strtod value)
parse_as fl env raw_data value = parse_data env value
parse_as fl env cstring value = allocated (value_cstring env.value_granted value)
parse_as fl env undef value = err einval
parse_as fl env (unknown n) value = err einval

unfoldable pub parse_typed : Floats → ParseEnv → Text → Text → Option Tag → Reply Value
unfolding parse_as
parse_typed fl env str rest none = parse_as fl env cstring str
parse_typed fl env str rest (some tag) = parse_as fl env tag rest

unfoldable pub parse_colon : Floats → ParseEnv → Text → Option Text → Reply Value
unfolding parse_typed parse_as type_of
parse_colon fl env str none = parse_as fl env cstring str
parse_colon fl env str (some rest) = parse_typed fl env str rest (type_of str)

unfoldable pub value_parse : Floats → ParseEnv → Text → Reply Value
unfolding parse_colon after_colon
value_parse fl env str = parse_colon fl env str (after_colon str)

-- `snprintf` of a type's name, unless `notype`, and a text into a buffer of `b` bytes.
unfoldable pub typed_text : ℕ → Bool → Text → Text → Text
typed_text b notype name s = take (b - 1) ((if notype then [] else name) ++ s)

unfoldable pub typed_word : ℕ → Bool → Text → (ℕ → Text) → Reply ℕ → Reply Text
unfolding typed_text
typed_word b notype name show (ok n) = ok (typed_text b notype name (show n))
typed_word b notype name show (err e) = err e
typed_word b notype name show fault = fault

after_head : Text → Reply Text → Reply Text
after_head head (ok s) = ok (head ++ s)
after_head head (err e) = err e
after_head head fault = fault

-- The case of the data: the assertion on the length, the number of bytes, and the bytes.
unfoldable pub fmt_data : ℕ → Bool → Value → Reply Text
unfolding after_head print_in hexmem
fmt_data b true v = hexmem b v.bytes true
fmt_data b false v =
    let head = codes "data[" ++ print_in 16 v.length ++ codes "]:" in
    if ltb 16 b then after_head head (hexmem (b - length head) v.bytes true) else fault

unfoldable pub fmt_cstring : ℕ → Bool → Option Text → Reply Text
unfolding typed_text
fmt_cstring b notype none = fault
fmt_cstring b notype (some s) = ok (typed_text b notype (codes "cstring:") s)

-- The switch on the type; one that no case names leaves the buffer as it was.
unfoldable pub fmt_as : Floats → ℕ → Value → Bool → Text → Tag → Reply Text
unfolding fmt_data typed_word copy_word signed print_in print_signed before_nul fmt_cstring
fmt_as fl b v notype old i32 =
    typed_word b notype (codes "i32:") (λ n. print_signed (signed (2 ^ 31) n)) (copy_word 4 v)
fmt_as fl b v notype old u32 = typed_word b notype (codes "u32:") (print_in 10) (copy_word 4 v)
fmt_as fl b v notype old i64 =
    typed_word b notype (codes "i64:") (λ n. print_signed (signed (2 ^ 63) n)) (copy_word 8 v)
fmt_as fl b v notype old u64 = typed_word b notype (codes "u64:") (print_in 10) (copy_word 8 v)
fmt_as fl b v notype old float = typed_word b notype (codes "float:") fl.fmt_float (copy_word 4 v)
fmt_as fl b v notype old double =
    typed_word b notype (codes "double:") fl.fmt_double (copy_word 8 v)
fmt_as fl b v notype old raw_data = fmt_data b notype v
fmt_as fl b v notype old cstring = fmt_cstring b notype (before_nul v.bytes)
fmt_as fl b v notype old undef = ok old
fmt_as fl b v notype old (unknown n) = ok old

-- The text that stands in the buffer of `b` bytes afterwards, where `old` stood before.
unfoldable pub value_fmt : Floats → ℕ → Value → Bool → Text → Reply Text
unfolding fmt_as
value_fmt fl b v notype old = fmt_as fl b v notype old v.tag
