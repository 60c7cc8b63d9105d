-- ===== src/Value/Printing/Types.antt =====
-- Each type's name at the head of a text leads `value_parse` of lib/value.c to the type's case.
use propd.Prelude.{◌≡◌, refl, Text, [], ◌∷◌, ◌++◌, codes, arith, ℤ, pos, negsuc}
use propd.Misc.Prefix.{prefix_match, NoStar}
use propd.Value.{cstring, i32, u32, i64, u64}
use propd.Value.Numerals.{print_signed, digit_of}
use propd.Value.Numerals.Digits.{Digital, print_in-Digital}
use propd.Value.Printing.{
  Floats, ParseEnv, after_colon, type_of, parse_as, parse_typed, parse_colon, value_parse,
}

pub value_parse_u32 :
    (fl : Floats) (env : ParseEnv) (s : Text)
    → NoStar s
    → value_parse fl env (codes "u32:" ++ s) ≡ parse_as fl env u32 s
unfolding value_parse parse_colon after_colon type_of parse_typed prefix_match
value_parse_u32 fl env [] h = refl
value_parse_u32 fl env (c ∷ s) h = ground arith

pub value_parse_u64 :
    (fl : Floats) (env : ParseEnv) (s : Text)
    → NoStar s
    → value_parse fl env (codes "u64:" ++ s) ≡ parse_as fl env u64 s
unfolding value_parse parse_colon after_colon type_of parse_typed prefix_match
value_parse_u64 fl env [] h = refl
value_parse_u64 fl env (c ∷ s) h = ground arith

pub value_parse_i32 :
    (fl : Floats) (env : ParseEnv) (s : Text)
    → NoStar s
    → value_parse fl env (codes "i32:" ++ s) ≡ parse_as fl env i32 s
unfolding value_parse parse_colon after_colon type_of parse_typed prefix_match
value_parse_i32 fl env [] h = refl
value_parse_i32 fl env (c ∷ s) h = ground arith

pub value_parse_i64 :
    (fl : Floats) (env : ParseEnv) (s : Text)
    → NoStar s
    → value_parse fl env (codes "i64:" ++ s) ≡ parse_as fl env i64 s
unfolding value_parse parse_colon after_colon type_of parse_typed prefix_match
value_parse_i64 fl env [] h = refl
value_parse_i64 fl env (c ∷ s) h = ground arith

pub value_parse_cstring :
    (fl : Floats) (env : ParseEnv) (s : Text)
    → NoStar s
    → value_parse fl env (codes "cstring:" ++ s) ≡ parse_as fl env cstring s
unfolding value_parse parse_colon after_colon type_of parse_typed prefix_match
value_parse_cstring fl env [] h = refl
value_parse_cstring fl env (c ∷ s) h = ground arith

pub Digital-NoStar : {s : Text} → Digital s → NoStar s
unfolding digit_of
Digital-NoStar (Digital.digital c s d) = ground arith

pub print_signed-NoStar : (z : ℤ) → NoStar (print_signed z)
unfolding print_signed
print_signed-NoStar (pos n) = Digital-NoStar (print_in-Digital n)
print_signed-NoStar (negsuc n) = omega arith
