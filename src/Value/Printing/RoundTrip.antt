-- ===== src/Value/Printing/RoundTrip.antt =====
-- `value_parse` on what `value_fmt` of lib/value.c writes.
use propd.Prelude.{
  ℕ, zero, suc, ◌+◌, ◌-◌, ◌^◌, ◌<◌, ◌≡◌, refl, sym, ap, ◌∙◌, Text, Bool, true, false, [], ◌∷◌, ◌++◌,
  some, ok, take, length, codes, arith, ℤ, pos, negsuc, take-length_le, length-append, subst,
  IsCString, before_nul, before_nul-IsCString,
}
use propd.Misc.Prefix.{NoStar}
use propd.Value.{
  Value, cstring, i32, u32, i64, u64, value_alloc, value_u32, value_u64, value_i32, value_i64,
  value_cstring, bytes4, bytes8, word, signed, copy_word,
}
use propd.Value.Numerals.{print_in, print_signed}
use propd.Value.Numerals.Digits.{print_in-Digital, strtoul-print_in, strtol-print_signed, IsInt64}
use propd.Value.Printing.{
  Floats, ParseEnv, parse_signed, parse_unsigned, parse_as, value_parse, typed_text, typed_word,
  fmt_as, value_fmt, allocated, fmt_cstring,
}
use propd.Value.Printing.Numbers.{
  number_of-bytes4, number_of-bytes8, IsSigned, word_bound, signed-word,
}
use propd.Value.Printing.Types.{
  value_parse_u32, value_parse_u64, value_parse_i32, value_parse_i64, value_parse_cstring,
  Digital-NoStar, print_signed-NoStar,
}

-- The result that `strtoul` or `strtol` gave is no value that a stale ERANGE makes ambiguous.
abbrev pub Clear : Bool → ℤ → Type 0
Clear true (pos n) = n < 2 ^ 63 - 1
Clear true (negsuc n) = n < 2 ^ 63 - 1
Clear false z = Unit

abbrev pub ClearUnsigned : Bool → ℕ → Type 0
ClearUnsigned true n = n < 2 ^ 64 - 1
ClearUnsigned false n = Unit

parse_unsigned_u32 :
    (env : ParseEnv) (n : ℕ)
    → env.value_granted ≡ true
    → n < 2 ^ 32
    → parse_unsigned env true (some (n, false))
      ≡ ok (record { tag = u32; length = 4; bytes = bytes4 n })
unfolding parse_unsigned allocated value_u32 value_alloc bytes4
parse_unsigned_u32 env n g h = ground arith

parse_unsigned_u64 :
    (env : ParseEnv) (n : ℕ)
    → env.value_granted ≡ true
    → ClearUnsigned env.stale n
    → parse_unsigned env false (some (n, false))
      ≡ ok (record { tag = u64; length = 8; bytes = bytes8 n })
unfolding parse_unsigned allocated value_u64 value_alloc bytes8 bytes4
parse_unsigned_u64 env n g h = ground arith

parse_signed_i32 :
    (env : ParseEnv) (z : ℤ)
    → env.value_granted ≡ true
    → IsSigned (2 ^ 31) z
    → parse_signed env true (some (z, false))
      ≡ ok (record { tag = i32; length = 4; bytes = bytes4 (word (2 ^ 32) z) })
unfolding parse_signed allocated value_i32 value_alloc bytes4
parse_signed_i32 env (pos n) g h = ground arith
parse_signed_i32 env (negsuc n) g h = ground arith

parse_signed_i64 :
    (env : ParseEnv) (z : ℤ)
    → env.value_granted ≡ true
    → Clear env.stale z
    → parse_signed env false (some (z, false))
      ≡ ok (record { tag = i64; length = 8; bytes = bytes8 (word (2 ^ 64) z) })
unfolding parse_signed allocated value_i64 value_alloc bytes8 bytes4
parse_signed_i64 env (pos n) g h = ground arith
parse_signed_i64 env (negsuc n) g h = ground arith

-- The values whose text is read back: numbers in range, and C strings that do not begin with '*'.
-- Where errno is already ERANGE, the greatest number of 64 bits and the least are left out.
pub data Sayable (stale : Bool) (v : Value) : Type 0 where
  of_u32 : (n : ℕ) → n < 2 ^ 32 → value_u32 true n ≡ some v → Sayable stale v
  of_u64 :
      (n : ℕ) → n < 2 ^ 64 → ClearUnsigned stale n → value_u64 true n ≡ some v → Sayable stale v
  of_i32 : (z : ℤ) → IsSigned (2 ^ 31) z → value_i32 true z ≡ some v → Sayable stale v
  of_i64 :
      (z : ℤ) → IsSigned (2 ^ 63) z → Clear stale z → value_i64 true z ≡ some v → Sayable stale v
  of_cstring : (s : Text) → IsCString s → NoStar s → value_cstring true s ≡ some v → Sayable stale v

-- The name of the type and the text that `value_fmt` writes, when there is room.
record Says (fl : Floats) (b : ℕ) (old : Text) (env : ParseEnv) (v : Value) : Type 0 where
  full : Text
  written : value_fmt fl b v false old ≡ ok (take (b - 1) full)
  read : value_parse fl env full ≡ ok v

some_injective {ℓ} : {A : Type ℓ} {a b : A} → some a ≡ some b → a ≡ b
some_injective e = cc

Says-u32 :
    (fl : Floats) (b : ℕ) (old : Text) (env : ParseEnv) (n : ℕ)
    → env.value_granted ≡ true
    → n < 2 ^ 32
    → Says fl b old env (record { tag = u32; length = 4; bytes = bytes4 n })
unfolding value_fmt fmt_as copy_word typed_word typed_text parse_as bytes4
Says-u32 fl b old env n g h = record {
  full = codes "u32:" ++ print_in 10 n;
  written = ap (typed_word b false (codes "u32:") (print_in 10)) (ap ok (number_of-bytes4 n h));
  read =
      value_parse_u32 fl env (print_in 10 n) (Digital-NoStar (print_in-Digital n))
      ∙ ap (parse_unsigned env true) (strtoul-print_in n (omega arith))
      ∙ parse_unsigned_u32 env n g h;
}

-- A number of 32 bits and one of 64 for `strtol`.
widen : (z : ℤ) → IsSigned (2 ^ 31) z → IsInt64 z
widen (pos n) h = omega arith
widen (negsuc n) h = omega arith

as-IsInt64 : (z : ℤ) → IsSigned (2 ^ 63) z → IsInt64 z
as-IsInt64 (pos n) h = h
as-IsInt64 (negsuc n) h = h

terminated : (s : Text) → take (length s + 1) (s ++ (0 ∷ [])) ≡ s ++ (0 ∷ [])
terminated s = take-length_le (length s + 1) _ (omega (arith, length-append s (0 ∷ [])))

parse_cstring :
    (env : ParseEnv) (s : Text)
    → env.value_granted ≡ true
    → allocated (value_cstring env.value_granted s)
      ≡ ok (record {
        tag = cstring;
        length = length s + 1;
        bytes = take (length s + 1) (s ++ (0 ∷ []));
      })
unfolding allocated value_cstring value_alloc
parse_cstring env s g = rw g refl

Says-u64 :
    (fl : Floats) (b : ℕ) (old : Text) (env : ParseEnv) (n : ℕ)
    → env.value_granted ≡ true
    → n < 2 ^ 64
    → ClearUnsigned env.stale n
    → Says fl b old env (record { tag = u64; length = 8; bytes = bytes8 n })
unfolding value_fmt fmt_as copy_word typed_word typed_text parse_as bytes8 bytes4
Says-u64 fl b old env n g h clear = record {
  full = codes "u64:" ++ print_in 10 n;
  written = ap (typed_word b false (codes "u64:") (print_in 10)) (ap ok (number_of-bytes8 n h));
  read =
      value_parse_u64 fl env (print_in 10 n) (Digital-NoStar (print_in-Digital n))
      ∙ ap (parse_unsigned env false) (strtoul-print_in n h)
      ∙ parse_unsigned_u64 env n g clear;
}

Says-i32 :
    (fl : Floats) (b : ℕ) (old : Text) (env : ParseEnv) (z : ℤ)
    → env.value_granted ≡ true
    → IsSigned (2 ^ 31) z
    → Says fl b old env (record { tag = i32; length = 4; bytes = bytes4 (word (2 ^ 32) z) })
unfolding value_fmt fmt_as copy_word typed_word typed_text parse_as bytes4
Says-i32 fl b old env z g h = record {
  full = codes "i32:" ++ print_signed z;
  written =
      ap (typed_word b false (codes "i32:") (λ n. print_signed (signed (2 ^ 31) n)))
        (ap ok (number_of-bytes4 (word (2 ^ 32) z) (word_bound (2 ^ 31) z h)))
      ∙ ap (λ y. ok (typed_text b false (codes "i32:") (print_signed y)))
          (signed-word (2 ^ 31) z h);
  read =
      value_parse_i32 fl env (print_signed z) (print_signed-NoStar z)
      ∙ ap (parse_signed env true) (strtol-print_signed z (widen z h))
      ∙ parse_signed_i32 env z g h;
}

Says-i64 :
    (fl : Floats) (b : ℕ) (old : Text) (env : ParseEnv) (z : ℤ)
    → env.value_granted ≡ true
    → IsSigned (2 ^ 63) z
    → Clear env.stale z
    → Says fl b old env (record { tag = i64; length = 8; bytes = bytes8 (word (2 ^ 64) z) })
unfolding value_fmt fmt_as copy_word typed_word typed_text parse_as bytes8 bytes4
Says-i64 fl b old env z g h clear = record {
  full = codes "i64:" ++ print_signed z;
  written =
      ap (typed_word b false (codes "i64:") (λ n. print_signed (signed (2 ^ 63) n)))
        (ap ok (number_of-bytes8 (word (2 ^ 64) z) (word_bound (2 ^ 63) z h)))
      ∙ ap (λ y. ok (typed_text b false (codes "i64:") (print_signed y)))
          (signed-word (2 ^ 63) z h);
  read =
      value_parse_i64 fl env (print_signed z) (print_signed-NoStar z)
      ∙ ap (parse_signed env false) (strtol-print_signed z (as-IsInt64 z h))
      ∙ parse_signed_i64 env z g clear;
}

Says-cstring :
    (fl : Floats) (b : ℕ) (old : Text) (env : ParseEnv) (s : Text)
    → env.value_granted ≡ true
    → IsCString s
    → NoStar s
    → Says fl b old env (record {
      tag = cstring;
      length = length s + 1;
      bytes = take (length s + 1) (s ++ (0 ∷ []));
    })
unfolding value_fmt fmt_as typed_text fmt_cstring parse_as
Says-cstring fl b old env s g h star_free = record {
  full = codes "cstring:" ++ s;
  written =
      ap (λ bytes. fmt_cstring b false (before_nul bytes)) (terminated s)
      ∙ ap (fmt_cstring b false) (before_nul-IsCString s [] h);
  read = value_parse_cstring fl env s star_free ∙ parse_cstring env s g;
}

Sayable-Says :
    (fl : Floats) (b : ℕ) (old : Text) (env : ParseEnv) (v : Value)
    → env.value_granted ≡ true
    → Sayable env.stale v
    → Says fl b old env v
unfolding value_u32 value_u64 value_i32 value_i64 value_cstring value_alloc bytes4 bytes8
Sayable-Says fl b old env v g (of_u32 n h e) =
    subst (Says fl b old env) (some_injective e) (Says-u32 fl b old env n g h)
Sayable-Says fl b old env v g (of_u64 n h c e) =
    subst (Says fl b old env) (some_injective e) (Says-u64 fl b old env n g h c)
Sayable-Says fl b old env v g (of_i32 z h e) =
    subst (Says fl b old env) (some_injective e) (Says-i32 fl b old env z g h)
Sayable-Says fl b old env v g (of_i64 z h c e) =
    subst (Says fl b old env) (some_injective e) (Says-i64 fl b old env z g h c)
Sayable-Says fl b old env v g (of_cstring s h n e) =
    subst (Says fl b old env) (some_injective e) (Says-cstring fl b old env s g h n)

ok_injective {ℓ} : {A : Type ℓ} {a b : A} → ok a ≡ ok b → a ≡ b
ok_injective e = cc

uncut : (n : ℕ) (s : Text) → length (take n s) < n → take n s ≡ s
uncut zero s h = absurd (omega arith)
uncut (suc n) [] h = refl
uncut (suc n) (c ∷ s) h = ap (c ∷◌) (uncut n s (omega arith))

-- `value_parse` reads what `value_fmt` writes of a value with its type as the value: a number of 32
-- bits, one of 64 bits (less the extremes where errno is already ERANGE), or a C string that does
-- not begin with '*'; when the buffer was not filled and `value_parse` has memory.
pub value_parse-value_fmt :
    (fl : Floats) (env : ParseEnv) (b : ℕ) (v : Value) (old text : Text)
    → env.value_granted ≡ true
    → Sayable env.stale v
    → value_fmt fl b v false old ≡ ok text
    → length text + 1 < b
    → value_parse fl env text ≡ ok v
value_parse-value_fmt fl env b v old text g sayable wrote room =
    subst (λ t. value_parse fl env t ≡ ok v) whole said.read
  where
    said : Says fl b old env v
    said = Sayable-Says fl b old env v g sayable

    shortened : take (b - 1) said.full ≡ text
    shortened = ok_injective (sym said.written ∙ wrote)

    whole : said.full ≡ text
    whole = sym (uncut (b - 1) said.full (rw shortened (omega arith))) ∙ shortened
