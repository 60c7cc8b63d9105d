-- ===== src/Value/Numerals.antt =====
-- The numerals of the C library that lib/value.c uses: `strtol` and `strtoul` with the base 0, and
-- the conversions %d, %u, %ld, %lu and %x of `printf`.
pub mod Digits
use propd.Prelude.{
  ℕ, zero, suc, ◌+◌, ◌-◌, ◌*◌, ◌/◌, ◌%◌, ◌^◌, Text, Bool, true, false, ◌&&◌, ◌||◌, [], ◌∷◌, ◌++◌,
  Option, none, some, ltb, leb, ◌==◌, if◌then◌else◌, ℤ, pos, negsuc,
}
use propd.Misc.Hex.{dec2hexchar}

abbrev pub minus : ℕ
minus = b'-'

-- `isspace` in the C locale.
unfoldable pub isspace : ℕ → Bool
isspace c = c == b' ' || (leb 9 c && leb c 13)

-- The number of a digit; 36 for what is none.
unfoldable pub digit_of : ℕ → ℕ
digit_of c =
    if leb b'0' c && leb c b'9'
    then c - b'0'
    else if leb b'a' c && leb c b'z'
    then 10 + (c - b'a')
    else if leb b'A' c && leb c b'Z'
    then 10 + (c - b'A')
    else 36

-- The digits of a base at the head of a text, after those that gave `acc`.
unfoldable pub scan_digits : ℕ → ℕ → Text → ℕ
scan_digits base acc [] = acc
scan_digits base acc (c ∷ s) =
    let rest = scan_digits base (acc * base + digit_of c) s in
    if ltb (digit_of c) base then rest else acc

unfoldable pub has_digit : ℕ → Text → Bool
has_digit base [] = false
has_digit base (c ∷ s) = ltb (digit_of c) base

-- After a digit 0: 0x or 0X before a hexadecimal digit, or an octal number.
unfoldable pub scan_zero : Text → ℕ
unfolding scan_digits has_digit
scan_zero [] = 0
scan_zero (x ∷ s) =
    if (x == b'x' || x == b'X') && has_digit 16 s
    then scan_digits 16 0 s
    else scan_digits 8 0 (x ∷ s)

-- The magnitude, with the base 0; `none` where there is nothing to convert.
unfoldable pub scan_magnitude : Text → Option ℕ
unfolding scan_digits has_digit scan_zero
scan_magnitude [] = none
scan_magnitude (c ∷ s) =
    if c == b'0'
    then some (scan_zero s)
    else if has_digit 10 (c ∷ s)
    then some (scan_digits 10 0 (c ∷ s))
    else none

-- A sign, whether it is '-', and the magnitude.
unfoldable pub scan_signed : Text → Option (Bool × ℕ)
unfolding scan_magnitude
scan_signed [] = none
scan_signed (c ∷ s) =
    let negative = c == minus in
    let text = if negative || c == b'+' then s else c ∷ s in
    elim (scan_magnitude text) [ none ↦ none | some m ↦ some (negative, m) ]

unfoldable pub skip_space : Text → Text
unfolding isspace
skip_space [] = []
skip_space (c ∷ s) = let rest = skip_space s in if isspace c then rest else c ∷ s

-- A negative number of that magnitude.
unfoldable pub negate : ℕ → ℤ
negate zero = pos 0
negate (suc n) = negsuc n

-- The result of `strtol` and whether it sets ERANGE.
unfoldable pub clamp : Bool → ℕ → ℤ × Bool
unfolding negate
clamp true m = if leb m (2 ^ 63) then (negate m, false) else (negsuc (2 ^ 63 - 1), true)
clamp false m = if ltb m (2 ^ 63) then (pos m, false) else (pos (2 ^ 63 - 1), true)

unfoldable pub signed_of : Option (Bool × ℕ) → Option (ℤ × Bool)
unfolding clamp
signed_of none = none
signed_of (some (negative, m)) = some (clamp negative m)

-- `none` is `endptr == value`.
unfoldable pub strtol : Text → Option (ℤ × Bool)
unfolding scan_signed skip_space signed_of
strtol s = signed_of (scan_signed (skip_space s))

-- `strtoul` takes a sign too and negates in the unsigned type.
unfoldable pub wrap : Bool → ℕ → ℕ × Bool
wrap negative m =
    if ltb m (2 ^ 64)
    then ((if negative then (2 ^ 64 - m) % 2 ^ 64 else m), false)
    else (2 ^ 64 - 1, true)

unfoldable pub unsigned_of : Option (Bool × ℕ) → Option (ℕ × Bool)
unfolding wrap
unsigned_of none = none
unsigned_of (some (negative, m)) = some (wrap negative m)

unfoldable pub strtoul : Text → Option (ℕ × Bool)
unfolding scan_signed skip_space unsigned_of
strtoul s = unsigned_of (scan_signed (skip_space s))

-- The digits of a number, for as many as there is fuel; the fuel of `print_in` is the number itself.
unfoldable pub print_digits : ℕ → ℕ → ℕ → Text
unfolding dec2hexchar
print_digits base zero n = dec2hexchar (n % base) false ∷ []
print_digits base (suc fuel) n = elim (ltb n base) [
  | true ↦ dec2hexchar n false ∷ []
  | false ↦ print_digits base fuel (n / base) ++ (dec2hexchar (n % base) false ∷ [])
]

-- %u and %lu with the base 10, %x with the base 16.
unfoldable pub print_in : ℕ → ℕ → Text
unfolding print_digits
print_in base n = print_digits base n n

-- %d and %ld
unfoldable pub print_signed : ℤ → Text
unfolding print_in
print_signed (pos n) = print_in 10 n
print_signed (negsuc n) = minus ∷ print_in 10 (n + 1)
