-- ===== src/Value/Numerals/Digits.antt =====
-- What `strtol` and `strtoul` read of a number that `printf` wrote.
use propd.Prelude.{
  ℕ, zero, suc, ◌+◌, ◌*◌, ◌/◌, ◌%◌, ◌^◌, ◌≤◌, ◌<◌, ◌≡◌, ◌≢◌, refl, ap, ◌∙◌, Text, true, false, [],
  ◌∷◌, ◌++◌, All, some, arith, ltb, ltb→lt, ltb-false, ℤ, pos, negsuc, Bool-cases, inl, inr,
}
use propd.Misc.Hex.{dec2hexchar}
use propd.Value.Numerals.{
  minus, digit_of, scan_digits, scan_zero, scan_magnitude, scan_signed, skip_space, isspace, negate,
  clamp, strtol, wrap, signed_of, unsigned_of, strtoul, print_digits, print_in, print_signed,
}

digit_of-dec2hexchar : (d : ℕ) → d < 10 → digit_of (dec2hexchar d false) ≡ d
unfolding digit_of dec2hexchar
digit_of-dec2hexchar d h = ground arith

-- The character of a decimal digit.
abbrev pub IsDecimal : ℕ → Type 0
IsDecimal c = digit_of c < 10

scan_digits-append :
    (acc : ℕ) (s t : Text)
    → All IsDecimal s
    → scan_digits 10 acc (s ++ t) ≡ scan_digits 10 (scan_digits 10 acc s) t
unfolding scan_digits
scan_digits-append acc [] t h = refl
scan_digits-append acc (c ∷ s) t h =
    ground (arith, scan_digits-append (acc * 10 + digit_of c) s t h.1)

-- A digit behind digits.
IsDecimal-snoc : (s : Text) (c : ℕ) → All IsDecimal s → IsDecimal c → All IsDecimal (s ++ (c ∷ []))
IsDecimal-snoc [] c digits last = (last, tt)
IsDecimal-snoc (d ∷ s) c digits last = (digits.0, IsDecimal-snoc s c digits.1 last)

digit-IsDecimal : (d : ℕ) → d < 10 → IsDecimal (dec2hexchar d false)
digit-IsDecimal d h = omega (arith, digit_of-dec2hexchar d h)

print_digits-IsDecimal : (fuel n : ℕ) → All IsDecimal (print_digits 10 fuel n)
unfolding print_digits
print_digits-IsDecimal zero n = (digit-IsDecimal (n % 10) (omega arith), tt)
print_digits-IsDecimal (suc fuel) n = elim (Bool-cases (ltb n 10)) [
  | inl one ↦ rw (one, print_digits) (digit-IsDecimal n (ltb→lt n 10 one), tt)
  | inr more ↦
      rw (more, print_digits)
        (IsDecimal-snoc (print_digits 10 fuel (n / 10)) _ (print_digits-IsDecimal fuel (n / 10))
          (digit-IsDecimal (n % 10) (omega arith)))
]

scan_digits-one :
    (acc d : ℕ) → d < 10 → scan_digits 10 acc (dec2hexchar d false ∷ []) ≡ acc * 10 + d
unfolding scan_digits
scan_digits-one acc d h = ground (arith, digit_of-dec2hexchar d h)

scan_digits-print_digits : (fuel n : ℕ) → n ≤ fuel → scan_digits 10 0 (print_digits 10 fuel n) ≡ n
unfolding print_digits
scan_digits-print_digits zero n h = scan_digits-one 0 (n % 10) (omega arith) ∙ omega arith
scan_digits-print_digits (suc fuel) n h = elim (Bool-cases (ltb n 10)) [
  | inl one ↦ rw (one, print_digits) (scan_digits-one 0 n (ltb→lt n 10 one) ∙ omega arith)
  | inr more ↦
      rw (more, print_digits)
        (scan_digits-append 0 (print_digits 10 fuel (n / 10)) _
            (print_digits-IsDecimal fuel (n / 10))
          ∙ scan_digits-one _ (n % 10) (omega arith)
          ∙ omega (arith, scan_digits-print_digits fuel (n / 10) (omega arith)))
]

-- A text that begins with a digit other than 0.
data Leading : Text → Type 0 where
  leading : (c : ℕ) (s : Text) → c ≢ b'0' → IsDecimal c → Leading (c ∷ s)

Leading-append : {s : Text} (t : Text) → Leading s → Leading (s ++ t)
Leading-append t (leading c s h d) = leading c (s ++ t) h d

dec2hexchar_leading : (d : ℕ) → 0 < d → d < 10 → dec2hexchar d false ≢ b'0'
unfolding dec2hexchar
dec2hexchar_leading d p h = ground arith

print_digits-Leading : (fuel n : ℕ) → 0 < n → n ≤ fuel → Leading (print_digits 10 fuel n)
unfolding print_digits
print_digits-Leading zero n p h = absurd (omega arith)
print_digits-Leading (suc fuel) n p h = elim (Bool-cases (ltb n 10)) [
  | inl one ↦
      rw (one, print_digits)
        (leading _ [] (dec2hexchar_leading n p (ltb→lt n 10 one))
          (digit-IsDecimal n (ltb→lt n 10 one)))
  | inr more ↦
      rw (more, print_digits)
        (Leading-append _
          (print_digits-Leading fuel (n / 10) (omega (arith, ltb-false n 10 more)) (omega arith)))
]

scan_magnitude-Leading : {s : Text} → Leading s → scan_magnitude s ≡ some (scan_digits 10 0 s)
unfolding scan_magnitude
scan_magnitude-Leading (leading c s h d) = ground arith

zero_read : scan_magnitude (print_in 10 0) ≡ some 0
unfolding scan_magnitude print_in print_digits scan_zero
zero_read = refl

-- What `printf` writes of a number is read back.
scan_magnitude-print_in : (n : ℕ) → scan_magnitude (print_in 10 n) ≡ some n
unfolding print_in
scan_magnitude-print_in zero = zero_read
scan_magnitude-print_in (suc n) =
    scan_magnitude-Leading (print_digits-Leading (suc n) (suc n) (omega arith) (omega arith))
    ∙ ap some (scan_digits-print_digits (suc n) (suc n) (omega arith))

-- A text that begins with a digit.
pub data Digital : Text → Type 0 where
  digital : (c : ℕ) (s : Text) → IsDecimal c → Digital (c ∷ s)

Leading-Digital : {s : Text} → Leading s → Digital s
Leading-Digital (leading c s h d) = digital c s d

pub print_in-Digital : (n : ℕ) → Digital (print_in 10 n)
unfolding print_in print_digits
print_in-Digital zero = digital _ [] (digit-IsDecimal 0 (omega arith))
print_in-Digital (suc n) =
    Leading-Digital (print_digits-Leading (suc n) (suc n) (omega arith) (omega arith))

skip_space-Digital : {s : Text} → Digital s → skip_space s ≡ s
unfolding skip_space isspace digit_of
skip_space-Digital (digital c s d) = ground arith

scan_signed-Digital :
    {s : Text} {m : ℕ} → Digital s → scan_magnitude s ≡ some m → scan_signed s ≡ some (false, m)
unfolding scan_signed digit_of
scan_signed-Digital (digital c s d) e = ground arith

scan_signed-minus :
    (s : Text) (m : ℕ) → scan_magnitude s ≡ some m → scan_signed (minus ∷ s) ≡ some (true, m)
unfolding scan_signed
scan_signed-minus s m e = rw e refl

skip_space-minus : (s : Text) → skip_space (minus ∷ s) ≡ minus ∷ s
unfolding skip_space isspace
skip_space-minus s = refl

scanned-print_in : (n : ℕ) → scan_signed (skip_space (print_in 10 n)) ≡ some (false, n)
scanned-print_in n =
    ap scan_signed (skip_space-Digital (print_in-Digital n))
    ∙ scan_signed-Digital (print_in-Digital n) (scan_magnitude-print_in n)

scanned_minus : (n : ℕ) → scan_signed (skip_space (minus ∷ print_in 10 n)) ≡ some (true, n)
scanned_minus n =
    ap scan_signed (skip_space-minus (print_in 10 n))
    ∙ scan_signed-minus (print_in 10 n) n (scan_magnitude-print_in n)

-- `strtoul` reads what %u or %lu wrote of a number of 64 bits.
pub strtoul-print_in : (n : ℕ) → n < 2 ^ 64 → strtoul (print_in 10 n) ≡ some (n, false)
unfolding strtoul wrap
strtoul-print_in n h = ap unsigned_of (scanned-print_in n) ∙ ground arith

-- A number of 64 bits with a sign.
abbrev pub IsInt64 : ℤ → Type 0
IsInt64 (pos n) = n < 2 ^ 63
IsInt64 (negsuc n) = n < 2 ^ 63

signed_negate : (n : ℕ) → n < 2 ^ 63 → clamp true (n + 1) ≡ (negsuc n, false)
unfolding clamp negate
signed_negate n h = ground arith

-- `strtol` reads what %d or %ld wrote.
pub strtol-print_signed : (z : ℤ) → IsInt64 z → strtol (print_signed z) ≡ some (z, false)
unfolding strtol clamp print_signed negate
strtol-print_signed (pos n) h = ap signed_of (scanned-print_in n) ∙ ground arith
strtol-print_signed (negsuc n) h =
    ap signed_of (scanned_minus (n + 1)) ∙ ap some (signed_negate n h)
