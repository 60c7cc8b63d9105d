-- ===== src/Value.antt =====
-- lib/value.h: a typed value is a type byte, a length and that many bytes.
pub mod Numerals
pub mod Printing
use propd.Prelude.{
  ℕ, ◌≡◌, ◌<◌, ◌^◌, ◌+◌, ◌/◌, ◌%◌, ◌++◌, Text, Bool, true, List, [], ◌∷◌, Option, none, some,
  length, if◌then◌else◌, take, ap, refl, ℤ, pos, negsuc, Reply, ok, fault, ltb, ◌==◌, ◌-◌, ◌*◌,
}

-- `value_type_t`: the named types, and the bytes that name none.
pub data Tag : Type 0 where
  undef raw_data cstring i32 u32 i64 u64 float double : Tag
  unknown : ℕ → Tag

pub record Value : Type 0 where
  pub tag : Tag
  pub length : ℕ
  pub bytes : List ℕ

-- The length field counts the bytes and fits `uint32_t`, and each byte is one.
pub record IsValue (v : Value) : Type 0 where
  pub counted : v.length ≡ length v.bytes
  pub small : v.length < 2 ^ 32

-- `malloc` grants the memory or not.
unfoldable pub value_alloc : Bool → Tag → ℕ → List ℕ → Option Value
value_alloc granted tag n src =
    if granted then some (record { tag = tag; length = n; bytes = take n src }) else none

unfoldable pub value_dup : Bool → Value → Option Value
unfolding value_alloc
value_dup granted v = value_alloc granted v.tag v.length v.bytes

take-length : (xs : List ℕ) → take (length xs) xs ≡ xs
take-length [] = refl
take-length (x ∷ xs) = ap (◌∷◌ x) (take-length xs)

-- A copy that is granted is the value.
pub value_dup-IsValue : (v : Value) → IsValue v → value_dup true v ≡ some v
unfolding value_dup
value_dup-IsValue v h = ap some (λ i. record { tag = v.tag; length = v.length; bytes = whole i })
  where
    whole : take v.length v.bytes ≡ v.bytes
    whole = rw h.counted (take-length v.bytes)

-- A number in four bytes and in eight, the least first.
unfoldable pub bytes4 : ℕ → List ℕ
bytes4 n = n % 256 ∷ (n / 256) % 256 ∷ (n / 65536) % 256 ∷ (n / 16777216) % 256 ∷ []

unfoldable pub bytes8 : ℕ → List ℕ
unfolding bytes4
bytes8 n = bytes4 n ++ bytes4 (n / 2 ^ 32)

unfoldable pub value_data : Bool → List ℕ → Option Value
unfolding value_alloc
value_data granted bs = value_alloc granted raw_data (length bs) bs

-- The bytes of a C string with its NUL.
unfoldable pub value_cstring : Bool → Text → Option Value
unfolding value_alloc
value_cstring granted s = value_alloc granted cstring (length s + 1) (s ++ (0 ∷ []))

unfoldable pub value_u32 : Bool → ℕ → Option Value
unfolding value_alloc bytes4
value_u32 granted n = value_alloc granted u32 4 (bytes4 n)

unfoldable pub value_u64 : Bool → ℕ → Option Value
unfolding value_alloc bytes8
value_u64 granted n = value_alloc granted u64 8 (bytes8 n)

-- The bits of a signed number in a word of `modulus` values.
unfoldable pub word : ℕ → ℤ → ℕ
word modulus (pos n) = n
word modulus (negsuc n) = modulus - n - 1

unfoldable pub value_i32 : Bool → ℤ → Option Value
unfolding value_alloc bytes4 word
value_i32 granted z = value_alloc granted i32 4 (bytes4 (word (2 ^ 32) z))

unfoldable pub value_i64 : Bool → ℤ → Option Value
unfolding value_alloc bytes8 word
value_i64 granted z = value_alloc granted i64 8 (bytes8 (word (2 ^ 64) z))

-- The floating-point numbers are their bits.
unfoldable pub value_float : Bool → ℕ → Option Value
unfolding value_alloc bytes4
value_float granted n = value_alloc granted float 4 (bytes4 n)

unfoldable pub value_double : Bool → ℕ → Option Value
unfolding value_alloc bytes8
value_double granted n = value_alloc granted double 8 (bytes8 n)

-- The number that bytes stand for, the least first.
unfoldable pub number_of : List ℕ → ℕ
number_of [] = 0
number_of (b ∷ bs) = b + 256 * number_of bs

-- The body of `_value_to`: the copy of another number of bytes than the type has is a fault.
unfoldable pub copy_word : ℕ → Value → Reply ℕ
unfolding number_of
copy_word n v = if v.length == n then ok (number_of v.bytes) else fault

-- The signed number of those bits, in a word of twice `half` values.
unfoldable pub signed : ℕ → ℕ → ℤ
signed half n = if ltb n half then pos n else negsuc (2 * half - n - 1)
