-- ===== src/Builtin/File/Format.antt =====
-- The layout of `value_t` of lib/value.h in a file of lib/builtin/file.c: the type in a byte, the
-- length in four, the least first, and the bytes.
use propd.Prelude.{
  ℕ, zero, suc, ◌+◌, ◌*◌, ◌/◌, ◌%◌, List, ◌∷◌, Option, none, some, take, length, ltb, ◌==◌,
  if◌then◌else◌,
}
use propd.Value.{Tag, undef, raw_data, cstring, i32, u32, i64, u64, float, double, unknown, Value}

-- `enum value_type`
unfoldable pub tag_byte : Tag → ℕ
tag_byte undef = 0
tag_byte raw_data = 1
tag_byte cstring = 2
tag_byte i32 = 3
tag_byte u32 = 4
tag_byte i64 = 5
tag_byte u64 = 6
tag_byte float = 7
tag_byte double = 8
tag_byte (unknown n) = n

unfoldable pub byte_tag : ℕ → Tag
byte_tag n =
    if n == 0
    then undef
    else if n == 1
    then raw_data
    else if n == 2
    then cstring
    else if n == 3
    then i32
    else if n == 4
    then u32
    else if n == 5
    then i64
    else if n == 6
    then u64
    else if n == 7
    then float
    else if n == 8
    then double
    else unknown n

unfoldable pub encode : Value → List ℕ
unfolding tag_byte
encode v =
    tag_byte v.tag
    ∷ v.length % 256
    ∷ (v.length / 256) % 256
    ∷ (v.length / 65536) % 256
    ∷ (v.length / 16777216) % 256
    ∷ take v.length v.bytes

pub record Head : Type 0 where
  pub tag : Tag
  pub length : ℕ

-- `fread(&value_head, sizeof(value_t), 1, fp)`
unfoldable pub decode_head : List ℕ → Option (Head × List ℕ)
unfolding byte_tag
decode_head (t ∷ a ∷ b ∷ c ∷ d ∷ rest) =
    some (record { tag = byte_tag t; length = a + b * 256 + c * 65536 + d * 16777216 }, rest)
decode_head _ = none

-- `fread(_value->data, _value->length, 1, fp)` returns 1 only if there is something to read and all
-- of it is there.
unfoldable pub sized_bytes : ℕ → List ℕ → Option (List ℕ)
sized_bytes zero bs = none
sized_bytes (suc n) bs = if ltb (length bs) (suc n) then none else some (take (suc n) bs)
