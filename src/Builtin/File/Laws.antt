-- ===== src/Builtin/File/Laws.antt =====
-- What is written to lib/builtin/file.c's storage and read back.
use propd.Prelude.{
  ℕ, zero, suc, ◌+◌, ◌*◌, ◌/◌, ◌%◌, ◌^◌, ◌≡◌, ◌≤◌, ◌<◌, refl, ap, sym, ◌∙◌, Text, text_eq,
  text_eq_refl, Option-cases, inl, inr, pos, Bool, true, false, List, ◌∷◌, ◌++◌, none, some, ok,
  err, done, eio, take, take-length_le, length, ltb, leb, if◌then◌else◌, arith,
}
use propd.Value.{
  Tag, undef, raw_data, cstring, i32, u32, i64, u64, float, double, unknown, Value, IsValue,
}
use propd.Infra.Tree.{TreeOps}
use propd.Builtin.File.Format.{tag_byte, byte_tag, encode, decode_head, sized_bytes}
use propd.Builtin.File.{
  slash, path_of, path_max, path_short, read_value, read_body, read_data, read_found, write_file,
  file_get, file_set,
}

-- A type that the program names, or a byte above those.
abbrev pub IsNamed : Tag → Type 0
IsNamed (unknown n) = (8 < n) × (n < 256)
IsNamed _ = Unit

byte_tag-tag_byte : (t : Tag) → IsNamed t → byte_tag (tag_byte t) ≡ t
unfolding byte_tag tag_byte
byte_tag-tag_byte undef h = refl
byte_tag-tag_byte raw_data h = refl
byte_tag-tag_byte cstring h = refl
byte_tag-tag_byte i32 h = refl
byte_tag-tag_byte u32 h = refl
byte_tag-tag_byte i64 h = refl
byte_tag-tag_byte u64 h = refl
byte_tag-tag_byte float h = refl
byte_tag-tag_byte double h = refl
byte_tag-tag_byte (unknown n) h = ground arith

length_bytes :
    (n : ℕ)
    → n < 2 ^ 32
    → n % 256 + (n / 256) % 256 * 256 + (n / 65536) % 256 * 65536 + (n / 16777216) % 256 * 16777216
      ≡ n
length_bytes n h = omega arith

not_lt : (n : ℕ) → ltb n n ≡ false
not_lt n = ground arith

take-take : (n : ℕ) (xs : List ℕ) → length xs ≡ n → take n xs ≡ xs
take-take n xs h = take-length_le n xs (omega (arith, h))

encode-IsValue :
    (v : Value)
    → IsValue v
    → encode v ≡ (
        tag_byte v.tag
        ∷ v.length % 256
        ∷ (v.length / 256) % 256
        ∷ (v.length / 65536) % 256
        ∷ (v.length / 16777216) % 256
        ∷ v.bytes)
unfolding encode
encode-IsValue v h = rw (take-take v.length v.bytes (sym h.counted)) refl

sized_bytes-full : (n : ℕ) (bs : List ℕ) → n ≡ length bs → 0 < n → sized_bytes n bs ≡ some bs
unfolding sized_bytes
sized_bytes-full zero bs e h = absurd (omega arith)
sized_bytes-full (suc n) bs e h = rw (← e, not_lt (suc n), take-take (suc n) bs (sym e)) refl

decode_head-encode :
    (v : Value)
    → IsValue v
    → IsNamed v.tag
    → decode_head (encode v) ≡ some (record { tag = v.tag; length = v.length }, v.bytes)
unfolding decode_head
decode_head-encode v h named =
    rw (encode-IsValue v h, byte_tag-tag_byte v.tag named, length_bytes v.length h.small) refl

read_value-encode :
    (v : Value)
    → IsValue v
    → IsNamed v.tag
    → 0 < v.length
    → read_value true (encode v) ≡ ok (v, pos 0)
unfolding read_value read_body read_data
read_value-encode v h named p =
    ap (read_body true) (decode_head-encode v h named)
    ∙ ap (read_data (record { tag = v.tag; length = v.length }))
        (sized_bytes-full v.length v.bytes h.counted p)

no_bytes : (bs : List ℕ) (n : ℕ) → n ≡ 0 → sized_bytes n bs ≡ none
unfolding sized_bytes
no_bytes bs zero e = refl
no_bytes bs (suc n) e = absurd (omega arith)

read_value-no_bytes :
    (v : Value) → IsValue v → IsNamed v.tag → v.length ≡ 0 → read_value true (encode v) ≡ err eio
unfolding read_value read_body read_data
read_value-no_bytes v h named e =
    ap (read_body true) (decode_head-encode v h named)
    ∙ ap (read_data (record { tag = v.tag; length = v.length })) (no_bytes v.bytes v.length e)

module _ (F : TreeOps (List ℕ)) where
  find-write_file :
      (fs : F.Tree) (path : Text) (file : List ℕ) (other : Text)
      → F.find (write_file F fs path file) other
        ≡ (if text_eq path other then some file else F.find fs other)
  unfolding write_file text_eq
  find-write_file fs path file other = elim (Option-cases (F.find fs path)) [
    | inl e ↦ rw (write_file, e) (F.find-insert fs path file e other)
    | inr (old, e) ↦ rw (write_file, e) (F.find-assign fs path old file e other)
  ]

  whole_path :
      (root key : Text)
      → length (root ++ (slash ∷ key)) < path_short
      → (path_of path_short root key ≡ root ++ (slash ∷ key))
        × (path_of path_max root key ≡ root ++ (slash ∷ key))
  unfolding path_of
  whole_path root key h = (take-length_le 255 _ (omega arith), take-length_le 4095 _ (omega arith))

  in_room : (room : ℕ) (v : Value) → length (encode v) ≤ room → leb (length (encode v)) room ≡ true
  in_room room v fits = ground arith

  wrote :
      (told : Bool) (room : ℕ) (root : Text) (fs : F.Tree) (key : Text) (v : Value)
      → length (encode v) ≤ room
      → file_set F none told room root fs key v
        ≡ (done, write_file F fs (path_of path_short root key) (encode v))
  unfolding file_set
  wrote told room root fs key v fits =
      rw (in_room room v fits, take-length_le room (encode v) fits) refl

  found_same :
      (root : Text) (fs : F.Tree) (key : Text) (file : List ℕ)
      → length (root ++ (slash ∷ key)) < path_short
      → F.find (write_file F fs (path_of path_short root key) file) (path_of path_max root key)
        ≡ some file
  found_same root fs key file short =
      rw ((whole_path root key short).0, (whole_path root key short).1)
        (find-write_file fs (root ++ (slash ∷ key)) file (root ++ (slash ∷ key))
          ∙ rw (text_eq_refl (root ++ (slash ∷ key))) refl)

  -- `file_get` opens the file that `file_set` wrote.
  read_same :
      (granted : Bool) (root : Text) (fs : F.Tree) (key : Text) (file : List ℕ)
      → length (root ++ (slash ∷ key)) < path_short
      → (file_get F granted root (write_file F fs (path_of path_short root key) file) key).0
        ≡ read_value granted file
  unfolding file_get read_found
  read_same granted root fs key file short =
      ap (read_found granted) (found_same root fs key file short)

  -- A value of a named type, or of a type byte above those, with its bytes counted, at least one, set
  -- under a key whose path has fewer than 256 characters, where the file opens and has room for it
  -- all, is what `file_get`, with memory, reads back, with the duration 0.
  pub file_get-file_set :
      (told : Bool) (room : ℕ) (root : Text) (fs : F.Tree) (key : Text) (v : Value)
      → IsValue v
      → IsNamed v.tag
      → 0 < v.length
      → length (root ++ (slash ∷ key)) < path_short
      → length (encode v) ≤ room
      → ((file_set F none told room root fs key v).0 ≡ done)
        × ((file_get F true root (file_set F none told room root fs key v).1 key).0 ≡ ok (v, pos 0))
  file_get-file_set told room root fs key v h named p short fits = (
    ap (λ r. r.0) (wrote told room root fs key v fits),
    ap (λ r. (file_get F true root r.1 key).0) (wrote told room root fs key v fits)
        ∙ read_same true root fs key (encode v) short
        ∙ read_value-encode v h named p,
  )

  -- The bug: a value without bytes, of a named type or of a type byte above those, set under a key whose
  -- path has fewer than 256 characters, where the file opens and has room, is written without an
  -- error, and reading it back, with memory, fails with EIO.
  pub file_get-file_set_no_bytes :
      (told : Bool) (room : ℕ) (root : Text) (fs : F.Tree) (key : Text) (v : Value)
      → IsValue v
      → IsNamed v.tag
      → v.length ≡ 0
      → length (root ++ (slash ∷ key)) < path_short
      → length (encode v) ≤ room
      → ((file_set F none told room root fs key v).0 ≡ done)
        × ((file_get F true root (file_set F none told room root fs key v).1 key).0 ≡ err eio)
  file_get-file_set_no_bytes told room root fs key v h named e short fits = (
    ap (λ r. r.0) (wrote told room root fs key v fits),
    ap (λ r. (file_get F true root r.1 key).0) (wrote told room root fs key v fits)
        ∙ read_same true root fs key (encode v) short
        ∙ read_value-no_bytes v h named e,
  )
