-- ===== src/CtrlServer/Wire.antt =====
-- The packages of lib/ctrl_server.h as bytes: as the functions of lib/ctrl_client.c fill them, and as
-- `worker` of lib/ctrl_server.c reads them.
pub mod Codec
use propd.Prelude.{
  ℕ, zero, suc, ◌+◌, ◌*◌, ◌%◌, ◌^◌, Text, Bool, List, [], ◌∷◌, ◌++◌, Option, none, some, length,
  take, drop, ◌==◌, if◌then◌else◌, before_nul, strncpy, ◌>>=◌,
}
use propd.Value.{bytes4, number_of}
use propd.Builtin.Unix.{name_max}
use propd.CtrlServer.{
  Child, Package, ctrl_register_child, ctrl_register_parent, ctrl_unregister_child,
  ctrl_unregister_parent, ctrl_dump_db_route, ctrl_dump_db_cache, ctrl_unknown,
}

-- `sizeof(ctrl_package_t)`: the type, a name and two counts.
abbrev pub package_size : ℕ
package_size = 264

-- `ctrl_type_t`
unfoldable pub type_number : Package → ℕ
type_number (ctrl_register_child child) = 0
type_number (ctrl_register_parent name) = 1
type_number (ctrl_unregister_child name) = 2
type_number (ctrl_unregister_parent name) = 3
type_number ctrl_dump_db_route = 4
type_number ctrl_dump_db_cache = 5
type_number (ctrl_unknown n) = n

-- `(num_prefix + num_cache_now) * NAME_MAX`, which is a `uint32_t`, and the package before it. Where
-- that wraps, the client writes more than it allocated, which is not modelled.
unfoldable pub package_length : Package → ℕ
package_length (ctrl_register_child child) =
    package_size + (length child.prefix + length child.cache_now) * name_max % 2 ^ 32
package_length p = package_size

-- The two loops over the names.
unfoldable pub encode_names : List Text → List ℕ
encode_names [] = []
encode_names (s ∷ ss) = strncpy name_max s ++ encode_names ss

-- After the type; `junk` is what `malloc` left in the rest of the package.
unfoldable pub encode_body : List ℕ → Package → List ℕ
unfolding encode_names bytes4
encode_body junk (ctrl_register_child child) =
    strncpy name_max child.name
    ++ (bytes4 (length child.cache_now)
        ++ (bytes4 (length child.prefix)
            ++ (encode_names child.cache_now ++ encode_names child.prefix)))
encode_body junk (ctrl_register_parent name) = strncpy name_max name ++ drop name_max junk
encode_body junk (ctrl_unregister_child name) = strncpy name_max name ++ drop name_max junk
encode_body junk (ctrl_unregister_parent name) = strncpy name_max name ++ drop name_max junk
encode_body junk ctrl_dump_db_route = junk
encode_body junk ctrl_dump_db_cache = junk
encode_body junk (ctrl_unknown n) = junk

unfoldable pub encode_package : List ℕ → Package → List ℕ
unfolding encode_body type_number
encode_package junk p = type_number p ∷ encode_body junk p

-- The buffer of `server` after `recvfrom` of a datagram: as much of it as there is room for, and
-- then what `malloc` left.
unfoldable pub receive : List ℕ → List ℕ → List ℕ
receive junk datagram =
    let n = length junk in take n datagram ++ drop (length (take n datagram)) junk

-- A `uint32_t` at the head of the bytes.
unfoldable pub word_at : List ℕ → Option ℕ
unfolding number_of
word_at (a ∷ b ∷ c ∷ d ∷ rest) = some (number_of (a ∷ b ∷ c ∷ d ∷ []))
word_at bytes = none

-- The C strings at the head of that many name fields.
unfoldable pub names_at : ℕ → List ℕ → Option (List Text)
names_at zero bytes = some []
names_at (suc n) bytes = do
  s ← before_nul bytes
  ss ← names_at n (drop name_max bytes)
  some (s ∷ ss)

unfoldable pub decode_child : List ℕ → Option Package
unfolding word_at names_at
decode_child body = do
  name ← before_nul body
  num_cache_now ← word_at (drop name_max body)
  num_prefix ← word_at (drop (name_max + 4) body)
  cache_now ← names_at num_cache_now (drop (name_max + 8) body)
  prefix ← names_at num_prefix (drop (num_cache_now * name_max) (drop (name_max + 8) body))
  some (ctrl_register_child (record { name = name; cache_now = cache_now; prefix = prefix }))

unfoldable pub decode_name : (Text → Package) → List ℕ → Option Package
decode_name make body = do name ← before_nul body; some (make name)

-- What `worker` reads of a buffer, all names at once. The source reads a name when it needs it; where
-- one is missing, so that it may read past the buffer, this is `none`.
unfoldable pub decode_package : List ℕ → Option Package
unfolding decode_child decode_name
decode_package [] = none
decode_package (t ∷ body) =
    if t == 0
    then decode_child body
    else if t == 1
    then decode_name ctrl_register_parent body
    else if t == 2
    then decode_name ctrl_unregister_child body
    else if t == 3
    then decode_name ctrl_unregister_parent body
    else if t == 4
    then some ctrl_dump_db_route
    else if t == 5
    then some ctrl_dump_db_cache
    else some (ctrl_unknown t)
