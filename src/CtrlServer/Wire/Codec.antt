-- ===== src/CtrlServer/Wire/Codec.antt =====
-- The server reads the package that a client of lib/ctrl_client.c sends.
use propd.Prelude.{
  ℕ, suc, ◌+◌, ◌*◌, ◌^◌, ◌≤◌, ◌<◌, ◌≡◌, refl, ap, ◌∙◌, Text, List, [], ◌∷◌, ◌++◌, some, length,
  drop, arith, strncpy, All, IsCString, before_nul-strncpy, drop-strncpy, length-strncpy,
  length-append, drop_add, drop_zero, take-length_le, length-drop,
}
use mathlib.Core.List.{append_assoc}
use propd.Value.{bytes4}
use propd.Value.Printing.Numbers.{number_of-bytes4}
use propd.CtrlServer.{
  Child, Package, ctrl_register_child, ctrl_register_parent, ctrl_unregister_child,
  ctrl_unregister_parent, ctrl_dump_db_route, ctrl_dump_db_cache, ctrl_unknown,
}
use propd.Builtin.Unix.{name_max}
use propd.CtrlServer.Wire.{
  package_size, type_number, package_length, encode_names, encode_body, encode_package, receive,
  word_at, names_at, decode_child, decode_name, decode_package,
}

-- A name that a field holds with its NUL.
pub record IsName (s : Text) : Type 0 where
  pub content : IsCString s
  pub fits : length s < name_max

word_at-bytes4 : (n : ℕ) (rest : List ℕ) → n < 2 ^ 32 → word_at (bytes4 n ++ rest) ≡ some n
unfolding word_at bytes4
word_at-bytes4 n rest h = ap some (number_of-bytes4 n h)

names_at_step :
    (s : Text) (n : ℕ) (rest : List ℕ) (ss : List Text)
    → IsName s
    → names_at n rest ≡ some ss
    → names_at (suc n) (strncpy name_max s ++ rest) ≡ some (s ∷ ss)
unfolding names_at
names_at_step s n rest ss h e =
    rw (before_nul-strncpy name_max s rest h.content h.fits, drop-strncpy name_max s rest, e) refl

one_more : (n : ℕ) → suc n * name_max ≡ name_max + n * name_max
one_more n = omega arith

names_at-encode_names :
    (ss : List Text) (rest : List ℕ)
    → All IsName ss
    → names_at (length ss) (encode_names ss ++ rest) ≡ some ss
unfolding names_at encode_names
names_at-encode_names [] rest h = refl
names_at-encode_names (s ∷ ss) rest h =
    ap (names_at (suc (length ss))) (append_assoc (strncpy name_max s) (encode_names ss) rest)
    ∙ names_at_step s (length ss) _ ss h.0 (names_at-encode_names ss rest h.1)

drop-encode_names :
    (ss : List Text) (rest : List ℕ) → drop (length ss * name_max) (encode_names ss ++ rest) ≡ rest
unfolding encode_names
drop-encode_names [] rest = drop_zero (0 * name_max) rest (omega arith)
drop-encode_names (s ∷ ss) rest =
    ap (λ n. drop n ((strncpy name_max s ++ encode_names ss) ++ rest)) (one_more (length ss))
    ∙ drop_add name_max (length ss * name_max) _
    ∙ ap (λ l. drop (length ss * name_max) (drop name_max l))
        (append_assoc (strncpy name_max s) (encode_names ss) rest)
    ∙ ap (drop (length ss * name_max)) (drop-strncpy name_max s (encode_names ss ++ rest))
    ∙ drop-encode_names ss rest

drop_word : (n : ℕ) (rest : List ℕ) → drop 4 (bytes4 n ++ rest) ≡ rest
unfolding bytes4
drop_word n rest = refl

drop_words : (m n : ℕ) (rest : List ℕ) → drop 8 (bytes4 m ++ (bytes4 n ++ rest)) ≡ rest
unfolding bytes4
drop_words m n rest = refl

after_name :
    (n : ℕ) (name : Text) (rest : List ℕ)
    → drop (name_max + n) (strncpy name_max name ++ rest) ≡ drop n rest
after_name n name rest =
    drop_add name_max n (strncpy name_max name ++ rest)
    ∙ ap (drop n) (drop-strncpy name_max name rest)

-- A child that fits the package's fields, with so few names that the package's length does not wrap.
pub record IsChild (child : Child) : Type 0 where
  pub name_fits : IsName child.name
  pub cached : All IsName child.cache_now
  pub prefixed : All IsName child.prefix
  pub few : (length child.prefix + length child.cache_now) * name_max < 2 ^ 32

decode_child_lem :
    (child : Child) (tail : List ℕ)
    → IsChild child
    → decode_child (
        strncpy name_max child.name
        ++ (bytes4 (length child.cache_now)
            ++ (bytes4 (length child.prefix)
                ++ (encode_names child.cache_now ++ (encode_names child.prefix ++ tail)))))
      ≡ some (ctrl_register_child child)
unfolding decode_child
decode_child_lem child tail h =
    rw
      (
        before_nul-strncpy name_max child.name rest h.name_fits.content h.name_fits.fits,
        drop-strncpy name_max child.name rest,
        after_name 4 child.name rest,
        after_name 8 child.name rest,
        word_at-bytes4 (length child.cache_now) _ (omega (arith, h.few)),
        drop_word (length child.cache_now) rest1,
        word_at-bytes4 (length child.prefix) rest2 (omega (arith, h.few)),
        drop_words (length child.cache_now) (length child.prefix) rest2,
        names_at-encode_names child.cache_now (encode_names child.prefix ++ tail) h.cached,
        drop-encode_names child.cache_now (encode_names child.prefix ++ tail),
        names_at-encode_names child.prefix tail h.prefixed,
      )
      refl
  where
    rest2 : List ℕ
    rest2 = encode_names child.cache_now ++ (encode_names child.prefix ++ tail)

    rest1 : List ℕ
    rest1 = bytes4 (length child.prefix) ++ rest2

    rest : List ℕ
    rest = bytes4 (length child.cache_now) ++ rest1

-- A package that the client's functions can write and the server's can tell apart.
abbrev pub Sendable : Package → Type 0
Sendable (ctrl_register_child child) = IsChild child
Sendable (ctrl_register_parent name) = IsName name
Sendable (ctrl_unregister_child name) = IsName name
Sendable (ctrl_unregister_parent name) = IsName name
Sendable ctrl_dump_db_route = Unit
Sendable ctrl_dump_db_cache = Unit
Sendable (ctrl_unknown n) = 5 < n

decode_package-encode_child :
    (child : Child) (junk tail : List ℕ)
    → IsChild child
    → decode_package (encode_package junk (ctrl_register_child child) ++ tail)
      ≡ some (ctrl_register_child child)
unfolding decode_package encode_package encode_body type_number
decode_package-encode_child child junk tail h =
    ap decode_child (
      append_assoc (strncpy name_max child.name) _ tail
      ∙ ap (strncpy name_max child.name ++◌) (
          append_assoc (bytes4 (length child.cache_now)) counted tail
          ∙ ap (bytes4 (length child.cache_now) ++◌) (
              append_assoc (bytes4 (length child.prefix)) names tail
              ∙ ap (bytes4 (length child.prefix) ++◌)
                  (append_assoc (encode_names child.cache_now) _ tail))))
    ∙ decode_child_lem child tail h
  where
    names : List ℕ
    names = encode_names child.cache_now ++ encode_names child.prefix

    counted : List ℕ
    counted = bytes4 (length child.prefix) ++ names

decode_name_lem :
    (make : Text → Package) (name : Text) (junk tail : List ℕ)
    → IsName name
    → decode_name make ((strncpy name_max name ++ drop name_max junk) ++ tail) ≡ some (make name)
unfolding decode_name
decode_name_lem make name junk tail h =
    ap (decode_name make) (append_assoc (strncpy name_max name) _ tail)
    ∙ rw (before_nul-strncpy name_max name (drop name_max junk ++ tail) h.content h.fits) refl

decode_package-encode_tail :
    (p : Package) (junk tail : List ℕ)
    → Sendable p
    → decode_package (encode_package junk p ++ tail) ≡ some p
unfolding decode_package encode_package encode_body type_number
decode_package-encode_tail (ctrl_register_child child) junk tail h =
    decode_package-encode_child child junk tail h
decode_package-encode_tail (ctrl_register_parent name) junk tail h =
    decode_name_lem ctrl_register_parent name junk tail h
decode_package-encode_tail (ctrl_unregister_child name) junk tail h =
    decode_name_lem ctrl_unregister_child name junk tail h
decode_package-encode_tail (ctrl_unregister_parent name) junk tail h =
    decode_name_lem ctrl_unregister_parent name junk tail h
decode_package-encode_tail ctrl_dump_db_route junk tail h = refl
decode_package-encode_tail ctrl_dump_db_cache junk tail h = refl
decode_package-encode_tail (ctrl_unknown n) junk tail h = ground arith

length-encode_names : (ss : List Text) → length (encode_names ss) ≡ length ss * name_max
unfolding encode_names
length-encode_names [] = omega arith
length-encode_names (s ∷ ss) = omega (
  arith,
  length-append (strncpy name_max s) (encode_names ss),
  length-strncpy name_max s,
  length-encode_names ss,
)

length_name :
    (name : Text) (junk : List ℕ)
    → length junk + 1 ≡ package_size
    → length (strncpy name_max name ++ drop name_max junk) + 1 ≡ package_size
length_name name junk e = omega (
  arith,
  length-append (strncpy name_max name) (drop name_max junk),
  length-strncpy name_max name,
  length-drop name_max junk,
)

-- The client sends as many bytes as it says.
length-encode_package :
    (junk : List ℕ) (p : Package)
    → length junk + 1 ≡ package_size
    → Sendable p
    → length (encode_package junk p) ≡ package_length p
unfolding encode_package encode_body package_length bytes4
length-encode_package junk (ctrl_register_child child) e h = omega (
  arith,
  length-append (strncpy name_max child.name) _,
  length-strncpy name_max child.name,
  length-append (encode_names child.cache_now) (encode_names child.prefix),
  length-encode_names child.cache_now,
  length-encode_names child.prefix,
  h.few,
)
length-encode_package junk (ctrl_register_parent name) e h = omega (arith, length_name name junk e)
length-encode_package junk (ctrl_unregister_child name) e h = omega (arith, length_name name junk e)
length-encode_package junk (ctrl_unregister_parent name) e h =
    omega (arith, length_name name junk e)
length-encode_package junk ctrl_dump_db_route e h = omega arith
length-encode_package junk ctrl_dump_db_cache e h = omega arith
length-encode_package junk (ctrl_unknown n) e h = omega arith

receive_whole :
    (junk datagram : List ℕ)
    → length datagram ≤ length junk
    → receive junk datagram ≡ datagram ++ drop (length datagram) junk
unfolding receive
receive_whole junk datagram h = rw (take-length_le (length junk) datagram h) refl

-- A server reads from its buffer the package that a client wrote, with every name and count, when
-- the names fit their fields, are so few that the length does not wrap at 2^32, and the whole package
-- fits the buffer, whatever `malloc` had left in the memory of both; the client's package has the
-- length that it allocated.
pub decode_package-encode_package :
    (junk buffer : List ℕ) (p : Package)
    → length junk + 1 ≡ package_size
    → Sendable p
    → package_length p ≤ length buffer
    → (decode_package (receive buffer (encode_package junk p)) ≡ some p)
      × (length (encode_package junk p) ≡ package_length p)
decode_package-encode_package junk buffer p e h fits = (
  ap decode_package (
        receive_whole buffer (encode_package junk p)
          (omega (arith, length-encode_package junk p e h)))
      ∙ decode_package-encode_tail p junk _ h,
  length-encode_package junk p e h,
)
