-- ===== src/Builtin/Unix.antt =====
-- lib/builtin/unix.c: a storage that asks another server over a socket. What the peer does with what
-- is sent to it is a parameter, `exchange`: the entries that it sends back, and its new state.
pub mod Remote
pub mod Session
pub mod Connection
pub mod Shared
use propd.Prelude.{
  ℕ, zero, suc, Text, ℤ, pos, Bool, true, false, List, [], ◌∷◌, ◌++◌, Option, none, some, Reply, ok,
  err, fault, Done, done, eio, enxio, enomem, take, length, if◌then◌else◌,
}
use propd.Value.{Tag, undef, Value}
use propd.Storage.{Storage}
use propd.IoServer.{
  IoType, type_get, type_set, type_del, IoPackage, Message, io_package, value_head, bytes, duration,
  result, send_bytes, recv_bytes,
}

-- The room for a key in a package. The source copies with `strncpy`, so a longer key arrives cut and
-- without its NUL; what the server then reads behind it is not modelled.
abbrev pub name_max : ℕ
name_max = 255

abbrev pub head_of : IoType → ℤ → Text → Tag → ℕ → IoPackage
head_of type now key tag n = record {
  type = type;
  created = now;
  key = take name_max key;
  value_type = tag;
  value_length = n;
}

-- What the client sends; the value is `none` where the source passes NULL.
unfoldable pub io_begin : IoType → ℤ → Text → Option Value → List Message
unfolding send_bytes
io_begin type now key none = io_package (head_of type now key undef 0) ∷ []
io_begin type now key (some v) =
    io_package (head_of type now key v.tag v.length) ∷ send_bytes (take v.length v.bytes)

unfoldable pub io_end : List Message → Done
io_end (result r ∷ rest) = r
io_end [] = err eio
io_end (io_package p ∷ rest) = err eio
io_end (value_head t n ∷ rest) = err eio
io_end (bytes bs ∷ rest) = err eio
io_end (duration d ∷ rest) = err eio

ended : Value → ℤ → Done → Reply (Value × ℤ)
ended v d (ok u) = ok (v, d)
ended v d (err e) = err e
ended v d fault = fault

received : ℤ → Tag → ℕ → Option (List ℕ × List Message) → Reply (Value × ℤ)
unfolding ended io_end
received d tag n none = err eio
received d tag n (some (bs, rest)) =
    ended (record { tag = tag; length = n; bytes = bs }) d (io_end rest)

-- What `get` makes of the answer; the Boolean grants the memory of the value.
unfoldable pub get_reply : Bool → List Message → Reply (Value × ℤ)
unfolding received recv_bytes
get_reply granted (duration d ∷ value_head tag n ∷ rest) =
    if granted then received d tag n (recv_bytes n rest) else err enomem
get_reply granted _ = err eio

module _ {W : Type 0} (exchange : W → List Message → List Message × W) where
  -- The first Boolean says whether `io_connect` succeeds; a storage that is shared has its
  -- connection already.
  unfoldable pub unix_get : Bool → Bool → ℤ → W → Text → Reply (Value × ℤ) × W
  unix_get connected granted now w key =
      if connected
      then (let (answer, w') = exchange w (io_begin type_get now key none) in
          (get_reply granted answer, w'))
      else (err enxio, w)

  unfoldable pub unix_set : Bool → ℤ → W → Text → Value → Done × W
  unix_set connected now w key v =
      if connected
      then (let (answer, w') = exchange w (io_begin type_set now key (some v)) in
          (io_end answer, w'))
      else (err enxio, w)

  unfoldable pub unix_del : Bool → ℤ → W → Text → Done × W
  unix_del connected now w key =
      if connected
      then (let (answer, w') = exchange w (io_begin type_del now key none) in (io_end answer, w'))
      else (err enxio, w)

  -- Without `shared`; the two Booleans grant the memory of the name and the private part, and that of
  -- a value that is read.
  unfoldable pub constructor_unix : Bool → Bool → Bool → ℤ → Text → Reply (Storage W)
  constructor_unix made connected granted now name =
      if made
      then ok (record {
        name = name;
        get = some (unix_get connected granted now);
        set = some (unix_set connected now);
        del = some (unix_del connected now);
        destructor = none;
      })
      else err enomem
