-- ===== src/Builtin/Unix/Shared.antt =====
-- lib/builtin/unix.c: requests on a connection that is shared, and what they leave in its stream for
-- the next one; with `unix_stream_discard`.
use propd.Prelude.{
  ℕ, ℤ, Bool, true, false, List, [], ◌∷◌, ◌++◌, Option, none, some, Reply, ok, err, fault, Done,
  done, eio, enomem, take, drop, if◌then◌else◌,
}
use propd.Value.{Tag, Value}
use propd.Infra.Tree.{TreeOps}
use propd.Infra.NamedMutex.{Nmtx}
use propd.Cache.{CacheItem}
use propd.Io.{Env, State, io_get, io_set, io_del}
use propd.IoServer.{
  type_get, type_set, type_del, Message, io_package, value_head, bytes, duration, result,
  send_value, recv_bytes,
}
use propd.Builtin.Unix.{io_begin}
use propd.Builtin.Unix.Remote.{seen, IsAnswer}
use propd.Builtin.Unix.Session.{Request, asks_get, asks_set, asks_del}

-- It throws away what has arrived and does not wait for what is on its way. What one `send` queues at
-- once arrives whole, so that so many entries have arrived.
unfoldable pub unix_stream_discard : ℕ → List Message → List Message
unix_stream_discard arrived stream = drop arrived stream

-- What a request answers, and what it leaves in the stream. `none` where an entry is not the one that
-- the code reads, or the answer breaks off: what bytes it gets then is not modelled.
abbrev pub Read : Type 0 → Type 0
Read A = Option (Reply A × List Message)

-- `get` behind `io_end`.
after_end : ℕ → Value × ℤ → Done → List Message → Reply (Value × ℤ) × List Message
unfolding unix_stream_discard
after_end arrived v (ok u) rest = (ok v, rest)
after_end arrived v (err e) rest = (err e, unix_stream_discard arrived rest)
after_end arrived v fault rest = (fault, rest)

read_end : ℕ → Value × ℤ → List Message → Read (Value × ℤ)
unfolding after_end
read_end arrived v [] = some (err eio, [])
read_end arrived v (result r ∷ rest) = some (after_end arrived v r rest)
read_end arrived v (io_package p ∷ rest) = none
read_end arrived v (value_head t n ∷ rest) = none
read_end arrived v (bytes bs ∷ rest) = none
read_end arrived v (duration d ∷ rest) = none

value_after : ℕ → ℤ → Tag → ℕ → Option (List ℕ × List Message) → Read (Value × ℤ)
unfolding read_end
value_after arrived d tag n none = none
value_after arrived d tag n (some (bs, rest)) =
    read_end arrived (record { tag = tag; length = n; bytes = bs }, d) rest

-- `get` behind the request; the Boolean grants the memory of the value.
unfoldable pub read_get : Bool → ℕ → List Message → Read (Value × ℤ)
unfolding value_after recv_bytes unix_stream_discard
read_get granted arrived (duration d ∷ value_head tag n ∷ rest) =
    if granted
    then value_after arrived d tag n (recv_bytes n rest)
    else some (err enomem, unix_stream_discard arrived rest)
read_get granted arrived [] = some (err eio, [])
read_get granted arrived _ = none

-- `set` and `del` behind the request.
unfoldable pub read_done : List Message → Read Unit
read_done [] = some (err eio, [])
read_done (result r ∷ rest) = some (r, rest)
read_done _ = none

-- The reply of a request: that of a `get`, or that of the others.
pub data Answered : Type 0 where
  with_value : Reply (Value × ℤ) → Answered
  with_done : Done → Answered

unfoldable pub answered_with {ℓ κ} :
    {A : Type ℓ} {W : Type κ}
    → (Reply A → Answered)
    → W
    → Option (Reply A × List Message)
    → Option (Answered × W × List Message)
answered_with f w none = none
answered_with f w (some (r, rest)) = some (f r, w, rest)

-- A request on the shared connection in whose stream there may be something already.
unfoldable pub shared_request :
    {W : Type 0}
    → (W → List Message → List Message × W)
    → Bool
    → ℕ
    → ℤ
    → W
    → List Message
    → Request
    → Option (Answered × W × List Message)
unfolding read_get read_done io_begin answered_with
shared_request exchange granted arrived now w stream (asks_get key) =
    let (sent, w') = exchange w (io_begin type_get now key none) in
    answered_with with_value w' (read_get granted arrived (stream ++ sent))
shared_request exchange granted arrived now w stream (asks_set key v) =
    let (sent, w') = exchange w (io_begin type_set now key (some v)) in
    answered_with with_done w' (read_done (stream ++ sent))
shared_request exchange granted arrived now w stream (asks_del key) =
    let (sent, w') = exchange w (io_begin type_del now key none) in
    answered_with with_done w' (read_done (stream ++ sent))

-- What a client without memory for the value makes of an answer.
abbrev pub without_memory : Bool → Reply (Value × ℤ) → Reply (Value × ℤ)
without_memory true r = seen r
without_memory false (ok v) = err enomem
without_memory false (err e) = err enomem
without_memory false fault = err eio

-- What it has not read of the answer.
abbrev pub unread : ℕ → Bool → Reply (Value × ℤ) → List Message
unread at_once true r = []
unread at_once false (ok (v, d)) = send_value at_once (take v.length v.bytes) ++ (result done ∷ [])
unread at_once false (err e) = result (err e) ∷ []
unread at_once false fault = []

module _ {W : Type 0} (C : TreeOps CacheItem) (N : TreeOps Nmtx) (env : Env) where
  -- A `get` is answered with a value that has as many bytes as it says.
  abbrev pub IsAnswered : State W C N → Request → Type 0
  IsAnswered s (asks_get key) = IsAnswer env.at_once (io_get C N env s key).0
  IsAnswered s (asks_set key v) = Unit
  IsAnswered s (asks_del key) = Unit

  abbrev pub asked : Bool → State W C N → Request → Answered × State W C N
  asked granted s (asks_get key) =
      let (ret, s') = io_get C N env s key in (with_value (without_memory granted ret), s')
  asked granted s (asks_set key v) =
      let (ret, s') = io_set C N env s key v in (with_done (seen ret), s')
  asked granted s (asks_del key) =
      let (ret, s') = io_del C N env s key in (with_done (seen ret), s')

  abbrev pub unread_of : Bool → State W C N → Request → List Message
  unread_of granted s (asks_get key) = unread env.at_once granted (io_get C N env s key).0
  unread_of granted s (asks_set key v) = []
  unread_of granted s (asks_del key) = []
