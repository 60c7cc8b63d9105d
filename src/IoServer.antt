-- ===== src/IoServer.antt =====
-- lib/io_server.h and lib/io_server.c: how a server answers the requests of one connection. The
-- stream of a connection is a list of what one `send` puts there; the bytes of a value are one
-- entry, and none if there are none. What a socket queues at once, up to `at_once` bytes of the round's
-- surroundings, arrives whole; of a longer value a `recv` gets these bytes alone. Here the peer reads until it has its result, so no send fails;
-- Sending is about a peer that goes away.
pub mod Loop
pub mod Sending
use propd.Prelude.{
  ℕ, zero, suc, ◌==◌, Text, ℤ, pos, Bool, true, false, List, [], ◌∷◌, ◌++◌, Option, none, some,
  Reply, ok, err, fault, Done, done, eio, enomem, length, take, drop, leb, if◌then◌else◌,
}
use propd.Value.{Tag, undef, Value}
use propd.Infra.Tree.{TreeOps}
use propd.Infra.NamedMutex.{Nmtx}
use propd.Cache.{CacheItem}
use propd.Io.{Env, State, io_get, io_set, io_del}

-- `io_type_t`; a byte that names none is `type_other`.
pub data IoType : Type 0 where
  type_get type_set type_del : IoType
  type_other : ℕ → IoType

-- `io_package_t` with the header of its value.
pub record IoPackage : Type 0 where
  pub type : IoType
  pub created : ℤ
  pub key : Text
  pub value_type : Tag
  pub value_length : ℕ

pub data Message : Type 0 where
  io_package : IoPackage → Message
  value_head : Tag → ℕ → Message
  bytes : List ℕ → Message
  duration : ℤ → Message
  result : Done → Message

unfoldable pub send_bytes : List ℕ → List Message
send_bytes [] = []
send_bytes (b ∷ bs) = bytes (b ∷ bs) ∷ []

-- A value that is sent, as the receiver gets it.
unfoldable pub send_value : ℕ → List ℕ → List Message
unfolding send_bytes
send_value at_once bs =
    if leb (length bs) at_once
    then send_bytes bs
    else bytes (take at_once bs) ∷ send_bytes (drop at_once bs)

exact : ℕ → List ℕ → List Message → Option (List ℕ × List Message)
exact n bs rest = if length bs == n then some (bs, rest) else none

-- A `recv` of so many bytes, and whether it got that many.
unfoldable pub recv_bytes : ℕ → List Message → Option (List ℕ × List Message)
unfolding exact
recv_bytes zero stream = some ([], stream)
recv_bytes (suc n) [] = none
recv_bytes (suc n) (bytes bs ∷ rest) = exact (suc n) bs rest
recv_bytes (suc n) (io_package p ∷ rest) = none
recv_bytes (suc n) (value_head t k ∷ rest) = none
recv_bytes (suc n) (duration d ∷ rest) = none
recv_bytes (suc n) (result r ∷ rest) = none

-- The `recv` of a value in the server's `set`, and what it leaves where it does not get it whole.
unfoldable pub recv_value : ℕ → ℕ → List Message → Option (List ℕ × List Message)
unfolding recv_bytes
recv_value at_once n stream = if leb n at_once then recv_bytes n stream else none

unfoldable pub left_by : ℕ → List Message → List Message
unfolding send_bytes
left_by at_once (bytes bs ∷ rest) = send_bytes (drop at_once bs) ++ rest
left_by at_once stream = stream

-- A `recv` of no bytes waits until something is in the stream.
unfoldable pub waits : ℕ → List Message → Bool
waits zero [] = true
waits zero (m ∷ stream) = false
waits (suc n) stream = false

-- The server's `get` sends the duration and the value, or 0 and a value without type and bytes, and
-- `worker` sends the result behind them. A server that crashes sends nothing.
unfoldable pub answer_get : ℕ → Reply (Value × ℤ) → List Message
unfolding send_value
answer_get at_once (ok (v, d)) =
    duration d
    ∷ value_head v.tag v.length
    ∷ (send_value at_once (take v.length v.bytes) ++ (result done ∷ []))
answer_get at_once (err e) = duration (pos 0) ∷ value_head undef 0 ∷ result (err e) ∷ []
answer_get at_once fault = []

unfoldable pub answer : Done → List Message
answer (ok u) = result done ∷ []
answer (err e) = result (err e) ∷ []
answer fault = []

-- It allows everything so far.
unfoldable pub cred_check : IoType → Text → Done
cred_check type key = done

-- `if (!ret)` behind the check.
unfoldable pub if_allowed {ℓ κ} :
    {A : Type ℓ} {S : Type κ} → Done → S → (S → Reply A × S) → Reply A × S
if_allowed (ok u) s act = act s
if_allowed (err e) s act = (err e, s)
if_allowed fault s act = (fault, s)

module _ {W : Type 0} (C : TreeOps CacheItem) (N : TreeOps Nmtx) where
  set_received :
      Env
      → State W C N
      → Text
      → Tag
      → ℕ
      → List Message
      → Option (List ℕ × List Message)
      → List Message × State W C N × List Message
  unfolding answer cred_check if_allowed
  set_received env s key tag n left none = (answer (err eio), s, left)
  set_received env s key tag n left (some (bs, rest)) =
      let v : Value = record { tag = tag; length = n; bytes = bs } in
      let (ret, s') = if_allowed (cred_check type_set key) s (λ t. io_set C N env t key v) in
      (answer ret, s', rest)

  -- The server's `set`: with no memory for the value it throws the stream away. `none` where it waits
  -- for what the client never sends.
  unfoldable pub serve_set :
      Bool
      → Env
      → State W C N
      → IoPackage
      → List Message
      → Option (List Message × State W C N × List Message)
  unfolding set_received recv_value left_by waits answer
  serve_set false env s p stream = some (answer (err enomem), s, [])
  serve_set true env s p stream =
      if waits p.value_length stream
      then none
      else some (
          set_received env s p.key p.value_type p.value_length (left_by env.at_once stream)
            (recv_value env.at_once p.value_length stream))

  serve_package :
      Bool
      → Env
      → State W C N
      → IoPackage
      → IoType
      → List Message
      → Option (List Message × State W C N × List Message)
  unfolding answer answer_get serve_set cred_check if_allowed
  serve_package granted env s p type_get stream =
      let (ret, s') = if_allowed (cred_check type_get p.key) s (λ t. io_get C N env t p.key) in
      some (answer_get env.at_once ret, s', stream)
  serve_package granted env s p type_set stream = serve_set granted env s p stream
  serve_package granted env s p type_del stream =
      let (ret, s') = if_allowed (cred_check type_del p.key) s (λ t. io_del C N env t p.key) in
      some (answer ret, s', stream)
  serve_package granted env s p (type_other n) stream = some (answer done, s, stream)

  -- One round of the `for` in `worker`: what it sends, and what it leaves in the stream. `none` where
  -- the round ends the connection or waits for ever. What it makes of an entry that is no header is not
  -- modelled.
  unfoldable pub serve :
      Bool → Env → State W C N → List Message → Option (List Message × State W C N × List Message)
  unfolding serve_package
  serve granted env s [] = none
  serve granted env s (io_package p ∷ stream) = serve_package granted env s p p.type stream
  serve granted env s (value_head t n ∷ stream) = none
  serve granted env s (bytes bs ∷ stream) = none
  serve granted env s (duration d ∷ stream) = none
  serve granted env s (result r ∷ stream) = none

  -- A crash in a round, which sends nothing, ends the server.
  unfoldable pub then_rest :
      List Message × State W C N → List Message × State W C N → List Message × State W C N
  then_rest ([], s) rest = ([], s)
  then_rest (m ∷ ms, s) rest = ((m ∷ ms) ++ rest.0, rest.1)

  -- The `for` in `worker`, over what each round meets in its surroundings; the loop ends with the
  -- connection. A list that is longer than the requests are many serves them all.
  unfoldable pub worker : List Env → State W C N → List Message → List Message × State W C N
  unfolding then_rest serve
  worker [] s stream = ([], s)
  worker (env ∷ envs) s stream = elim (serve true env s stream) [
    | none ↦ ([], s)
    | some (sent, s', rest) ↦ then_rest (sent, s') (worker envs s' rest)
  ]
