-- ===== src/Builtin/Unix/Remote.antt =====
-- A storage of lib/builtin/unix.c in front of a server of lib/io_server.c: asking it is asking the
-- server.
use propd.Prelude.{
  ℕ, ◌==◌, ◌≡◌, ◌≤◌, ◌<◌, refl, ap, sym, ◌∙◌, Text, ℤ, Bool, true, false, le→leb, zero, suc, List,
  [], ◌∷◌, ◌++◌, none, some, Reply, ok, err, fault, Done, done, eio, length, take, take-length_le,
  arith,
}
use mathlib.Core.List.{append-nil}
use propd.Value.{Value, IsValue}
use propd.Infra.Tree.{TreeOps}
use propd.Infra.NamedMutex.{Nmtx}
use propd.Cache.{CacheItem}
use propd.Io.{Env, State, io_get, io_set, io_del}
use propd.IoServer.{
  Message, result, send_bytes, send_value, recv_bytes, recv_value, waits, answer_get, answer,
  cred_check, if_allowed, serve_set, serve,
}
use propd.Builtin.Unix.{io_begin, io_end, get_reply, unix_get, unix_set, unix_del, name_max}

-- What the client makes of a server that crashes: its socket ends.
abbrev pub seen {ℓ} : {A : Type ℓ} → Reply A → Reply A
seen (ok a) = ok a
seen (err e) = err e
seen fault = err eio

lt_le : {m n : ℕ} → m < n → m ≤ n
lt_le h = omega arith

-- A shorter key arrives whole.
pub fits_package : (key : Text) → length key < name_max → take name_max key ≡ key
fits_package key h = take-length_le name_max key (lt_le h)

==_refl : (n : ℕ) → (n == n) ≡ true
==_refl n = ground arith

-- The bytes that were sent are the bytes that are received.
recv_bytes-send_bytes :
    (bs : List ℕ) (rest : List Message)
    → recv_bytes (length bs) (send_bytes bs ++ rest) ≡ some (bs, rest)
unfolding recv_bytes send_bytes
recv_bytes-send_bytes [] rest = refl
recv_bytes-send_bytes (b ∷ bs) rest = rw (==_refl (length (b ∷ bs))) refl

answer_end : (r : Done) → io_end (answer r) ≡ seen r
unfolding io_end answer
answer_end (ok unit) = refl
answer_end (err e) = refl
answer_end fault = refl

take-counted : (v : Value) → IsValue v → take v.length v.bytes ≡ v.bytes
take-counted v h = take-length_le v.length v.bytes (omega (arith, h.counted))

-- A value comes through whole.
pub recv_bytes-value :
    (v : Value) (rest : List Message)
    → IsValue v
    → recv_bytes v.length (send_bytes (take v.length v.bytes) ++ rest) ≡ some (v.bytes, rest)
recv_bytes-value v rest h = rw (take-counted v h, h.counted) (recv_bytes-send_bytes v.bytes rest)

pub recv_alone :
    (v : Value)
    → IsValue v
    → recv_bytes v.length (send_bytes (take v.length v.bytes)) ≡ some (v.bytes, [])
recv_alone v h =
    ap (recv_bytes v.length) (sym (append-nil (send_bytes (take v.length v.bytes))))
    ∙ recv_bytes-value v [] h

-- The value of an answer has as many bytes as it says, and no more than a socket queues at once.
abbrev pub IsAnswer : ℕ → Reply (Value × ℤ) → Type 0
IsAnswer at_once (ok (v, d)) = IsValue v × (v.length ≤ at_once)
IsAnswer at_once (err e) = Unit
IsAnswer at_once fault = Unit

pub send_value_whole :
    (at_once : ℕ) (v : Value)
    → IsValue v
    → v.length ≤ at_once
    → send_value at_once (take v.length v.bytes) ≡ send_bytes (take v.length v.bytes)
unfolding send_value
send_value_whole at_once v valid h =
    rw (take-counted v valid, le→leb (length v.bytes) at_once (omega (arith, h, valid.counted)))
      refl

get_reply-answer_get :
    (at_once : ℕ) (r : Reply (Value × ℤ))
    → IsAnswer at_once r
    → get_reply true (answer_get at_once r) ≡ seen r
unfolding get_reply answer_get io_end
get_reply-answer_get at_once (ok (v, d)) h =
    rw (send_value_whole at_once v h.0 h.1, recv_bytes-value v (result done ∷ []) h.0) refl
get_reply-answer_get at_once (err e) h = refl
get_reply-answer_get at_once fault h = refl

-- A value that a server's `set` receives whole: it has bytes, as many as it says, and no more than a
-- socket queues at once.
pub record IsSent (at_once : ℕ) (v : Value) : Type 0 where
  pub valid : IsValue v
  pub some_bytes : 0 < v.length
  pub queued : v.length ≤ at_once

pub waits_not : (n : ℕ) (stream : List Message) → 0 < n → waits n stream ≡ false
unfolding waits
waits_not zero stream h = absurd (omega (arith, h))
waits_not (suc n) stream h = refl

pub recv_value_whole :
    (at_once : ℕ) (v : Value) (rest : List Message)
    → IsSent at_once v
    → recv_value at_once v.length (send_bytes (take v.length v.bytes) ++ rest)
      ≡ some (v.bytes, rest)
unfolding recv_value
recv_value_whole at_once v rest h =
    rw (le→leb v.length at_once h.queued) (recv_bytes-value v rest h.valid)

pub recv_value_alone :
    (at_once : ℕ) (v : Value)
    → IsSent at_once v
    → recv_value at_once v.length (send_bytes (take v.length v.bytes)) ≡ some (v.bytes, [])
unfolding recv_value
recv_value_alone at_once v h = rw (le→leb v.length at_once h.queued) (recv_alone v h.valid)

module _ {W : Type 0} (C : TreeOps CacheItem) (N : TreeOps Nmtx) (env : Env) where
  -- The peer is one round of the server's `worker`; the Boolean grants it the memory for a value. It
  -- sends nothing where the round ends the connection, and so it does where it waits for ever, which a
  -- client does not tell from the other here.
  unfoldable pub peer : Bool → State W C N → List Message → List Message × State W C N
  peer granted s stream = elim (serve C N granted env s stream) [
    | none ↦ ([], s)
    | some (sent, s', rest) ↦ (sent, s')
  ]

  -- With a connection and memory for the value, and a key that fits a package, the storage's `get` is
  -- the server's `io_get`: it answers what the server answers, where the value has as many bytes as it
  -- says and no more than a socket queues at once, and EIO if the server crashes, and it leaves the
  -- server as `io_get` does.
  pub unix_get-io_get :
      (granted : Bool) (now : ℤ) (s : State W C N) (key : Text)
      → length key < name_max
      → IsAnswer env.at_once (io_get C N env s key).0
      → unix_get (peer granted) true true now s key
        ≡ (seen (io_get C N env s key).0, (io_get C N env s key).1)
  unfolding unix_get peer io_begin serve cred_check if_allowed
  unix_get-io_get granted now s key h value =
      rw (fits_package key h, get_reply-answer_get env.at_once _ value) refl

  -- With a connection, memory for the value on the server, and a key that fits a package, the
  -- storage's `set` of a value that has bytes, as many as it says and no more than a socket queues at
  -- once, is the server's `io_set`: it answers the same, or EIO if the server
  -- crashes, and it leaves the server as `io_set` does.
  pub unix_set-io_set :
      (now : ℤ) (s : State W C N) (key : Text) (v : Value)
      → length key < name_max
      → IsSent env.at_once v
      → unix_set (peer true) true now s key v
        ≡ (seen (io_set C N env s key v).0, (io_set C N env s key v).1)
  unfolding unix_set peer io_begin serve serve_set cred_check if_allowed
  unix_set-io_set now s key v h value =
      rw
        (
          waits_not v.length _ value.some_bytes,
          recv_value_alone env.at_once v value,
          fits_package key h,
          answer_end,
        )
        refl

  -- With a connection and a key that fits a package, the storage's `del` is the server's `io_del`: it
  -- answers the same, or EIO if the server crashes, and it leaves the server as `io_del` does.
  pub unix_del-io_del :
      (granted : Bool) (now : ℤ) (s : State W C N) (key : Text)
      → length key < name_max
      → unix_del (peer granted) true now s key
        ≡ (seen (io_del C N env s key).0, (io_del C N env s key).1)
  unfolding unix_del peer io_begin serve cred_check if_allowed
  unix_del-io_del granted now s key h = rw (fits_package key h, answer_end) refl
