-- ===== src/Builtin/Unix/Session.antt =====
-- A connection that serves several requests of lib/builtin/unix.c, one behind the other, in
-- lib/io_server.c's `worker`.
use propd.Prelude.{
  ℕ, ◌≡◌, ◌<◌, refl, ap, Text, ℤ, true, List, [], ◌∷◌, ◌++◌, All, none, some, length, map,
}
use propd.Value.{Value}
use propd.Infra.Tree.{TreeOps}
use propd.Infra.NamedMutex.{Nmtx}
use propd.Cache.{CacheItem}
use propd.Io.{Env, State, io_get, io_set, io_del}
use propd.IoServer.{
  type_get, type_set, type_del, Message, answer_get, answer, cred_check, if_allowed, serve_set,
  serve, then_rest, worker,
}
use propd.Builtin.Unix.{io_begin, name_max}
use propd.Builtin.Unix.Remote.{IsSent, waits_not, recv_value_whole, fits_package}

-- What a client asks for.
pub data Request : Type 0 where
  asks_get : Text → Request
  asks_set : Text → Value → Request
  asks_del : Text → Request

-- A key that fits a package with its NUL, and a value that has bytes, as many as it says and no more
-- than a socket queues at once.
abbrev pub IsRequest : ℕ → Request → Type 0
IsRequest at_once (asks_get key) = length key < name_max
IsRequest at_once (asks_set key v) = (length key < name_max) × IsSent at_once v
IsRequest at_once (asks_del key) = length key < name_max

-- What the client sends for it.
abbrev pub sent_for : ℤ → Request → List Message
sent_for now (asks_get key) = io_begin type_get now key none
sent_for now (asks_set key v) = io_begin type_set now key (some v)
sent_for now (asks_del key) = io_begin type_del now key none

abbrev pub sent_for_all : ℤ → List (Env × Request) → List Message
sent_for_all now [] = []
sent_for_all now ((env, r) ∷ rs) = sent_for now r ++ sent_for_all now rs

module _ {W : Type 0} (C : TreeOps CacheItem) (N : TreeOps Nmtx) where
  -- The call of lib/io.c that a request stands for, with the answer that belongs to its result.
  abbrev pub call : Env → Request → State W C N → List Message × State W C N
  call env (asks_get key) s =
      let (ret, s') = io_get C N env s key in (answer_get env.at_once ret, s')
  call env (asks_set key v) s = let (ret, s') = io_set C N env s key v in (answer ret, s')
  call env (asks_del key) s = let (ret, s') = io_del C N env s key in (answer ret, s')

  -- The calls in order, up to one that crashes.
  abbrev pub calls : List (Env × Request) → State W C N → List Message × State W C N
  calls [] s = ([], s)
  calls ((env, r) ∷ rs) s = then_rest C N (call env r s) (calls rs (call env r s).1)

  serve-request :
      (env : Env) (now : ℤ) (s : State W C N) (r : Request) (rest : List Message)
      → IsRequest env.at_once r
      → serve C N true env s (sent_for now r ++ rest)
        ≡ some ((call env r s).0, (call env r s).1, rest)
  unfolding serve io_begin cred_check if_allowed serve_set
  serve-request env now s (asks_get key) rest h = rw (fits_package key h) refl
  serve-request env now s (asks_set key v) rest h =
      rw
        (
          waits_not v.length _ h.1.some_bytes,
          recv_value_whole env.at_once v rest h.1,
          fits_package key h.0,
        )
        refl
  serve-request env now s (asks_del key) rest h = rw (fits_package key h) refl

  -- A connection on which a client sends requests one behind the other, their keys shorter than a
  -- package's room and their values with bytes, as many as they say and no more than a socket queues at once, is served by the calls of
  -- `io_get`, `io_set` and `io_del` in that order, each on the state that the one before left, and the
  -- answers come in that order; a call that crashes ends the service.
  pub worker-calls :
      (now : ℤ) (s : State W C N) (rs : List (Env × Request))
      → All (λ r. IsRequest r.0.at_once r.1) rs
      → worker C N (map (λ r. r.0) rs) s (sent_for_all now rs) ≡ calls rs s
  unfolding worker
  worker-calls now s [] h = refl
  worker-calls now s ((env, r) ∷ rs) h =
      rw (worker, serve-request env now s r (sent_for_all now rs) h.0)
        (ap (then_rest C N (call env r s)) (worker-calls now (call env r s).1 rs h.1))
