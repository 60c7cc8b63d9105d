-- ===== src/Tests/ServerTests.antt =====
-- The theorems on servers that ask servers, on children, and on the storages of a server.
use propd.Prelude.{
  ◌⊎◌, ℕ, ◌≡◌, ◌≢◌, ◌<◌, refl, Text, codes, true, false, List, [], ◌∷◌, none, some, ok, done, subst,
  sym, pos, is_ok, text_eq, length, arith,
}
use propd.Storage.{storage_get}
use propd.Infra.Tree.Entries.{find, insert}
use propd.Infra.NamedMutex.{named_mutex_lock}
use propd.Cache.{cache_get, is_outdated, remaining}
use propd.Route.{find_name, route_match}
use propd.Io.{Env, io_get, io_set, io_update}
use propd.IoServer.{worker, Message}
use propd.IoServer.Sending.{Whole, CutAt, worker_to-worker}
use propd.Builtin.Unix.{name_max, get_reply, unix_get, unix_set, constructor_unix}
use propd.Builtin.Unix.Session.{Request, asks_get, asks_set, sent_for_all, calls, worker-calls}
use propd.Builtin.Unix.Remote.{IsSent, IsAnswer, seen, peer, unix_get-io_get, unix_set-io_set}
use propd.CtrlServer.{ChildEnv, register_child, unregister_child}
use propd.CtrlServer.Children.{register_child-failed}
use propd.CtrlServer.Leaving.{child_at, unregister_child-register_child}
use propd.Propd.{null_name, register_null}
use propd.Propd.Shadow.{null_storage, register_null-shadows}
use propd.Tests.Data.{
  Cell, cell_item, cache_tree, lock_tree, dev_key, on, off, on-IsValue, off-IsValue, server, env,
}

short_key : length dev_key < name_max
short_key = omega arith

answered : (io_get cache_tree lock_tree env server dev_key).0 ≡ ok (off, pos 980)
unfolding io_get cache_get find text_eq is_outdated remaining
answered = refl

answered-IsAnswer : IsAnswer 1000 (io_get cache_tree lock_tree env server dev_key).0
answered-IsAnswer = subst (IsAnswer 1000) (sym answered) (off-IsValue, omega arith)

unix_get-io_get_example :
    unix_get (peer cache_tree lock_tree env true) true true (pos 1) server dev_key ≡ (
      seen (io_get cache_tree lock_tree env server dev_key).0,
      (io_get cache_tree lock_tree env server dev_key).1,
    )
unix_get-io_get_example =
    unix_get-io_get cache_tree lock_tree env true (pos 1) server dev_key short_key answered-IsAnswer

on-IsSent : IsSent 1000 on
on-IsSent = record { valid = on-IsValue; some_bytes = omega arith; queued = omega arith }

unix_set-io_set_example :
    unix_set (peer cache_tree lock_tree env true) true (pos 1) server dev_key on ≡ (
      seen (io_set cache_tree lock_tree env server dev_key on).0,
      (io_set cache_tree lock_tree env server dev_key on).1,
    )
unix_set-io_set_example =
    unix_set-io_set cache_tree lock_tree env (pos 1) server dev_key on short_key on-IsSent

abbrev session : List (Env × Request)
session = (env, asks_set dev_key on) ∷ (env, asks_get dev_key) ∷ []

worker-calls_example :
    worker cache_tree lock_tree (env ∷ env ∷ []) server (sent_for_all (pos 1) session)
    ≡ calls cache_tree lock_tree session server
worker-calls_example =
    worker-calls cache_tree lock_tree (pos 1) server session
      ((short_key, on-IsSent), (short_key, tt))

-- The client goes away once it has the result of its first request.
worker_to-worker_example :
    Whole cache_tree lock_tree 1 (env ∷ env ∷ []) server (sent_for_all (pos 1) session)
    ⊎ ((j : ℕ) × CutAt cache_tree lock_tree 1
          (env ∷ env ∷ [])
          server
          (sent_for_all (pos 1) session)
          j)
worker_to-worker_example =
    worker_to-worker cache_tree lock_tree 1 (env ∷ env ∷ []) server (sent_for_all (pos 1) session)

abbrev silent : Text → Cell → List Message → List Message × Cell
silent name w sent = ([], w)

abbrev child_env : ChildEnv
child_env = record {
  storage_granted = true;
  connected = true;
  value_granted = true;
  now = pos 1;
  array_granted = true;
  item = some 9;
  update = λ key. env;
}

abbrev child_name : Text
child_name = codes "kid"

-- The child does not answer for the key that is to be cached.
refused :
    is_ok
      (register_child cache_tree lock_tree silent child_env server
        (child_at child_name (codes "a" ∷ []) (codes "kid.*") [])).0
    ≡ false
unfolding register_child constructor_unix io_update named_mutex_lock insert storage_get unix_get
    get_reply
refused = refl

register_child-failed_example :
    (register_child cache_tree lock_tree silent child_env server
      (child_at child_name (codes "a" ∷ []) (codes "kid.*") [])).1.route
    ≡ cell_item ∷ []
register_child-failed_example =
    register_child-failed cache_tree lock_tree silent child_env server
      (child_at child_name (codes "a" ∷ []) (codes "kid.*") []) refused

joined :
    is_ok
      (register_child cache_tree lock_tree silent child_env server
        (child_at child_name [] (codes "kid.*") [])).0
    ≡ true
unfolding register_child constructor_unix text_eq
joined = refl

named_kid : child_name ≢ []
named_kid e = ground (arith, e)

unregister_child-register_child_example :
    ((unregister_child cache_tree lock_tree
        (register_child cache_tree lock_tree silent child_env server
          (child_at child_name [] (codes "kid.*") [])).1
        child_name).0
      ≡ done)
    × ((unregister_child cache_tree lock_tree
          (register_child cache_tree lock_tree silent child_env server
            (child_at child_name [] (codes "kid.*") [])).1
          child_name).1.route
        ≡ cell_item ∷ [])
unregister_child-register_child_example =
    unregister_child-register_child cache_tree lock_tree silent child_env server child_name []
      (codes "kid.*") [] named_kid joined

null_free : find_name (cell_item ∷ []) null_name ≡ none
unfolding find_name text_eq
null_free = refl

no_star : (c : ℕ) → c < 200 → 42 < c → c ≢ 42
no_star c h k = omega arith

register_null-shadows_example :
    ((register_null true (cell_item ∷ []) (some 8)).0 ≡ done)
    × ((route_match (register_null true (cell_item ∷ []) (some 8)).1 dev_key).0
        ≡ ok (record { addr = 8; storage = null_storage }))
register_null-shadows_example =
    register_null-shadows (cell_item ∷ []) 8 dev_key null_free
      (no_star 100 (omega arith) (omega arith))
