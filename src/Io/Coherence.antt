-- ===== src/Io/Coherence.antt =====
-- The cache beside the storages: what a reader gets after a write or a deletion.
use propd.Prelude.{
  Text, text_eq_refl, ℤ, pos, ◌≡◌, refl, true, false, none, some, Reply, ok, err, fault, done,
  is_ok, arith, if◌then◌else◌,
}
use propd.Value.{Value, IsValue}
use propd.Infra.Tree.{TreeOps}
use propd.Infra.NamedMutex.{Nmtx, named_mutex_lock}
use propd.Storage.{Storage}
use propd.Route.{Handle, route_match}
use propd.Cache.{CacheItem, Cache, cache_get, cache_set, cache_del, is_outdated, remaining}
use propd.Cache.Lookup.{stored, cache_get-cache_set, find-cache_del, get_missing, get_live}
use propd.Cache.Memory.{cache_set_no_item}
use propd.Io.{
  Env, State, fetch, io_get, io_set, io_del, under_lock, unlock, give_back, routed, write_storage,
  delete_storage,
}

module _ {W : Type 0} (C : TreeOps CacheItem) (N : TreeOps Nmtx) where
  -- The cache goes from `c` to `d` if the call returns 0, and stays `c` if not.
  abbrev Commits {ℓ} : {A : Type ℓ} → Cache C.Tree → Cache C.Tree → Reply A × State W C N → Type 0
  Commits c d r = r.1.cache ≡ (if is_ok r.0 then some d else some c)

  under_lock-Commits {ℓ} :
      {A : Type ℓ} (env : Env) (s : State W C N) (key : Text)
      (body : State W C N → Reply A × State W C N) (c d : Cache C.Tree)
      → ((t : State W C N) → t.cache ≡ some c → Commits c d (body t))
      → s.cache ≡ some c
      → Commits c d (under_lock C N env s key body)
  unfolding under_lock unlock
  under_lock-Commits env s key body c d commits e =
      let (ret, ns) = named_mutex_lock N env.mutex_granted s.namespace key in
      ground (arith, commits (record s { namespace = ns }) e)

  routed-Commits {ℓ} :
      {A : Type ℓ} (env : Env) (s : State W C N) (key : Text)
      (body : Handle W → State W C N → Reply A × State W C N) (c d : Cache C.Tree)
      → ((h : Handle W) (t : State W C N) → t.cache ≡ some c → Commits c d (body h t))
      → s.cache ≡ some c
      → Commits c d (routed C N env s key body)
  unfolding routed give_back
  routed-Commits {A} env s key body c d commits e = split (route_match s.route key).0 refl
    where
      matched : State W C N
      matched = record s { route = (route_match s.route key).1 }

      split :
          (r : Reply (Handle W))
          → (route_match s.route key).0 ≡ r
          → Commits c d (routed C N env s key body)
      split (ok h) q =
          rw (q, routed)
            (ground (arith, under_lock-Commits env matched key (body h) c d (commits h) e))
      split (err x) q = rw (q, routed) e
      split fault q = rw (q, routed) e

  write_storage-Commits :
      (env : Env) (key : Text) (v : Value) (storage : Storage W) (t : State W C N)
      (c : Cache C.Tree)
      → t.cache ≡ some c
      → Commits c
          (cache_set C env.item_granted env.value_granted c key v (pos 0) env.write_at).1
          (write_storage C N env key v storage t)
  unfolding write_storage
  write_storage-Commits env key v storage t c e = ground arith

  delete_storage-Commits :
      (key : Text) (storage : Storage W) (t : State W C N) (c : Cache C.Tree)
      → t.cache ≡ some c
      → Commits c (cache_del C c key).1 (delete_storage C N key storage t)
  unfolding delete_storage
  delete_storage-Commits key storage t c e = ground arith

  -- `io_set` brings the cache up to date exactly when the storage took the value: if it returns 0
  -- the cache is what `cache_set` makes of it, with the default duration; if not it is as before.
  pub io_set-cache :
      (env : Env) (s : State W C N) (key : Text) (v : Value) (c : Cache C.Tree)
      → s.cache ≡ some c
      → (io_set C N env s key v).1.cache ≡ (
          if is_ok (io_set C N env s key v).0
          then some (cache_set C env.item_granted env.value_granted c key v (pos 0) env.write_at).1
          else some c)
  unfolding io_set
  io_set-cache env s key v c e =
      routed-Commits env s key (λ h. write_storage C N env key v h.storage) c _
        (λ h t. write_storage-Commits env key v h.storage t c) e

  -- `io_del` takes the key out of the cache exactly when it returns 0.
  pub io_del-cache :
      (env : Env) (s : State W C N) (key : Text) (c : Cache C.Tree)
      → s.cache ≡ some c
      → (io_del C N env s key).1.cache
        ≡ (if is_ok (io_del C N env s key).0 then some (cache_del C c key).1 else some c)
  unfolding io_del
  io_del-cache env s key c e =
      routed-Commits env s key (λ h. delete_storage C N key h.storage) c _
        (λ h t. delete_storage-Commits key h.storage t c) e

  -- A cached answer is the answer: no storage is asked, and the world, the route and the named
  -- mutexes stay as they are.
  pub io_get-cached :
      (env : Env) (s : State W C N) (key : Text) (c : Cache C.Tree) (r : Value × ℤ)
      → s.cache ≡ some c
      → (cache_get C env.copy_granted c key env.read_at).0 ≡ ok r
      → ((io_get C N env s key).0 ≡ ok r)
        × ((io_get C N env s key).1.world ≡ s.world)
        × ((io_get C N env s key).1.route ≡ s.route)
        × ((io_get C N env s key).1.namespace ≡ s.namespace)
  unfolding io_get
  io_get-cached env s key c r e hit = ground arith

  -- Reading one's own writes. After an `io_set` of a value with as many bytes as it says, which
  -- returned 0 and whose cache write succeeded, an `io_get` of the key that has memory for the
  -- copy, while the stored element does not count as outdated, by the sum of its two `int64_t`
  -- times, returns the value that was set, with the time that remains, and asks no storage: the
  -- world stays as the write left it.
  pub io_get-io_set :
      (env env' : Env) (s : State W C N) (key : Text) (v : Value) (c : Cache C.Tree)
      → IsValue v
      → s.cache ≡ some c
      → (io_set C N env s key v).0 ≡ done
      → (cache_set C env.item_granted env.value_granted c key v (pos 0) env.write_at).0 ≡ done
      → env'.copy_granted ≡ true
      → is_outdated (stored C c v (pos 0) env.write_at) env'.read_at ≡ false
      → ((io_get C N env' (io_set C N env s key v).1 key).0
          ≡ ok (v, remaining c.min_duration (stored C c v (pos 0) env.write_at) env'.read_at))
        × ((io_get C N env' (io_set C N env s key v).1 key).1.world
            ≡ (io_set C N env s key v).1.world)
  io_get-io_set env env' s key v c valid e wrote kept copy live = (hit.0, hit.1)
    where
      d : Cache C.Tree
      d = (cache_set C env.item_granted env.value_granted c key v (pos 0) env.write_at).1

      holds_d : (io_set C N env s key v).1.cache ≡ some d
      holds_d = ground (arith, io_set-cache env s key v c e)

      reply :
          (cache_get C env'.copy_granted d key env'.read_at).0
          ≡ ok (v, remaining c.min_duration (stored C c v (pos 0) env.write_at) env'.read_at)
      reply = rw copy (
          cache_get-cache_set C env.item_granted env.value_granted c key v (pos 0) env.write_at
            env'.read_at valid kept live)

      hit :
          ((io_get C N env' (io_set C N env s key v).1 key).0
            ≡ ok (v, remaining c.min_duration (stored C c v (pos 0) env.write_at) env'.read_at))
          × ((io_get C N env' (io_set C N env s key v).1 key).1.world
              ≡ (io_set C N env s key v).1.world)
          × ((io_get C N env' (io_set C N env s key v).1 key).1.route
              ≡ (io_set C N env s key v).1.route)
          × ((io_get C N env' (io_set C N env s key v).1 key).1.namespace
              ≡ (io_set C N env s key v).1.namespace)
      hit = io_get-cached env' (io_set C N env s key v).1 key d _ holds_d reply

  io_get-missing :
      (env : Env) (s : State W C N) (key : Text) (c : Cache C.Tree)
      → s.cache ≡ some c
      → C.find c.tree key ≡ none
      → (io_get C N env s key).0 ≡ (fetch C N env s key).0
  unfolding io_get
  io_get-missing env s key c e absent =
      ground (arith, get_missing C env.copy_granted c key env.read_at absent)

  -- After an `io_del` that returned 0 no `io_get` of the key is answered by the cache: its reply is
  -- the one that the route and the storage give.
  pub io_get-io_del :
      (env env' : Env) (s : State W C N) (key : Text) (c : Cache C.Tree)
      → s.cache ≡ some c
      → (io_del C N env s key).0 ≡ done
      → (io_get C N env' (io_del C N env s key).1 key).0
        ≡ (fetch C N env' (io_del C N env s key).1 key).0
  io_get-io_del env env' s key c e deleted =
      io_get-missing env' (io_del C N env s key).1 key (cache_del C c key).1
        (ground (arith, io_del-cache env s key c e))
        (ground (arith, find-cache_del C c key key, text_eq_refl key))

  -- The bug. If there is no memory for the new cache item, `io_set` still returns 0 after the
  -- storage took the value, and the old value stays in the cache: until that runs out, `io_get`,
  -- with memory for the copy, answers the old value, which is assumed to have as many bytes as it
  -- says.
  pub io_set_stale :
      (env env' : Env) (s : State W C N) (key : Text) (v old : Value) (c : Cache C.Tree)
      (item : CacheItem)
      → IsValue old
      → s.cache ≡ some c
      → (io_set C N env s key v).0 ≡ done
      → env.item_granted ≡ false
      → env'.copy_granted ≡ true
      → C.find c.tree key ≡ some item
      → item.value ≡ some old
      → is_outdated item env'.read_at ≡ false
      → (io_get C N env' (io_set C N env s key v).1 key).0
        ≡ ok (old, remaining c.min_duration item env'.read_at)
  io_set_stale env env' s key v old c item valid e wrote refused copy there value live =
      (io_get-cached env' (io_set C N env s key v).1 key c _ kept reply).0
    where
      kept : (io_set C N env s key v).1.cache ≡ some c
      kept = ground (
        arith,
        io_set-cache env s key v c e,
        cache_set_no_item C env.value_granted c key v (pos 0) env.write_at,
      )

      reply :
          (cache_get C env'.copy_granted c key env'.read_at).0
          ≡ ok (old, remaining c.min_duration item env'.read_at)
      reply =
          rw copy
            (get_live C c key item old env'.read_at c.min_duration refl valid there value live)
