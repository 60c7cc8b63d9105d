-- ===== src/Io.antt =====
-- lib/io.h and lib/io.c: what a server does for a key. It asks the cache, finds the storage in the
-- route, locks the key, calls the storage, and brings the cache up to date.
pub mod Release
pub mod Coherence
use propd.Prelude.{
  ℕ, Text, ℤ, pos, Bool, true, false, List, Option, none, some, Reply, ok, err, fault, Done, done,
  enoent, if◌then◌else◌,
}
use propd.Value.{Value}
use propd.Storage.{Storage, storage_get, storage_set, storage_del}
use propd.Infra.Tree.{TreeOps}
use propd.Infra.NamedMutex.{Nmtx, named_mutex_lock, named_mutex_unlock}
use propd.Cache.{CacheItem, Cache, cache_get, cache_set, cache_del}
use propd.Route.{Item, Handle, route_match, route_deref}

-- `io_ctx_t` with all that it points to. `world` is what the storages act on.
pub record Io (W C N : Type 0) : Type 0 where
  pub namespace : N
  pub cache : Option (Cache C)
  pub route : List (Item W)
  pub world : W

-- What the surroundings decide in one call: the allocations that are granted, and the clock at the
-- look into the cache and at the write to it.
pub record Env : Type 0 where
  pub mutex_granted : Bool
  pub copy_granted : Bool
  pub item_granted : Bool
  pub value_granted : Bool
  pub read_at : ℤ
  pub write_at : ℤ
  pub at_once : ℕ

-- The state of a server over given trees.
abbrev pub State : Type 0 → TreeOps CacheItem → TreeOps Nmtx → Type 0
State W C N = Io W C.Tree N.Tree

module _ {W : Type 0} (C : TreeOps CacheItem) (N : TreeOps Nmtx) where
  -- The two halves of `cleanup`.
  unfoldable pub unlock : State W C N → Text → State W C N
  unlock s key = record s { namespace = (named_mutex_unlock N s.namespace key).1 }

  unfoldable pub give_back : State W C N → Handle W → State W C N
  give_back s h = record s { route = route_deref s.route h.addr }

  -- The middle of each function: lock the key, run the body, and let `cleanup` unlock it.
  unfoldable pub under_lock {ℓ} :
      {A : Type ℓ}
      → Env
      → State W C N
      → Text
      → (State W C N → Reply A × State W C N)
      → Reply A × State W C N
  under_lock env s key body =
      let (locked, ns) = named_mutex_lock N env.mutex_granted s.namespace key in
      elim locked [
        | ok u ↦ let (ret, s') = body (record s { namespace = ns }) in (ret, unlock s' key)
        | err e ↦ (err e, record s { namespace = ns })
        | fault ↦ (fault, record s { namespace = ns })
      ]

  run_matched {ℓ} :
      {A : Type ℓ}
      → Env
      → State W C N
      → Text
      → (Handle W → State W C N → Reply A × State W C N)
      → Reply (Handle W)
      → Reply A × State W C N
  unfolding under_lock give_back
  run_matched env s key body (ok h) =
      let (ret, s') = under_lock env s key (body h) in (ret, give_back s' h)
  run_matched env s key body (err e) = (err e, s)
  run_matched env s key body fault = (fault, s)

  -- `route_match`, then the middle part, and `cleanup` gives the reference back.
  unfoldable pub routed {ℓ} :
      {A : Type ℓ}
      → Env
      → State W C N
      → Text
      → (Handle W → State W C N → Reply A × State W C N)
      → Reply A × State W C N
  unfolding run_matched
  routed env s key body =
      let (found, route) = route_match s.route key in
      run_matched env (record s { route = route }) key body found

  -- `if (io->cache) cache_set(...)`, whose result is dropped.
  unfoldable pub remember : Env → State W C N → Text → Value → ℤ → State W C N
  remember env s key v duration = elim s.cache [
    | none ↦ s
    | some c ↦ record s {
      cache = some (cache_set C env.item_granted env.value_granted c key v duration env.write_at).1;
    }
  ]

  unfoldable pub forget : State W C N → Text → State W C N
  forget s key = elim s.cache [
    | none ↦ s
    | some c ↦ record s { cache = some (cache_del C c key).1 }
  ]

  unfoldable pub after_get :
      Env → State W C N → Text → Reply (Value × ℤ) → Reply (Value × ℤ) × State W C N
  unfolding remember
  after_get env s key (ok (v, duration)) = (ok (v, duration), remember env s key v duration)
  after_get env s key (err e) = (err e, s)
  after_get env s key fault = (fault, s)

  unfoldable pub read_storage :
      Env → Text → Storage W → State W C N → Reply (Value × ℤ) × State W C N
  unfolding after_get
  read_storage env key storage s =
      let (ret, w) = storage_get storage s.world key in
      after_get env (record s { world = w }) key ret

  after_set : Env → State W C N → Text → Value → Done → Done × State W C N
  unfolding remember
  after_set env s key v (ok u) = (done, remember env s key v (pos 0))
  after_set env s key v (err e) = (err e, s)
  after_set env s key v fault = (fault, s)

  unfoldable pub write_storage : Env → Text → Value → Storage W → State W C N → Done × State W C N
  unfolding after_set
  write_storage env key v storage s =
      let (ret, w) = storage_set storage s.world key (some v) in
      after_set env (record s { world = w }) key v ret

  after_del : State W C N → Text → Done → Done × State W C N
  unfolding forget
  after_del s key (ok u) = (done, forget s key)
  after_del s key (err e) = (err e, s)
  after_del s key fault = (fault, s)

  unfoldable pub delete_storage : Text → Storage W → State W C N → Done × State W C N
  unfolding after_del
  delete_storage key storage s =
      let (ret, w) = storage_del storage s.world key in after_del (record s { world = w }) key ret

  -- The part of `io_get` behind the look into the cache.
  unfoldable pub fetch : Env → State W C N → Text → Reply (Value × ℤ) × State W C N
  unfolding routed read_storage
  fetch env s key = routed env s key (λ h. read_storage env key h.storage)

  answer_cached : Env → State W C N → Text → Reply (Value × ℤ) → Reply (Value × ℤ) × State W C N
  unfolding fetch
  answer_cached env s key (ok r) = (ok r, s)
  answer_cached env s key (err enoent) = fetch env s key
  answer_cached env s key (err e) = (err e, s)
  answer_cached env s key fault = (fault, s)

  unfoldable pub io_get : Env → State W C N → Text → Reply (Value × ℤ) × State W C N
  unfolding fetch answer_cached
  io_get env s key = elim s.cache [
    | none ↦ fetch env s key
    | some c ↦
        let (ret, c') = cache_get C env.copy_granted c key env.read_at in
        answer_cached env (record s { cache = some c' }) key ret
  ]

  unfoldable pub io_set : Env → State W C N → Text → Value → Done × State W C N
  unfolding routed write_storage
  io_set env s key v = routed env s key (λ h. write_storage env key v h.storage)

  unfoldable pub io_del : Env → State W C N → Text → Done × State W C N
  unfolding routed delete_storage
  io_del env s key = routed env s key (λ h. delete_storage key h.storage)

  -- `io_update` throws the value away; its result is the code.
  unfoldable pub as_done : Reply (Value × ℤ) × State W C N → Done × State W C N
  as_done (ok r, s) = (done, s)
  as_done (err e, s) = (err e, s)
  as_done (fault, s) = (fault, s)

  unfoldable pub io_update : Env → State W C N → Text → Storage W → Done × State W C N
  unfolding under_lock read_storage as_done
  io_update env s key storage = elim s.cache [
    | none ↦ (done, s)
    | some c ↦ as_done (under_lock env s key (read_storage env key storage))
  ]
