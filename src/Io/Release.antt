-- ===== src/Io/Release.antt =====
-- `cleanup` of lib/io.c: whatever happens, the key is unlocked and the reference given back.
use propd.Prelude.{Text, ◌≡◌, refl, List, none, some, Reply, ok, arith, Option-cases, inl, inr}
use propd.Value.{Value}
use propd.Storage.{Storage}
use propd.Infra.Tree.{TreeOps}
use propd.Infra.NamedMutex.{Nmtx, named_mutex_lock}
use propd.Infra.NamedMutex.Sequential.{find-lock, unlock-lock, lock_no_memory}
use propd.Cache.{CacheItem, Cache, cache_get}
use propd.Route.{Item, Handle, route_match}
use propd.Route.Match.{
  DistinctAddrs, route_deref-route_match, route_match-Outcome, Outcome, found, missing,
}
use propd.Io.{
  Env, State, unlock, give_back, under_lock, routed, read_storage, write_storage, delete_storage,
  fetch, io_get, io_set, io_del, io_update,
}

module _ {W : Type 0} (C : TreeOps CacheItem) (N : TreeOps Nmtx) where
  -- Two states have the same route, and their named mutexes agree on every name.
  pub record SameHeld (s t : State W C N) : Type 0 where
    pub route : t.route ≡ s.route
    pub names : (j : Text) → N.find t.namespace j ≡ N.find s.namespace j

  -- A body that touches neither the route nor the named mutexes.
  abbrev Inside {ℓ} : {A : Type ℓ} → (State W C N → Reply A × State W C N) → Type 0
  Inside body =
      (s : State W C N) → ((body s).1.route ≡ s.route) × ((body s).1.namespace ≡ s.namespace)

  under_lock-SameHeld {ℓ} :
      {A : Type ℓ} (env : Env) (s : State W C N) (key : Text)
      (body : State W C N → Reply A × State W C N)
      → Inside body
      → N.find s.namespace key ≡ none
      → SameHeld s (under_lock C N env s key body).1
  unfolding under_lock unlock
  under_lock-SameHeld env s key body inside free =
      let (ret, ns) = named_mutex_lock N env.mutex_granted s.namespace key in
      let locked : State W C N = record s { namespace = ns } in
      record {
        route = ground (
          arith,
          find-lock N s.namespace key key free,
          lock_no_memory N s.namespace key,
          inside locked,
        );
        names = λ j. ground (
          arith,
          find-lock N s.namespace key key free,
          unlock-lock N s.namespace key j free,
          lock_no_memory N s.namespace key,
          inside locked,
        );
      }

  routed_found {ℓ} :
      {A : Type ℓ} (env : Env) (s : State W C N) (key : Text)
      (body : Handle W → State W C N → Reply A × State W C N) (h : Handle W) (list : List (Item W))
      → ((h : Handle W) → Inside (body h))
      → DistinctAddrs s.route
      → N.find s.namespace key ≡ none
      → route_match s.route key ≡ (ok h, list)
      → SameHeld s (routed C N env s key body).1
  unfolding routed give_back
  routed_found env s key body h list inside distinct free e =
      let matched : State W C N = record s { route = list } in
      let same = under_lock-SameHeld env matched key (body h) (inside h) free in
      record {
        route = ground (arith, same.route, route_deref-route_match s.route key h list distinct e);
        names = λ j. ground (arith, same.names j);
      }

  routed-SameHeld {ℓ} :
      {A : Type ℓ} (env : Env) (s : State W C N) (key : Text)
      (body : Handle W → State W C N → Reply A × State W C N)
      → ((h : Handle W) → Inside (body h))
      → DistinctAddrs s.route
      → N.find s.namespace key ≡ none
      → SameHeld s (routed C N env s key body).1
  unfolding routed
  routed-SameHeld {A} env s key body inside distinct free =
      split (route_match s.route key) refl (route_match-Outcome s.route key)
    where
      split :
          (r : Reply (Handle W) × List (Item W))
          → route_match s.route key ≡ r
          → Outcome key s.route r
          → SameHeld s (routed C N env s key body).1
      split r e (found x list f) =
          routed_found env s key body (record { addr = x.addr; storage = x.storage }) list inside
            distinct free e
      split r e (missing none_fits) = record { route = ground arith; names = λ j. ground arith }

  read_storage-Inside :
      (env : Env) (key : Text) (storage : Storage W) → Inside (read_storage C N env key storage)
  unfolding read_storage
  read_storage-Inside env key storage s = ground arith

  write_storage-Inside :
      (env : Env) (key : Text) (v : Value) (storage : Storage W)
      → Inside (write_storage C N env key v storage)
  unfolding write_storage
  write_storage-Inside env key v storage s = ground arith

  delete_storage-Inside :
      (key : Text) (storage : Storage W) → Inside (delete_storage C N key storage)
  unfolding delete_storage
  delete_storage-Inside key storage s = ground arith

  fetch-SameHeld :
      (env : Env) (s : State W C N) (key : Text)
      → DistinctAddrs s.route
      → N.find s.namespace key ≡ none
      → SameHeld s (fetch C N env s key).1
  unfolding fetch
  fetch-SameHeld env s key =
      routed-SameHeld env s key (λ h. read_storage C N env key h.storage)
        (λ h. read_storage-Inside env key h.storage)

  io_get-SameHeld :
      (env : Env) (s : State W C N) (key : Text)
      → DistinctAddrs s.route
      → N.find s.namespace key ≡ none
      → SameHeld s (io_get C N env s key).1
  unfolding io_get
  io_get-SameHeld env s key distinct free = record {
    route = elim (Option-cases s.cache) [
      | inl e ↦ ground (arith, (fetch-SameHeld env s key distinct free).route)
      | inr (c, e) ↦ ground (arith, (fetch-SameHeld env (looked c) key distinct free).route)
    ];
    names = λ j. elim (Option-cases s.cache) [
      | inl e ↦ ground (arith, (fetch-SameHeld env s key distinct free).names j)
      | inr (c, e) ↦ ground (arith, (fetch-SameHeld env (looked c) key distinct free).names j)
    ];
  }
    where
      looked : Cache C.Tree → State W C N
      looked c = record s { cache = some (cache_get C env.copy_granted c key env.read_at).1 }

  io_update-SameHeld :
      (env : Env) (s : State W C N) (key : Text) (storage : Storage W)
      → N.find s.namespace key ≡ none
      → SameHeld s (io_update C N env s key storage).1
  unfolding io_update
  io_update-SameHeld env s key storage free =
      let same =
        under_lock-SameHeld env s key (read_storage C N env key storage)
          (read_storage-Inside env key storage) free in
      record { route = ground (arith, same.route); names = λ j. ground (arith, same.names j) }

  -- Each of `io_get`, `io_set`, `io_del` and `io_update` gives back what it takes, on every path,
  -- the failing ones too: afterwards each route item has the references that it had, and every
  -- name's mutex is as it was. It is assumed that no two route items share an address and that
  -- nobody else uses the key's mutex meanwhile.
  pub io-SameHeld :
      (env : Env) (s : State W C N) (key : Text) (v : Value) (storage : Storage W)
      → DistinctAddrs s.route
      → N.find s.namespace key ≡ none
      → SameHeld s (io_get C N env s key).1
        × SameHeld s (io_set C N env s key v).1
        × SameHeld s (io_del C N env s key).1
        × SameHeld s (io_update C N env s key storage).1
  unfolding io_set io_del
  io-SameHeld env s key v storage distinct free = (
    io_get-SameHeld env s key distinct free,
    routed-SameHeld env s key (λ h. write_storage C N env key v h.storage)
        (λ h. write_storage-Inside env key v h.storage) distinct free,
    routed-SameHeld env s key (λ h. delete_storage C N key h.storage)
        (λ h. delete_storage-Inside key h.storage) distinct free,
    io_update-SameHeld env s key storage free,
  )
