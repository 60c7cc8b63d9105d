-- ===== src/CtrlServer/Children.antt =====
-- Registering a child of lib/ctrl_server.c, and unregistering it again.
use propd.Prelude.{
  ◌≡◌, refl, ap, sym, ◌∙◌, Text, ℤ, false, List, [], ◌∷◌, Option, none, some, Reply, ok, err, fault,
  Done, done, inl, inr, Option-cases, Bool-cases, is_ok,
}
use propd.Storage.{Storage, storage_get}
use propd.Value.{Value}
use propd.Infra.Tree.{TreeOps}
use propd.Infra.NamedMutex.{Nmtx, named_mutex_lock}
use propd.Cache.{Cache, CacheItem}
use propd.Route.Register.{register_failed}
use propd.Io.{Env, State, io_update, under_lock, unlock, read_storage, remember, after_get, as_done}
use propd.IoServer.{Message}
use propd.Builtin.Unix.{constructor_unix}
use propd.CtrlServer.{
  Child, ChildEnv, update_all, is_empty, register_child, cleanup_pop, register_prefixes, add_route,
  register_made,
}

module _ {W : Type 0} (C : TreeOps CacheItem) (N : TreeOps Nmtx) where
  remember-route :
      (env : Env) (s : State W C N) (key : Text) (v : Value) (d : ℤ)
      → (remember C N env s key v d).route ≡ s.route
  unfolding remember
  remember-route env s key v d = elim (Option-cases s.cache) [
    | inl e ↦ rw e refl
    | inr (c, e) ↦ rw e refl
  ]

  after_get-route :
      (env : Env) (s : State W C N) (key : Text) (r : Reply (Value × ℤ))
      → (after_get C N env s key r).1.route ≡ s.route
  unfolding after_get
  after_get-route env s key (ok (v, d)) = remember-route env s key v d
  after_get-route env s key (err e) = refl
  after_get-route env s key fault = refl

  locked-route :
      (env : Env) (s : State W C N) (key : Text) (storage : Storage W)
      → (under_lock C N env s key (read_storage C N env key storage)).1.route ≡ s.route
  unfolding under_lock read_storage unlock
  locked-route env s key storage =
      split (named_mutex_lock N env.mutex_granted s.namespace key).0 refl
    where
      inner : State W C N
      inner = record s {
        namespace = (named_mutex_lock N env.mutex_granted s.namespace key).1;
        world = (storage_get storage s.world key).1;
      }

      split :
          (r : Done)
          → (named_mutex_lock N env.mutex_granted s.namespace key).0 ≡ r
          → (under_lock C N env s key (read_storage C N env key storage)).1.route ≡ s.route
      split (ok u) e =
          rw (under_lock, e) (after_get-route env inner key (storage_get storage s.world key).0)
      split (err x) e = rw (under_lock, e) refl
      split fault e = rw (under_lock, e) refl

  as_done-state : (r : Reply (Value × ℤ)) (s : State W C N) → (as_done C N (r, s)).1 ≡ s
  unfolding as_done
  as_done-state (ok r) s = refl
  as_done-state (err e) s = refl
  as_done-state fault s = refl

  io_update-route :
      (env : Env) (s : State W C N) (key : Text) (storage : Storage W)
      → (io_update C N env s key storage).1.route ≡ s.route
  unfolding io_update
  io_update-route env s key storage = split s.cache
    where
      reply : Reply (Value × ℤ) × State W C N
      reply = under_lock C N env s key (read_storage C N env key storage)

      split :
          (o : Option (Cache C.Tree))
          → (elim o as (λ x. Done × State W C N) [
            | none ↦ (done, s)
            | some c ↦ as_done C N reply
          ]).1.route
            ≡ s.route
      split none = refl
      split (some c) =
          ap (λ t. t.route) (as_done-state reply.0 reply.1) ∙ locked-route env s key storage

  -- Caching a child's values leaves the table as it is.
  pub update_all-route :
      (env : Text → Env) (s : State W C N) (storage : Storage W) (keys : List Text)
      → (update_all C N env s storage keys).1.route ≡ s.route
  unfolding update_all
  update_all-route env s storage [] = refl
  update_all-route env s storage (key ∷ keys) =
      split (io_update C N (env key) s key storage).0 refl
        (update_all-route env (io_update C N (env key) s key storage).1 storage keys)
    where
      s' : State W C N
      s' = (io_update C N (env key) s key storage).1

      first : s'.route ≡ s.route
      first = io_update-route (env key) s key storage

      split :
          (r : Done)
          → (io_update C N (env key) s key storage).0 ≡ r
          → (update_all C N env s' storage keys).1.route ≡ s'.route
          → (update_all C N env s storage (key ∷ keys)).1.route ≡ s.route
      split (ok u) e rest = rw (update_all, e) (rest ∙ first)
      split (err x) e rest = rw (update_all, e) first
      split fault e rest = rw (update_all, e) first

  -- What the surroundings of a request make of the child's storage.
  abbrev pub storage_of :
      (Text → W → List Message → List Message × W) → ChildEnv → Text → Reply (Storage W)
  storage_of exchange env name =
      constructor_unix (exchange name) env.storage_granted env.connected env.value_granted env.now
        name

  pub cleanup_pop-route :
      (storage : Storage W) (r : Done × State W C N)
      → ((cleanup_pop C N storage r).1.route ≡ r.1.route) × ((cleanup_pop C N storage r).0 ≡ r.0)
  unfolding cleanup_pop
  cleanup_pop-route storage (ok u, s) = (refl, refl)
  cleanup_pop-route storage (err e, s) = (refl, refl)
  cleanup_pop-route storage (fault, s) = (refl, refl)

  register_prefixes-route :
      (env : ChildEnv) (storage : Storage W) (prefix : List Text) (r : Done × State W C N)
      → is_ok (register_prefixes C N env storage prefix r).0 ≡ false
      → (register_prefixes C N env storage prefix r).1.route ≡ r.1.route
  unfolding register_prefixes add_route
  register_prefixes-route env storage [] (ret, s) h = refl
  register_prefixes-route env storage (p ∷ ps) (ok u, s) h = elim (Bool-cases env.array_granted) [
    | inl e ↦ rw e (register_failed s.route storage (p ∷ ps) env.item (rw e at h))
    | inr e ↦ rw e refl
  ]
  register_prefixes-route env storage (p ∷ ps) (err e, s) h = refl
  register_prefixes-route env storage (p ∷ ps) (fault, s) h = refl

  register_made-route :
      (env : ChildEnv) (s : State W C N) (child : Child) (r : Reply (Storage W))
      → is_ok (register_made C N env s child r).0 ≡ false
      → (register_made C N env s child r).1.route ≡ s.route
  unfolding register_made
  register_made-route env s child (ok storage) h =
      (cleanup_pop-route storage _).0
      ∙ register_prefixes-route env storage child.prefix _
          (ap is_ok (sym (cleanup_pop-route storage _).1) ∙ h)
      ∙ update_all-route env.update s storage child.cache_now
  register_made-route env s child (err e) h = refl
  register_made-route env s child fault h = refl

  -- A registration of a child that fails, in whatever step, leaves the table as it was.
  pub register_child-failed :
      (exchange : Text → W → List Message → List Message × W) (env : ChildEnv) (s : State W C N)
      (child : Child)
      → is_ok (register_child C N exchange env s child).0 ≡ false
      → (register_child C N exchange env s child).1.route ≡ s.route
  unfolding register_child
  register_child-failed exchange env s child h =
      elim (Bool-cases (is_empty child.cache_now child.prefix)) [
        | inl e ↦ rw e refl
        | inr e ↦
            rw e (register_made-route env s child (storage_of exchange env child.name) (rw e at h))
      ]
