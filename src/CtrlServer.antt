-- ===== src/CtrlServer.antt =====
-- lib/ctrl_server.h, lib/ctrl_server.c and lib/ctrl_client.c: the requests by which servers join and
-- leave each other.
pub mod Children
pub mod Leaving
pub mod Wire
pub mod Client
pub mod Loop
use propd.Prelude.{
  ℕ, Text, ℤ, negsuc, Bool, true, false, List, [], ◌∷◌, Option, none, some, Reply, ok, err, fault,
  Done, done, einval, enomem, eio, other, Errno, if◌then◌else◌,
}
use propd.Storage.{Storage, storage_destructor}
use propd.Infra.Tree.{TreeOps}
use propd.Infra.NamedMutex.{Nmtx}
use propd.Cache.{CacheItem}
use propd.Route.{register, route_unregister}
use propd.Io.{Env, State, io_update}
use propd.IoServer.{Message}
use propd.Builtin.Unix.{constructor_unix}

-- `ctrl_package_register_child_t`; the two counts are the lengths of the lists.
pub record Child : Type 0 where
  pub name : Text
  pub cache_now : List Text
  pub prefix : List Text

-- `ctrl_package_t`
pub data Package : Type 0 where
  ctrl_register_child : Child → Package
  ctrl_register_parent ctrl_unregister_child ctrl_unregister_parent : Text → Package
  ctrl_dump_db_route ctrl_dump_db_cache : Package
  ctrl_unknown : ℕ → Package

-- What the surroundings decide in one `register_child`: the memory of the storage, of the array of
-- prefixes and of the item, whether the child can be reached and what it is asked for has room, the
-- clock, and what each `io_update` meets.
pub record ChildEnv : Type 0 where
  pub storage_granted : Bool
  pub connected : Bool
  pub value_granted : Bool
  pub now : ℤ
  pub array_granted : Bool
  pub item : Option ℕ
  pub update : Text → Env

-- What a server knows of itself, to register with a parent.
pub record Self : Type 0 where
  pub name : Text
  pub cache_now : List Text
  pub prefix : List Text

-- The child that `ctrl_register_child` writes into its package.
abbrev pub child_of : Self → Child
child_of self = record { name = self.name; cache_now = self.cache_now; prefix = self.prefix }

-- `!child->num_cache_now && !child->num_prefix`
unfoldable pub is_empty : List Text → List Text → Bool
is_empty [] [] = true
is_empty [] (p ∷ ps) = false
is_empty (k ∷ ks) prefix = false

-- `name[0] ? name : NULL`
unfoldable pub named : Text → Option Text
named [] = none
named (c ∷ cs) = some (c ∷ cs)

-- The result -1.
abbrev pub minus_one : Errno
minus_one = other (negsuc 0)

module _ {W : Type 0} (C : TreeOps CacheItem) (N : TreeOps Nmtx) where
  -- The loop over `cache_now`, which ends at the first error.
  unfoldable pub update_all :
      (Text → Env) → State W C N → Storage W → List Text → Done × State W C N
  update_all env s storage [] = (done, s)
  update_all env s storage (key ∷ keys) =
      let (ret, s') = io_update C N (env key) s key storage in
      elim ret [ ok u ↦ update_all env s' storage keys | err e ↦ (err e, s') | fault ↦ (fault, s') ]

  add_route : State W C N → Storage W → List Text → Option ℕ → Done × State W C N
  unfolding register
  add_route s storage prefix item =
      let (ret, route) = register s.route storage prefix item in (ret, record s { route = route })

  register_prefixes : ChildEnv → Storage W → List Text → Done × State W C N → Done × State W C N
  unfolding add_route
  register_prefixes env storage [] (ret, s) = (ret, s)
  register_prefixes env storage (p ∷ ps) (ok u, s) =
      if env.array_granted then add_route s storage (p ∷ ps) env.item else (err enomem, s)
  register_prefixes env storage (p ∷ ps) (err e, s) = (err e, s)
  register_prefixes env storage (p ∷ ps) (fault, s) = (fault, s)

  -- `pthread_cleanup_pop(ret)`
  pub cleanup_pop : Storage W → Done × State W C N → Done × State W C N
  unfolding storage_destructor
  cleanup_pop storage (ok u, s) = (ok u, s)
  cleanup_pop storage (err e, s) = (err e, record s { world = storage_destructor storage s.world })
  cleanup_pop storage (fault, s) = (fault, s)

  register_made : ChildEnv → State W C N → Child → Reply (Storage W) → Done × State W C N
  unfolding update_all register_prefixes cleanup_pop
  register_made env s child (ok storage) =
      cleanup_pop storage (
        register_prefixes env storage child.prefix
          (update_all env.update s storage child.cache_now))
  register_made env s child (err e) = (err e, s)
  register_made env s child fault = (fault, s)

  -- `exchange name` is what the server of that name does with what is sent to it.
  unfoldable pub register_child :
      (Text → W → List Message → List Message × W)
      → ChildEnv
      → State W C N
      → Child
      → Done × State W C N
  unfolding register_made is_empty
  register_child exchange env s child =
      if is_empty child.cache_now child.prefix
      then (err einval, s)
      else register_made env s child (
          constructor_unix (exchange child.name) env.storage_granted env.connected env.value_granted
            env.now child.name)

  unfoldable pub unregister_child : State W C N → Text → Done × State W C N
  unfolding route_unregister named
  unregister_child s name =
      let (ret, route, w) = route_unregister s.route s.world (named name) in
      (ret, record s { route = route; world = w })

  -- A call of lib/ctrl_client.c on another server: `deliver` sends the package and waits for the result,
  -- which is EIO where one of the two fails. An error before the package is sent is among its results.
  unfoldable pub call_server :
      (Text → Package → W → Option Done × W) → State W C N → Text → Package → Done × State W C N
  call_server deliver s server p =
      let (ret, w) = deliver server p s.world in
      (elim ret [ none ↦ err eio | some r ↦ r ], record s { world = w })

  -- What `worker` does with a package, and the result that it sends; it sends none to a package of a
  -- type that it does not know. The two dumps are not written yet and return -1.
  unfoldable pub worker :
      (Text → W → List Message → List Message × W)
      → (Text → Package → W → Option Done × W)
      → ChildEnv
      → Self
      → State W C N
      → Package
      → Option Done × State W C N
  unfolding register_child unregister_child call_server
  worker exchange deliver env self s (ctrl_register_child child) =
      let (ret, s') = register_child exchange env s child in (some ret, s')
  worker exchange deliver env self s (ctrl_register_parent name) =
      let (ret, s') = call_server deliver s name (ctrl_register_child (child_of self)) in
      (some ret, s')
  worker exchange deliver env self s (ctrl_unregister_child name) =
      let (ret, s') = unregister_child s name in (some ret, s')
  worker exchange deliver env self s (ctrl_unregister_parent name) =
      let (ret, s') = call_server deliver s name (ctrl_unregister_child self.name) in (some ret, s')
  worker exchange deliver env self s ctrl_dump_db_route = (some (err minus_one), s)
  worker exchange deliver env self s ctrl_dump_db_cache = (some (err minus_one), s)
  worker exchange deliver env self s (ctrl_unknown n) = (none, s)
