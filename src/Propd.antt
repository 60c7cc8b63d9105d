-- ===== src/Propd.antt =====
-- lib/propd.c and app/propd/main.c: the configuration, the storage that the program adds to those of its
-- command line, and the end of the route. Run has what is started and stopped.
pub mod Shadow
pub mod Stopping
pub mod Run
pub mod Options
pub mod Daemon
pub mod Namespace
use propd.Prelude.{
  ℕ, Text, codes, Bool, false, none, List, [], ◌∷◌, Option, Reply, ok, err, fault, Done, done,
}
use propd.Storage.{Storage}
use propd.Route.{Item, register, route_unregister}
use propd.Builtin.Null.{constructor_null}
use propd.Misc.Prefix.{star}

abbrev pub null_name : Text
null_name = codes "null"

-- `propd_config_t` without what concerns the log and the parsers. Times are in seconds. A list that is
-- NULL is empty here, which is what `arraydup_cstring` makes of NULL.
pub record Config (W : Type 0) : Type 0 where
  pub namespace : Option Text
  pub thread_num : ℕ
  pub thread_num_max_if_auto : ℕ
  pub cache_interval : ℕ
  pub cache_default_duration : ℕ
  pub local_route : List (Item W)
  pub name : Option Text
  pub caches : List Text
  pub prefixes : List Text
  pub num_prefix_max : ℕ
  pub children : List Text
  pub parents : List Text
  pub daemon : Bool

module _ {W : Type 0} where
  unfoldable pub propd_config_default : Config W
  propd_config_default = record {
    namespace = none;
    thread_num = 0;
    thread_num_max_if_auto = 16;
    cache_interval = 0;
    cache_default_duration = 1;
    local_route = [];
    name = none;
    caches = [];
    prefixes = [];
    num_prefix_max = 16;
    children = [];
    parents = [];
    daemon = false;
  }

  unfoldable pub propd_config_register :
      List (Item W) → Storage W → List Text → Option ℕ → Done × List (Item W)
  unfolding register
  propd_config_register local_route storage prefix item = register local_route storage prefix item

  -- `main` behind `propd_config_parse`: the parsed table, and what it becomes.
  unfoldable pub register_null : Bool → List (Item W) → Option ℕ → Done × List (Item W)
  unfolding constructor_null propd_config_register
  register_null made local_route item = elim (constructor_null made null_name) [
    | ok storage ↦ propd_config_register local_route storage ((star ∷ []) ∷ []) item
    | err e ↦ (err e, local_route)
    | fault ↦ (fault, local_route)
  ]

  -- The assertion of `route_destroy` on the table of a route.
  unfoldable pub route_destroy : List (Item W) → Done
  route_destroy [] = done
  route_destroy (x ∷ xs) = fault

  -- What the end of `__propd_run` does with the table: it unregisters every item, drops the result, and
  -- destroys the route.
  unfoldable pub stop_route : List (Item W) → W → Done × W
  unfolding route_destroy route_unregister
  stop_route table w =
      let (ret, rest, w') = route_unregister table w none in (route_destroy rest, w')
