-- ===== src/Propd/Shadow.antt =====
-- What the storage named null does to the storages of the command line.
use propd.Prelude.{ℕ, ◌≡◌, Text, true, List, none, some, ok, done, arith}
use propd.Storage.{Storage}
use propd.Route.{
  Item, any_prefix, find_name, route_item_create, insert_created, register, route_match,
}
use propd.Builtin.Null.{constructor_null, null_set, null_del}
use propd.Misc.Prefix.{prefix_match-star, NoStar}
use propd.Propd.{null_name, propd_config_register, register_null}

module _ {W : Type 0} where
  abbrev pub null_storage : Storage W
  null_storage = record {
    name = null_name;
    get = none;
    set = some null_set;
    del = some null_del;
    destructor = none;
  }

  -- The bug: with memory, and no storage of the command line named null, the storage named null goes
  -- to the head of the table, and every key that does not begin with '*' is sent to it, whatever
  -- storage the command line gave for the key.
  pub register_null-shadows :
      (list : List (Item W)) (a : ℕ) (key : Text)
      → find_name list null_name ≡ none
      → NoStar key
      → ((register_null true list (some a)).0 ≡ done)
        × ((route_match (register_null true list (some a)).1 key).0
            ≡ ok (record { addr = a; storage = null_storage }))
  unfolding register_null propd_config_register register constructor_null insert_created
      route_item_create route_match any_prefix
  register_null-shadows list a key free h =
      (ground (arith, free), ground (arith, free, prefix_match-star key h))
