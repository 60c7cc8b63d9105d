-- ===== src/Route.antt =====
-- lib/route.h and lib/route.c: the table that sends a key to a storage. The read-write lock makes
-- each operation one step, so it is not modelled here. An address stands for what `malloc`
-- returned for the item; `none` in its place is a failed allocation.
pub mod Register
pub mod Match
pub mod Unregister
pub mod Lifetime
use propd.Prelude.{
  ℕ, zero, suc, Text, text_eq, ℤ, pos, ◌+ℤ◌, ◌-ℤ◌, eq_ℤ, ◌==◌, Bool, true, false, List, [], ◌∷◌,
  Option, none, some, Reply, ok, err, fault, Done, done, enoent, enomem, ebusy, eexist, length,
  if◌then◌else◌,
}
use propd.Storage.{Storage, storage_destructor}
use propd.Misc.Prefix.{prefix_match}

pub record Item (W : Type 0) : Type 0 where
  pub addr : ℕ
  pub storage : Storage W
  pub prefix : List Text
  pub nref : ℤ

-- What `&item->storage` gives: the storage, and the way back to the item.
pub record Handle (W : Type 0) : Type 0 where
  pub addr : ℕ
  pub storage : Storage W

-- The inner loop of `route_match`.
unfoldable pub any_prefix : List Text → Text → Bool
unfolding prefix_match
any_prefix [] key = false
any_prefix (p ∷ ps) key = if prefix_match p key then true else any_prefix ps key

module _ {W : Type 0} where
  unfoldable pub route_item_create : Option ℕ → Storage W → List Text → Option (Item W)
  route_item_create none s prefix = none
  route_item_create (some a) s prefix =
      some (record { addr = a; storage = s; prefix = prefix; nref = pos 0 })

  unfoldable pub route_item_destroy : Item W → W → W
  unfolding storage_destructor
  route_item_destroy x w = storage_destructor x.storage w

  abbrev pub name_of : Item W → Text
  name_of x = x.storage.name

  unfoldable pub find_name : List (Item W) → Text → Option (Item W)
  find_name [] name = none
  find_name (x ∷ xs) name = if text_eq (name_of x) name then some x else find_name xs name

  unfoldable pub insert_created : List (Item W) → Option (Item W) → Done × List (Item W)
  insert_created list none = (err enomem, list)
  insert_created list (some x) = (done, x ∷ list)

  -- `__route_register`
  unfoldable pub register : List (Item W) → Storage W → List Text → Option ℕ → Done × List (Item W)
  unfolding find_name route_item_create insert_created
  register list s prefix addr = elim (find_name list s.name) [
    | some x ↦ (err eexist, list)
    | none ↦ insert_created list (route_item_create addr s prefix)
  ]

  -- LIST_REMOVE of the item that the search by name stopped at.
  unfoldable pub remove_name : List (Item W) → Text → List (Item W)
  remove_name [] name = []
  remove_name (x ∷ xs) name = if text_eq (name_of x) name then xs else x ∷ remove_name xs name

  unregister_found : List (Item W) → W → Text → Option (Item W) → Done × List (Item W) × W
  unfolding route_item_destroy remove_name
  unregister_found list w name none = (err enoent, list, w)
  unregister_found list w name (some x) =
      if eq_ℤ x.nref (pos 0)
      then (done, remove_name list name, route_item_destroy x w)
      else (err ebusy, list, w)

  -- `__route_unregister`
  unfoldable pub unregister : List (Item W) → W → Text → Done × List (Item W) × W
  unfolding find_name unregister_found
  unregister list w name = unregister_found list w name (find_name list name)

  -- The `while` of `route_unregister`, each round on the first item's name.
  unfoldable pub unregister_loop : ℕ → List (Item W) → W → Done × List (Item W) × W
  unfolding unregister
  unregister_loop zero list w = (fault, list, w)
  unregister_loop (suc fuel) [] w = (done, [], w)
  unregister_loop (suc fuel) (x ∷ xs) w =
      let (ret, list, w') = unregister (x ∷ xs) w (name_of x) in
      elim ret [
        | ok u ↦ unregister_loop fuel list w'
        | err e ↦ (err e, list, w')
        | fault ↦ (fault, list, w')
      ]

  unfoldable pub route_unregister : List (Item W) → W → Option Text → Done × List (Item W) × W
  unfolding unregister unregister_loop
  route_unregister list w (some name) = unregister list w name
  route_unregister list w none = unregister_loop (suc (length list)) list w

  abbrev pub handle_of : Item W → Handle W
  handle_of x = record { addr = x.addr; storage = x.storage }

  unfoldable pub ref : Item W → Item W
  unfolding ◌+ℤ◌
  ref x = record x { nref = x.nref +ℤ pos 1 }

  unfoldable pub deref : Item W → Item W
  unfolding ◌-ℤ◌
  deref x = record x { nref = x.nref -ℤ pos 1 }

  unfoldable pub route_match : List (Item W) → Text → Reply (Handle W) × List (Item W)
  unfolding any_prefix ref
  route_match [] key = (err enoent, [])
  route_match (x ∷ xs) key =
      let rest = route_match xs key in
      if any_prefix x.prefix key then (ok (handle_of x), ref x ∷ xs) else (rest.0, x ∷ rest.1)

  unfoldable pub route_deref : List (Item W) → ℕ → List (Item W)
  unfolding deref
  route_deref [] a = []
  route_deref (x ∷ xs) a = if x.addr == a then deref x ∷ xs else x ∷ route_deref xs a
