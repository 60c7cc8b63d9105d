-- ===== src/Cache/Memory.antt =====
-- What a failed allocation does to the cache.
use propd.Prelude.{
  Text, text_eq_refl, ℤ, ◌≡◌, refl, Bool, true, false, Option, none, some, err, fault, enomem,
  arith,
}
use propd.Value.{Value}
use propd.Infra.Tree.{TreeOps}
use propd.Cache.{CacheItem, Cache, cache_get, cache_set, is_outdated, item_create}
use propd.Cache.Lookup.{stored}

-- Expiry does not look at the value.
is_outdated-value :
    (item : CacheItem) (v : Option Value) (now : ℤ)
    → is_outdated (record item { value = v }) now ≡ is_outdated item now
unfolding is_outdated
is_outdated-value item v now = refl

module _ (T : TreeOps CacheItem) where
  open T use {Tree, find, insert_found, find-assign}

  -- With no memory for the new item `cache_set` answers ENOMEM and changes nothing.
  pub cache_set_no_item :
      (value_granted : Bool) (c : Cache Tree) (key : Text) (v : Value) (duration now : ℤ)
      → cache_set T false value_granted c key v duration now ≡ (err enomem, c)
  unfolding cache_set item_create
  cache_set_no_item value_granted c key v duration now = refl

  find-no_value :
      (c : Cache Tree) (key : Text) (old : CacheItem) (v : Value) (duration now : ℤ)
      → find c.tree key ≡ some old
      → ((cache_set T true false c key v duration now).0 ≡ err enomem)
        × (find (cache_set T true false c key v duration now).1.tree key
            ≡ some (record old { value = none }))
  unfolding cache_set item_create
  find-no_value c key old v duration now e =
      let item : CacheItem = stored T c v duration now in
      let freed : CacheItem = record old { value = none } in
      ground (
        arith,
        insert_found c.tree key old item e,
        find-assign c.tree key old freed e key,
        text_eq_refl key,
      )

  -- The bug. If the key has an element and the copy of the new value is refused, `cache_set`
  -- answers ENOMEM with the old value freed and a NULL pointer in its place: until that element
  -- runs out, the next `cache_get` of the key reads through the NULL pointer.
  pub cache_get-no_value :
      (granted : Bool) (c : Cache Tree) (key : Text) (old : CacheItem) (v : Value)
      (duration now later : ℤ)
      → find c.tree key ≡ some old
      → is_outdated old later ≡ false
      → ((cache_set T true false c key v duration now).0 ≡ err enomem)
        × ((cache_get T granted (cache_set T true false c key v duration now).1 key later).0
            ≡ fault)
  unfolding cache_get
  cache_get-no_value granted c key old v duration now later e live =
      ground (arith, find-no_value c key old v duration now e, is_outdated-value old none later)
