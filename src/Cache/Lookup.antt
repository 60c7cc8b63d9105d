-- ===== src/Cache/Lookup.antt =====
-- What a reader of the cache sees after a write or a deletion.
use propd.Prelude.{
  Text, text_eq, text_eq_refl, text_eq_iff, ℤ, ◌≡◌, Bool, true, false, none, some, ok, err, done,
  enoent, arith, if◌then◌else◌, ◌↔◌, Option-cases, Bool-cases, inl, inr,
}
use propd.Value.{Value, value_dup, IsValue, value_dup-IsValue}
use propd.Infra.Tree.{TreeOps}
use propd.Cache.{
  CacheItem, Cache, cache_get, cache_set, cache_del, adjust, is_outdated, remaining, item_create,
}

module _ (T : TreeOps CacheItem) where
  open T use {
    Tree, find, insert, assign, remove, find-insert, insert_absent, insert_found, find-assign,
    find-remove,
  }

  -- The item that a successful `cache_set` leaves under its key.
  abbrev pub stored : Cache Tree → Value → ℤ → ℤ → CacheItem
  stored c v duration now = record {
    value = value_dup true v;
    modified = now;
    duration = adjust c.min_duration c.default_duration duration;
  }

  pub find-cache_set :
      (item_granted value_granted : Bool) (c : Cache Tree) (key : Text) (v : Value)
      (duration now : ℤ)
      → (cache_set T item_granted value_granted c key v duration now).0 ≡ done
      → (j : Text)
      → find (cache_set T item_granted value_granted c key v duration now).1.tree j
        ≡ (if text_eq key j then some (stored c v duration now) else find c.tree j)
  unfolding cache_set item_create
  find-cache_set item_granted value_granted c key v duration now h j =
      elim (Option-cases (find c.tree key)) [
        | inl e ↦
            let item : CacheItem = stored c v duration now in
            ground (arith, insert_absent c.tree key item e, find-insert c.tree key item e j)
        | inr (old, e) ↦
            let item : CacheItem = stored c v duration now in
            ground (arith, insert_found c.tree key old item e, find-assign c.tree key old item e j)
      ]

  pub find-cache_set_other :
      (item_granted value_granted : Bool) (c : Cache Tree) (key : Text) (v : Value)
      (duration now : ℤ) (j : Text)
      → text_eq key j ≡ false
      → find (cache_set T item_granted value_granted c key v duration now).1.tree j ≡ find c.tree j
  unfolding cache_set item_create
  find-cache_set_other item_granted value_granted c key v duration now j other =
      elim (Option-cases (find c.tree key)) [
        | inl e ↦
            let item : CacheItem = stored c v duration now in
            ground (arith, insert_absent c.tree key item e, find-insert c.tree key item e j)
        | inr (old, e) ↦
            let item : CacheItem = stored c v duration now in
            let freed : CacheItem = record old { value = none } in
            ground (
              arith,
              insert_found c.tree key old item e,
              find-assign c.tree key old item e j,
              find-assign c.tree key old freed e j,
            )
      ]

  pub min_duration-cache_set :
      (item_granted value_granted : Bool) (c : Cache Tree) (key : Text) (v : Value)
      (duration now : ℤ)
      → (cache_set T item_granted value_granted c key v duration now).1.min_duration
        ≡ c.min_duration
  unfolding cache_set
  min_duration-cache_set item_granted value_granted c key v duration now = ground arith

  pub get_live :
      (c : Cache Tree) (key : Text) (item : CacheItem) (v : Value) (now least : ℤ)
      → c.min_duration ≡ least
      → IsValue v
      → find c.tree key ≡ some item
      → item.value ≡ some v
      → is_outdated item now ≡ false
      → (cache_get T true c key now).0 ≡ ok (v, remaining least item now)
  unfolding cache_get
  get_live c key item v now least m valid e w live = ground (arith, value_dup-IsValue v valid)

  -- Reading back. After a successful `cache_set` of a value with as many bytes as it says, and
  -- while the stored element does not count as outdated, by the sum of its two `int64_t` times,
  -- `cache_get`, with memory for the copy, returns the value that was set, with the time that
  -- remains.
  pub cache_get-cache_set :
      (item_granted value_granted : Bool) (c : Cache Tree) (key : Text) (v : Value)
      (duration now later : ℤ)
      → IsValue v
      → (cache_set T item_granted value_granted c key v duration now).0 ≡ done
      → is_outdated (stored c v duration now) later ≡ false
      → (cache_get T true
          (cache_set T item_granted value_granted c key v duration now).1
          key
          later).0
        ≡ ok (v, remaining c.min_duration (stored c v duration now) later)
  cache_get-cache_set item_granted value_granted c key v duration now later valid h live =
      get_live _ key (stored c v duration now) v later c.min_duration
        (min_duration-cache_set item_granted value_granted c key v duration now) valid there
        (value_dup-IsValue v valid) live
    where
      there :
          find (cache_set T item_granted value_granted c key v duration now).1.tree key
          ≡ some (stored c v duration now)
      there = ground (
        arith,
        find-cache_set item_granted value_granted c key v duration now h key,
        text_eq_refl key,
      )

  pub get_same :
      (granted : Bool) (c d : Cache Tree) (j : Text) (now : ℤ)
      → find d.tree j ≡ find c.tree j
      → d.min_duration ≡ c.min_duration
      → (cache_get T granted d j now).0 ≡ (cache_get T granted c j now).0
  unfolding cache_get
  get_same granted c d j now e m = elim (Option-cases (find c.tree j)) [
    | inl absent ↦ ground arith
    | inr (item, present) ↦ ground arith
  ]

  -- Whatever becomes of a `cache_set`, every other key reads as before.
  pub cache_get-cache_set_other :
      (item_granted value_granted granted : Bool) (c : Cache Tree) (key : Text) (v : Value)
      (duration now later : ℤ) (j : Text)
      → text_eq key j ≡ false
      → (cache_get T granted
          (cache_set T item_granted value_granted c key v duration now).1
          j
          later).0
        ≡ (cache_get T granted c j later).0
  cache_get-cache_set_other item_granted value_granted granted c key v duration now later j other =
      get_same granted c _ j later
        (find-cache_set_other item_granted value_granted c key v duration now j other)
        (min_duration-cache_set item_granted value_granted c key v duration now)

  pub find-cache_del :
      (c : Cache Tree) (key j : Text)
      → find (cache_del T c key).1.tree j ≡ (if text_eq key j then none else find c.tree j)
  unfolding cache_del
  find-cache_del c key j = elim (Option-cases (find c.tree key)) [
    | inl e ↦ ground (arith, text_eq_iff key j)
    | inr (item, e) ↦ ground (arith, find-remove c.tree key j)
  ]

  pub min_duration-cache_del :
      (c : Cache Tree) (key : Text) → (cache_del T c key).1.min_duration ≡ c.min_duration
  unfolding cache_del
  min_duration-cache_del c key = ground arith

  refused :
      (c : Cache Tree) (key : Text)
      → ((cache_del T c key).0 ≡ err enoent) ↔ (find c.tree key ≡ none)
  unfolding cache_del
  refused c key = ground arith

  pub get_missing :
      (granted : Bool) (c : Cache Tree) (key : Text) (now : ℤ)
      → find c.tree key ≡ none
      → cache_get T granted c key now ≡ (err enoent, c)
  unfolding cache_get
  get_missing granted c key now e = rw (e, cache_get)

  get_absent :
      (granted : Bool) (c : Cache Tree) (key : Text) (now : ℤ)
      → find c.tree key ≡ none
      → (cache_get T granted c key now).0 ≡ err enoent
  get_absent granted c key now e = rw (get_missing granted c key now e)

  -- `cache_del` takes out its key and nothing else: afterwards the key reads ENOENT, and every other
  -- key reads as before. The call answers ENOENT exactly when the tree has no element of that key.
  pub cache_get-cache_del :
      (granted : Bool) (c : Cache Tree) (key j : Text) (now : ℤ)
      → ((cache_get T granted (cache_del T c key).1 j now).0
          ≡ (if text_eq key j then err enoent else (cache_get T granted c j now).0))
        × (((cache_del T c key).0 ≡ err enoent) ↔ (find c.tree key ≡ none))
  cache_get-cache_del granted c key j now = (
    elim (Bool-cases (text_eq key j)) [
      | inl same ↦
          rw same (
            get_absent granted (cache_del T c key).1 j now (ground (arith, find-cache_del c key j)))
      | inr other ↦ rw other (
          get_same granted c (cache_del T c key).1 j now (ground (arith, find-cache_del c key j))
            (min_duration-cache_del c key))
    ],
    refused c key,
  )
