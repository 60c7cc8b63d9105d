-- ===== src/Cache.antt =====
-- lib/cache.h and lib/cache.c: values with an expiry, kept in a tree ordered by key. The read-write
-- lock makes each operation one step. `now` is the reading of the monotonic clock that the
-- operation uses; times and durations are `int64_t` nanoseconds.
pub mod Lookup
pub mod Sweep
pub mod Expiry
pub mod Memory
use propd.Prelude.{
  ℕ, zero, suc, ◌+◌, ◌-◌, ◌^◌, Text, ℤ, pos, ◌+ℤ◌, ◌-ℤ◌, int64, eq_ℤ, ltb_ℤ, leb_ℤ, Bool, true,
  false, not, ◌&&◌, List, [], ◌∷◌, Option, none, some, Reply, ok, err, fault, Done, done, enoent,
  enomem, if◌then◌else◌,
}
use propd.Value.{Value, value_dup}
use propd.Infra.Tree.{TreeOps}

-- DURATION_INF, which is INT64_MAX
abbrev pub duration_inf : ℤ
duration_inf = pos (2 ^ 63 - 1)

-- The key is the tree's. The value is `none` where the pointer is NULL.
pub record CacheItem : Type 0 where
  pub value : Option Value
  pub modified : ℤ
  pub duration : ℤ

-- `notices` is the count of the semaphore that wakes the cleaner.
pub record Cache (Tree : Type 0) : Type 0 where
  pub tree : Tree
  pub min_interval : ℤ
  pub max_interval : ℤ
  pub default_duration : ℤ
  pub min_duration : ℤ
  pub notices : ℕ

-- duration_is_outdate; the sum is an `int64_t`.
unfoldable pub is_outdated : CacheItem → ℤ → Bool
unfolding ◌+ℤ◌ int64
is_outdated item now =
    not (eq_ℤ item.duration duration_inf) && leb_ℤ (int64 (item.modified +ℤ item.duration)) now

-- The Boolean grants the item and its value. The copy of the key succeeds: without memory for it the
-- source frees `item->value` before it was set, which is not modelled.
unfoldable pub item_create : Bool → Value → ℤ → ℤ → Option CacheItem
unfolding value_dup
item_create granted v now duration =
    if granted
    then some (record { value = value_dup true v; modified = now; duration = duration })
    else none

-- The remaining time that `cache_get` reports, raised to `min_duration`.
unfoldable pub remaining : ℤ → CacheItem → ℤ → ℤ
unfolding ◌-ℤ◌ int64
remaining min_duration item now =
    let left = int64 (item.duration -ℤ int64 (now -ℤ item.modified)) in
    if eq_ℤ item.duration duration_inf
    then item.duration
    else if ltb_ℤ left min_duration
    then min_duration
    else left

-- The duration that `cache_set` stores.
unfoldable pub adjust : ℤ → ℤ → ℤ → ℤ
adjust min_duration default_duration duration =
    if eq_ℤ duration (pos 0)
    then default_duration
    else if ltb_ℤ duration min_duration
    then min_duration
    else duration

-- `value_dup(item->value)` reads through the pointer, also where that is NULL.
unfoldable pub copy_out : Bool → Option Value → ℤ → Reply (Value × ℤ)
unfolding value_dup
copy_out granted none left = fault
copy_out granted (some v) left = elim (value_dup granted v) [
  | none ↦ err enomem
  | some u ↦ ok (u, left)
]

module _ (T : TreeOps CacheItem) where
  open T use {Tree, empty, find, insert, assign, remove, keys}

  unfoldable pub cache_create : ℤ → ℤ → ℤ → ℤ → Cache Tree
  cache_create min_interval max_interval default_duration min_duration = record {
    tree = empty;
    min_interval = min_interval;
    max_interval = max_interval;
    default_duration = default_duration;
    min_duration = min_duration;
    notices = 0;
  }

  get_found : Bool → Cache Tree → ℤ → Option CacheItem → Reply (Value × ℤ) × Cache Tree
  unfolding copy_out
  get_found granted c now none = (err enoent, c)
  get_found granted c now (some item) =
      if is_outdated item now
      then (err enoent, record c { notices = c.notices + 1 })
      else (copy_out granted item.value (remaining c.min_duration item now), c)

  unfoldable pub cache_get : Bool → Cache Tree → Text → ℤ → Reply (Value × ℤ) × Cache Tree
  unfolding get_found
  cache_get granted c key now = get_found granted c now (find c.tree key)

  -- The second `value_dup` of `cache_set`, on an element that was there: its old value has been
  -- freed already.
  overwrite : Bool → Cache Tree → Text → CacheItem → Value → ℤ → ℤ → Done × Cache Tree
  unfolding value_dup
  overwrite granted c key old v duration now = elim (value_dup granted v) [
    | none ↦ (err enomem, record c { tree = assign c.tree key (record old { value = none }) })
    | some u ↦ (
      done,
      record c {
        tree = assign c.tree key (record { value = some u; modified = now; duration = duration });
      },
    )
  ]

  set_created : Bool → Cache Tree → Text → Option CacheItem → Value → ℤ → ℤ → Done × Cache Tree
  unfolding overwrite
  set_created granted c key none v duration now = (err enomem, c)
  set_created granted c key (some item) v duration now =
      let (tree, old) = insert c.tree key item in
      elim old [
        | none ↦ (done, record c { tree = tree })
        | some old_item ↦ overwrite granted (record c { tree = tree }) key old_item v duration now
      ]

  -- The first Boolean grants the new item, the second the copy that replaces an old value.
  unfoldable pub cache_set : Bool → Bool → Cache Tree → Text → Value → ℤ → ℤ → Done × Cache Tree
  unfolding set_created
  cache_set item_granted value_granted c key v duration now =
      let kept = adjust c.min_duration c.default_duration duration in
      set_created value_granted c key (item_create item_granted v now kept) v kept now

  unfoldable pub cache_del : Cache Tree → Text → Done × Cache Tree
  cache_del c key = elim (find c.tree key) [
    | none ↦ (err enoent, c)
    | some item ↦ (done, record c { tree = remove c.tree key })
  ]

  clean_one : Tree → Text → ℤ → Tree
  clean_one t key now = elim (find t key) [
    | none ↦ t
    | some item ↦ if is_outdated item now then remove t key else t
  ]

  -- RB_FOREACH_SAFE of the cleaner.
  unfoldable pub sweep : List Text → Tree → ℤ → Tree
  unfolding clean_one
  sweep [] t now = t
  sweep (k ∷ ks) t now = sweep ks (clean_one t k now) now

  -- One round of `cache_cleaner`, woken by a notice (the wait took one off the semaphore) or by the
  -- time limit. The second part is `last`, the time of the last sweep. The clock is read once for
  -- the test and once for the sweep.
  unfoldable pub cleaner_round : Cache Tree → ℤ → Bool → ℤ → ℤ → Cache Tree × ℤ
  unfolding ◌-ℤ◌ int64
  cleaner_round c last noticed now later =
      let woken = record c { notices = if noticed then c.notices - 1 else c.notices } in
      if noticed && ltb_ℤ (int64 (now -ℤ last)) c.min_interval
      then (woken, last)
      else (record woken { tree = sweep (keys c.tree) c.tree later }, later)

  -- `cache_destroy` removes every element.
  unfoldable pub clear : List Text → Tree → Tree
  clear [] t = t
  clear (k ∷ ks) t = clear ks (remove t k)
