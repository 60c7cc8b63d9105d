-- ===== src/Cache/Sweep.antt =====
-- The cleaner of lib/cache.c: it takes out exactly the elements that have run out, and no reader
-- can tell that it ran.
use propd.Prelude.{
  Text, text_eq, text_eq_iff, ℤ, ◌-ℤ◌, int64, +ℤ_parts, ltb_ℤ, ◌≤ℤ◌, ◌≡◌, refl, Bool, true, ◌&&◌,
  List, [], ◌∷◌, Option, none, some, arith, if◌then◌else◌, Option-cases, Bool-cases, inl, inr,
}
use propd.Infra.Tree.{TreeOps, contains}
use propd.Cache.Lookup.{get_same}
use propd.Cache.{CacheItem, Cache, cache_get, is_outdated, clean_one, sweep, cleaner_round}

-- What is left of an element at a time.
abbrev pub still : Option CacheItem → ℤ → Option CacheItem
still none now = none
still (some item) now = if is_outdated item now then none else some item

still_twice : (o : Option CacheItem) (now : ℤ) → still (still o now) now ≡ still o now
still_twice none now = refl
still_twice (some item) now = ground arith

-- What has run out stays so.
is_outdated_later :
    (item : CacheItem) (now later : ℤ)
    → now ≤ℤ later
    → is_outdated item now ≡ true
    → is_outdated item later ≡ true
unfolding is_outdated
is_outdated_later item now later h e = ground (arith, +ℤ_parts item.modified item.duration)

module _ (T : TreeOps CacheItem) where
  open T use {Tree, find, remove, keys, find-remove, keys_find}

  find-clean_one :
      (t : Tree) (k j : Text) (now : ℤ)
      → find (clean_one T t k now) j ≡ (if text_eq k j then still (find t j) now else find t j)
  unfolding clean_one
  find-clean_one t k j now = elim (Option-cases (find t k)) [
    | inl e ↦ ground (arith, text_eq_iff k j)
    | inr (item, e) ↦ ground (arith, text_eq_iff k j, find-remove t k j)
  ]

  find-sweep :
      (ks : List Text) (t : Tree) (j : Text) (now : ℤ)
      → find (sweep T ks t now) j ≡ (if contains ks j then still (find t j) now else find t j)
  unfolding sweep
  find-sweep [] t j now = refl
  find-sweep (k ∷ ks) t j now = ground (
    arith,
    find-sweep ks (clean_one T t k now) j now,
    find-clean_one t k j now,
    still_twice (find t j) now,
  )

  -- A sweep over all elements.
  find-sweep-keys :
      (t : Tree) (j : Text) (now : ℤ) → find (sweep T (keys t) t now) j ≡ still (find t j) now
  find-sweep-keys t j now = elim (Option-cases (find t j)) [
    | inl e ↦ ground (arith, find-sweep (keys t) t j now, keys_find t j)
    | inr (item, e) ↦ ground (arith, find-sweep (keys t) t j now, keys_find t j)
  ]

  -- A round that is not ignored leaves, of every key, exactly what had not run out when it swept; an
  -- ignored one (a notice less than `min_interval` after the last sweep) leaves the tree as it was.
  pub find-cleaner_round :
      (c : Cache Tree) (last : ℤ) (noticed : Bool) (now later : ℤ) (j : Text)
      → find (cleaner_round T c last noticed now later).0.tree j ≡ (
          if noticed && ltb_ℤ (int64 (now -ℤ last)) c.min_interval
          then find c.tree j
          else still (find c.tree j) later)
  unfolding cleaner_round
  find-cleaner_round c last noticed now later j =
      elim (Bool-cases (noticed && ltb_ℤ (int64 (now -ℤ last)) c.min_interval)) [
        | inl skip ↦ rw (skip, cleaner_round) refl
        | inr go ↦ rw (go, cleaner_round) (find-sweep-keys c.tree j later)
      ]

  get_still :
      (granted : Bool) (c d : Cache Tree) (j : Text) (now later : ℤ)
      → now ≤ℤ later
      → d.min_duration ≡ c.min_duration
      → find d.tree j ≡ still (find c.tree j) now
      → (cache_get T granted d j later).0 ≡ (cache_get T granted c j later).0
  unfolding cache_get
  get_still granted c d j now later h m e = elim (Option-cases (find c.tree j)) [
    | inl absent ↦ ground arith
    | inr (item, present) ↦ ground (arith, is_outdated_later item now later h)
  ]

  min_duration-cleaner_round :
      (c : Cache Tree) (last : ℤ) (noticed : Bool) (now later : ℤ)
      → (cleaner_round T c last noticed now later).0.min_duration ≡ c.min_duration
  unfolding cleaner_round
  min_duration-cleaner_round c last noticed now later = ground arith

  -- The cleaner is invisible: whatever round it makes, each later `cache_get` of any key replies
  -- what it would have replied without that round.
  pub cache_get-cleaner_round :
      (granted : Bool) (c : Cache Tree) (last : ℤ) (noticed : Bool) (now later : ℤ) (j : Text)
      (at : ℤ)
      → later ≤ℤ at
      → (cache_get T granted (cleaner_round T c last noticed now later).0 j at).0
        ≡ (cache_get T granted c j at).0
  cache_get-cleaner_round granted c last noticed now later j at h =
      elim (Bool-cases (noticed && ltb_ℤ (int64 (now -ℤ last)) c.min_interval)) [
        | inl skip ↦
            get_same T granted c (cleaner_round T c last noticed now later).0 j at
              (ground (arith, find-cleaner_round c last noticed now later j))
              (min_duration-cleaner_round c last noticed now later)
        | inr go ↦
            get_still granted c (cleaner_round T c last noticed now later).0 j later at h
              (min_duration-cleaner_round c last noticed now later)
              (ground (arith, find-cleaner_round c last noticed now later j))
      ]
