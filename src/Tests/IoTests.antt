-- ===== src/Tests/IoTests.antt =====
-- The theorems of Io on a server with one storage, one cached value and enough memory, or too little.
use propd.Prelude.{◌≡◌, refl, pos, true, false, [], none, some, ok, done, text_eq, ◌+ℤ◌, ◌-ℤ◌}
use propd.Storage.{storage_set, storage_del}
use propd.Infra.Tree.Entries.{find, insert}
use propd.Infra.NamedMutex.{Nmtx, named_mutex_lock}
use propd.Cache.{adjust, item_create, cache_set, is_outdated, remaining}
use propd.Cache.Lookup.{stored}
use propd.Route.{route_match}
use propd.Io.{io_get, io_set, io_del, io_update, fetch}
use propd.Io.Release.{SameHeld, io-SameHeld}
use propd.Io.Coherence.{io_get-io_set, io_get-io_del}
use propd.Tests.Data.{
  cache_tree, lock_tree, dev_key, on, on-IsValue, off_item, cell, cache, server, env,
}

wrote : (io_set cache_tree lock_tree env server dev_key on).0 ≡ done
unfolding io_set text_eq ◌+ℤ◌ ◌-ℤ◌ route_match named_mutex_lock insert storage_set
wrote = refl

deleted : (io_del cache_tree lock_tree env server dev_key).0 ≡ done
unfolding io_del text_eq ◌+ℤ◌ ◌-ℤ◌ route_match named_mutex_lock insert storage_del
deleted = refl

remembered : (cache_set cache_tree true true cache dev_key on (pos 0) (pos 10)).0 ≡ done
unfolding cache_set text_eq find item_create insert
remembered = refl

fresh : is_outdated (stored cache_tree cache on (pos 0) (pos 10)) (pos 20) ≡ false
unfolding is_outdated adjust
fresh = refl

cached : find cache.tree dev_key ≡ some off_item
unfolding find text_eq
cached = refl

io_get-io_set_example :
    ((io_get cache_tree lock_tree env
        (io_set cache_tree lock_tree env server dev_key on).1
        dev_key).0
      ≡ ok (on, remaining (pos 100) (stored cache_tree cache on (pos 0) (pos 10)) (pos 20)))
    × ((io_get cache_tree lock_tree env
          (io_set cache_tree lock_tree env server dev_key on).1
          dev_key).1.world
        ≡ (io_set cache_tree lock_tree env server dev_key on).1.world)
io_get-io_set_example =
    io_get-io_set cache_tree lock_tree env env server dev_key on cache on-IsValue refl wrote
      remembered refl fresh

io_get-io_del_example :
    (io_get cache_tree lock_tree env (io_del cache_tree lock_tree env server dev_key).1 dev_key).0
    ≡ (fetch cache_tree lock_tree env (io_del cache_tree lock_tree env server dev_key).1 dev_key).0
io_get-io_del_example = io_get-io_del cache_tree lock_tree env env server dev_key cache refl deleted

unlocked : find {V = Nmtx} [] dev_key ≡ none
unfolding find
unlocked = refl

io-SameHeld_example :
    SameHeld cache_tree lock_tree server (io_get cache_tree lock_tree env server dev_key).1
    × SameHeld cache_tree lock_tree server (io_set cache_tree lock_tree env server dev_key on).1
    × SameHeld cache_tree lock_tree server (io_del cache_tree lock_tree env server dev_key).1
    × SameHeld cache_tree lock_tree server
        (io_update cache_tree lock_tree env server dev_key cell).1
io-SameHeld_example = io-SameHeld cache_tree lock_tree env server dev_key on cell (tt, tt) unlocked
