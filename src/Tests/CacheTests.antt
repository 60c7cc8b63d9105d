-- ===== src/Tests/CacheTests.antt =====
-- The theorems of Cache on a cache with one value.
use propd.Prelude.{◌≡◌, refl, pos, true, false, ok, done, text_eq, arith}
use propd.Infra.Tree.Entries.{find, insert}
use propd.Cache.{item_create, adjust, remaining, is_outdated, cache_get, cache_set, cleaner_round}
use propd.Cache.Lookup.{stored, cache_get-cache_set}
use propd.Cache.Sweep.{cache_get-cleaner_round}
use propd.Tests.Data.{cache_tree, dev_key, on, on-IsValue, cache}

set_on : (cache_set cache_tree true true cache dev_key on (pos 0) (pos 10)).0 ≡ done
unfolding cache_set text_eq find item_create insert
set_on = refl

lives : is_outdated (stored cache_tree cache on (pos 0) (pos 10)) (pos 20) ≡ false
unfolding is_outdated adjust
lives = refl

cache_get-cache_set_example :
    (cache_get cache_tree true
      (cache_set cache_tree true true cache dev_key on (pos 0) (pos 10)).1
      dev_key
      (pos 20)).0
    ≡ ok (on, remaining (pos 100) (stored cache_tree cache on (pos 0) (pos 10)) (pos 20))
cache_get-cache_set_example =
    cache_get-cache_set cache_tree true true cache dev_key on (pos 0) (pos 10) (pos 20) on-IsValue
      set_on lives

cache_get-cleaner_round_example :
    (cache_get cache_tree true
      (cleaner_round cache_tree cache (pos 0) true (pos 600) (pos 1500)).0
      dev_key
      (pos 1600)).0
    ≡ (cache_get cache_tree true cache dev_key (pos 1600)).0
cache_get-cleaner_round_example =
    cache_get-cleaner_round cache_tree true cache (pos 0) true (pos 600) (pos 1500) dev_key
      (pos 1600) (omega arith)
