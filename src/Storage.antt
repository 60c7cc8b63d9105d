-- ===== src/Storage.antt =====
-- lib/storage.h and lib/storage.c: a storage is a name and three operations, each of which may be
-- missing (a NULL pointer). `priv` is closed over by the operations; `W` is what they act on.
pub mod Deletion
use propd.Prelude.{
  Text, ℤ, Option, none, some, Reply, ok, err, fault, Done, done, eopnotsupp, Errno,
}
use propd.Value.{Value}

pub record Storage (W : Type 0) : Type 0 where
  pub name : Text
  pub get : Option (W → Text → Reply (Value × ℤ) × W)
  pub set : Option (W → Text → Value → Done × W)
  pub del : Option (W → Text → Done × W)
  pub destructor : Option (W → W)

module _ {W : Type 0} where
  unfoldable pub storage_get : Storage W → W → Text → Reply (Value × ℤ) × W
  storage_get s w key = elim s.get [ none ↦ (err eopnotsupp, w) | some get ↦ get w key ]

  -- The argument is NULL where the caller has no value: the assertion fails.
  unfoldable pub storage_set : Storage W → W → Text → Option Value → Done × W
  storage_set s w key none = (fault, w)
  storage_set s w key (some v) = elim s.set [ none ↦ (err eopnotsupp, w) | some set ↦ set w key v ]

  call_del : Option (W → Text → Done × W) → W → Text → Done × W
  call_del none w key = (fault, w)
  call_del (some del) w key = del w key

  -- The guard of the source tests `set`, and the call goes through `del`.
  unfoldable pub storage_del : Storage W → W → Text → Done × W
  unfolding call_del
  storage_del s w key = elim s.set [ none ↦ (err eopnotsupp, w) | some _ ↦ call_del s.del w key ]

  unfoldable pub storage_destructor : Storage W → W → W
  storage_destructor s w = elim s.destructor [ none ↦ w | some destroy ↦ destroy w ]
