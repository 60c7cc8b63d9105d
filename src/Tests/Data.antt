-- ===== src/Tests/Data.antt =====
-- The data of the tests.
use propd.Prelude.{
  Text, codes, ℤ, pos, [], ◌∷◌, Option, none, some, Reply, ok, err, Done, done, enoent, refl, arith,
  true, false,
}
use propd.Value.{Value, IsValue, u32}
use propd.Storage.{Storage}
use propd.Infra.Tree.{TreeOps}
use propd.Infra.Tree.Entries.{entries}
use propd.Infra.NamedMutex.{Nmtx}
use propd.Cache.{CacheItem, Cache}
use propd.Route.{Item}
use propd.Io.{Env, State}

abbrev pub cache_tree : TreeOps CacheItem
cache_tree = entries CacheItem

abbrev pub lock_tree : TreeOps Nmtx
lock_tree = entries Nmtx

-- A storage with one cell.
abbrev pub Cell : Type 0
Cell = Option Value

abbrev pub cell_get : Cell → Text → Reply (Value × ℤ) × Cell
cell_get none key = (err enoent, none)
cell_get (some v) key = (ok (v, pos 0), some v)

abbrev pub cell_set : Cell → Text → Value → Done × Cell
cell_set w key v = (done, some v)

abbrev pub cell_del : Cell → Text → Done × Cell
cell_del w key = (done, none)

abbrev pub cell : Storage Cell
cell = record {
  name = codes "cell";
  get = some cell_get;
  set = some cell_set;
  del = some cell_del;
  destructor = none;
}

abbrev pub dev_key : Text
dev_key = codes "dev.led"

abbrev pub cell_item : Item Cell
cell_item = record { addr = 7; storage = cell; prefix = codes "dev.*" ∷ []; nref = pos 0 }

abbrev pub on : Value
on = record { tag = u32; length = 4; bytes = 1 ∷ 0 ∷ 0 ∷ 0 ∷ [] }

abbrev pub off : Value
off = record { tag = u32; length = 4; bytes = 0 ∷ 0 ∷ 0 ∷ 0 ∷ [] }

pub on-IsValue : IsValue on
on-IsValue = record { counted = refl; small = omega arith }

pub off-IsValue : IsValue off
off-IsValue = record { counted = refl; small = omega arith }

abbrev pub off_item : CacheItem
off_item = record { value = some off; modified = pos 0; duration = pos 1000 }

abbrev pub cache : Cache cache_tree.Tree
cache = record {
  tree = (dev_key, off_item) ∷ [];
  min_interval = pos 500;
  max_interval = pos 5000;
  default_duration = pos 1000;
  min_duration = pos 100;
  notices = 0;
}

abbrev pub server : State Cell cache_tree lock_tree
server = record { namespace = []; cache = some cache; route = cell_item ∷ []; world = none }

abbrev pub env : Env
env = record {
  mutex_granted = true;
  copy_granted = true;
  item_granted = true;
  value_granted = true;
  read_at = pos 20;
  write_at = pos 10;
  at_once = 1000;
}

abbrev pub short_env : Env
short_env = record {
  mutex_granted = true;
  copy_granted = true;
  item_granted = false;
  value_granted = true;
  read_at = pos 20;
  write_at = pos 10;
  at_once = 1000;
}
