-- ===== src/Builtin/Null.antt =====
-- lib/builtin/null.c: a storage that takes every write and keeps nothing.
use propd.Prelude.{Text, Bool, true, false, none, some, Reply, ok, err, enomem, Done, done}
use propd.Value.{Value}
use propd.Storage.{Storage}

module _ {W : Type 0} where
  unfoldable pub null_set : W → Text → Value → Done × W
  null_set w key v = (done, w)

  unfoldable pub null_del : W → Text → Done × W
  null_del w key = (done, w)

  -- The Boolean grants the memory of the name.
  unfoldable pub constructor_null : Bool → Text → Reply (Storage W)
  constructor_null false name = err enomem
  constructor_null true name = ok (record {
    name = name;
    get = none;
    set = some null_set;
    del = some null_del;
    destructor = none;
  })
