-- ===== src/Storage/Deletion.antt =====
-- The test in `storage_del` of lib/storage.c is on the wrong operation.
use propd.Prelude.{Text, ◌≡◌, refl, none, some, Done, fault, err, eopnotsupp}
use propd.Value.{Value}
use propd.Storage.{Storage, storage_del}

-- The bug: a deletion from a storage that can set and cannot delete calls a NULL pointer, and one from
-- a storage that can delete and cannot set is refused with EOPNOTSUPP.
pub storage_del-wrong_guard :
    {W : Type 0} (s t : Storage W) (set : W → Text → Value → Done × W) (del : W → Text → Done × W)
    (w : W) (key : Text)
    → s.set ≡ some set
    → s.del ≡ none
    → t.set ≡ none
    → t.del ≡ some del
    → (storage_del s w key ≡ (fault, w)) × (storage_del t w key ≡ (err eopnotsupp, w))
unfolding storage_del
storage_del-wrong_guard s t set del w key a b c d = (rw (a, b) refl, rw c refl)
