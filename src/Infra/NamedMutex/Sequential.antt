-- ===== src/Infra/NamedMutex/Sequential.antt =====
-- `named_mutex_lock` and `named_mutex_unlock` of one name that nobody else uses.
use propd.Prelude.{
  Text, text_eq, text_eq_iff, text_eq_refl, pos, ◌+ℤ◌, ◌-ℤ◌, ◌≡◌, refl, true, false, none, some,
  done, err, enomem, arith, if◌then◌else◌,
}
use propd.Infra.Tree.{TreeOps}
use propd.Infra.NamedMutex.{Nmtx, enter, hold, named_mutex_lock, named_mutex_unlock}
use propd.Infra.NamedMutex.Laws.{enter-done, find-enter, find-hold, find-leave}

module _ (T : TreeOps Nmtx) where
  open T use {Tree, find}

  -- Under the lock the name's mutex is held, with one reference.
  pub find-lock :
      (ns : Tree) (k j : Text)
      → find ns k ≡ none
      → ((named_mutex_lock T true ns k).0 ≡ done)
        × (find (named_mutex_lock T true ns k).1 j
            ≡ (if text_eq k j then some (record { nref = pos 1; locked = true }) else find ns j))
  unfolding named_mutex_lock ◌+ℤ◌
  find-lock ns k j free = ground (
    arith,
    enter-done T ns k,
    find-enter T ns k k,
    find-enter T ns k j,
    text_eq_refl k,
    find-hold T (enter T true ns k).1 k j true,
  )

  find-unlock :
      (ns : Tree) (k j : Text)
      → find ns k ≡ some (record { nref = pos 1; locked = true })
      → ((named_mutex_unlock T ns k).0 ≡ done)
        × (find (named_mutex_unlock T ns k).1 j ≡ (if text_eq k j then none else find ns j))
  unfolding named_mutex_unlock ◌-ℤ◌
  find-unlock ns k j held = ground (
    arith,
    find-hold T ns k k false,
    find-hold T ns k j false,
    text_eq_refl k,
    find-leave T (hold T ns k false) k j,
  )

  -- Locking and unlocking a name that nobody uses succeeds, given the memory, and leaves every name
  -- as it was.
  pub unlock-lock :
      (ns : Tree) (k j : Text)
      → find ns k ≡ none
      → ((named_mutex_unlock T (named_mutex_lock T true ns k).1 k).0 ≡ done)
        × (find (named_mutex_unlock T (named_mutex_lock T true ns k).1 k).1 j ≡ find ns j)
  unlock-lock ns k j free = ground (
    arith,
    find-lock ns k k free,
    find-lock ns k j free,
    text_eq_refl k,
    text_eq_iff k j,
    find-unlock (named_mutex_lock T true ns k).1 k j,
  )

  -- Without the memory `named_mutex_lock` answers ENOMEM and changes nothing.
  pub lock_no_memory : (ns : Tree) (k : Text) → named_mutex_lock T false ns k ≡ (err enomem, ns)
  unfolding named_mutex_lock
  lock_no_memory ns k = refl
