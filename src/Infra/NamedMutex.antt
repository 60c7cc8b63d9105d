-- ===== src/Infra/NamedMutex.antt =====
-- lib/infra/named_mutex.c: one mutex for each name in use, kept in a tree while some thread refers
-- to it. The steps are what the code does under the namespace's own mutex, or with one call on a
-- named mutex; threads interleave between them.
pub mod Laws
pub mod Threads
pub mod Sequential
pub mod Ending
use propd.Prelude.{
  [], ◌∷◌, Text, ℤ, pos, ◌+ℤ◌, ◌-ℤ◌, eq_ℤ, Bool, true, false, Option, none, some, Done, done, ok,
  err, fault, enoent, enomem, if◌then◌else◌,
}
use propd.Infra.Tree.{TreeOps}

-- The name is the tree's key.
pub record Nmtx : Type 0 where
  pub nref : ℤ
  pub locked : Bool

-- One Boolean stands for the two allocations.
unfoldable pub named_mutex_create : Bool → Option Nmtx
named_mutex_create granted =
    if granted then some (record { nref = pos 0; locked = false }) else none

module _ (T : TreeOps Nmtx) where
  open T use {Tree, empty, find, insert, assign, remove, keys}

  unfoldable pub named_mutex_create_namespace : Tree
  named_mutex_create_namespace = empty

  -- Behind `assert`; NULL and a tree without elements are no fault.
  unfoldable pub named_mutex_destroy_namespace : Option Tree → Done
  named_mutex_destroy_namespace none = done
  named_mutex_destroy_namespace (some ns) = elim (keys ns) [ [] ↦ done | k ∷ ks ↦ fault ]

  -- `nmtx->nref++` on the element of that name.
  take_ref : Tree → Text → Nmtx → Tree
  unfolding ◌+ℤ◌
  take_ref ns name m = assign ns name (record m { nref = m.nref +ℤ pos 1 })

  enter_created : Tree → Text → Option Nmtx → Done × Tree
  unfolding take_ref
  enter_created ns name none = (err enomem, ns)
  enter_created ns name (some m) =
      let (ns', old) = insert ns name m in
      elim old [ none ↦ (done, take_ref ns' name m) | some o ↦ (done, take_ref ns' name o) ]

  -- The first part of `named_mutex_lock`, under the namespace's mutex.
  unfoldable pub enter : Bool → Tree → Text → Done × Tree
  unfolding enter_created named_mutex_create
  enter granted ns name = enter_created ns name (named_mutex_create granted)

  -- What `pthread_mutex_lock` and `pthread_mutex_unlock` on the named mutex leave behind.
  unfoldable pub hold : Tree → Text → Bool → Tree
  hold ns name b = elim (find ns name) [
    | none ↦ ns
    | some m ↦ assign ns name (record m { locked = b })
  ]

  -- The last part of `named_mutex_unlock`: `--nref`, and the element goes with the last reference.
  unfoldable pub leave : Tree → Text → Tree
  unfolding ◌-ℤ◌
  leave ns name = elim (find ns name) [
    | none ↦ ns
    | some m ↦
        let fewer = m.nref -ℤ pos 1 in
        if eq_ℤ fewer (pos 0) then remove ns name else assign ns name (record m { nref = fewer })
  ]

  -- The two functions without interruption: when `pthread_mutex_lock` returns, the mutex is held.
  unfoldable pub named_mutex_lock : Bool → Tree → Text → Done × Tree
  unfolding enter hold
  named_mutex_lock granted ns name =
      let (ret, ns') = enter granted ns name in
      elim ret [ ok u ↦ (done, hold ns' name true) | err e ↦ (err e, ns') | fault ↦ (fault, ns') ]

  unfoldable pub named_mutex_unlock : Tree → Text → Done × Tree
  unfolding hold leave
  named_mutex_unlock ns name = elim (find ns name) [
    | none ↦ (err enoent, ns)
    | some m ↦ (done, leave (hold ns name false) name)
  ]
