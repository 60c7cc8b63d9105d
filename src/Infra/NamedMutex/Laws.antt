-- ===== src/Infra/NamedMutex/Laws.antt =====
-- What each step of the named mutexes leaves under every name.
use propd.Prelude.{
  Text, text_eq, text_eq_iff, text_eq_refl, pos, ◌+ℤ◌, ◌-ℤ◌, eq_ℤ, ◌≡◌, Bool, true, false, Option,
  none, some, done, arith, if◌then◌else◌, Option-cases, inl, inr,
}
use propd.Infra.Tree.{TreeOps}
use propd.Infra.NamedMutex.{Nmtx, enter, hold, leave}

-- One reference more, a lock or an unlock, and one reference fewer, on what a name finds.
abbrev pub more : Option Nmtx → Nmtx
more none = record { nref = pos 0 +ℤ pos 1; locked = false }
more (some m) = record m { nref = m.nref +ℤ pos 1 }

abbrev pub with_lock : Bool → Option Nmtx → Option Nmtx
with_lock b none = none
with_lock b (some m) = some (record m { locked = b })

abbrev pub fewer : Option Nmtx → Option Nmtx
fewer none = none
fewer (some m) =
    if eq_ℤ (m.nref -ℤ pos 1) (pos 0) then none else some (record m { nref = m.nref -ℤ pos 1 })

abbrev fresh : Nmtx
fresh = record { nref = pos 0; locked = false }

module _ (T : TreeOps Nmtx) where
  open T use {
    Tree, find, insert, assign, find-insert, insert_found, insert_absent, find-assign, find-remove,
  }

  pub enter-done : (ns : Tree) (k : Text) → (enter T true ns k).0 ≡ done
  unfolding enter
  enter-done ns k = ground arith

  pub find-enter :
      (ns : Tree) (k j : Text)
      → find (enter T true ns k).1 j ≡ (if text_eq k j then some (more (find ns k)) else find ns j)
  unfolding enter
  find-enter ns k j = elim (Option-cases (find ns k)) [
    | inl e ↦
        let ns' = (insert ns k fresh).0 in
        let there : find ns' k ≡ some fresh =
          ground (arith, find-insert ns k fresh e k, text_eq_refl k) in
        ground (
          arith,
          insert_absent ns k fresh e,
          find-insert ns k fresh e j,
          find-assign ns' k fresh (more none) there j,
        )
    | inr (m, e) ↦
        ground (arith, insert_found ns k m fresh e, find-assign ns k m (more (some m)) e j)
  ]

  pub find-hold :
      (ns : Tree) (k j : Text) (b : Bool)
      → find (hold T ns k b) j ≡ (if text_eq k j then with_lock b (find ns k) else find ns j)
  unfolding hold
  find-hold ns k j b = elim (Option-cases (find ns k)) [
    | inl e ↦ ground (arith, text_eq_iff k j)
    | inr (m, e) ↦ ground (arith, find-assign ns k m (record m { locked = b }) e j)
  ]

  pub find-leave :
      (ns : Tree) (k j : Text)
      → find (leave T ns k) j ≡ (if text_eq k j then fewer (find ns k) else find ns j)
  unfolding leave
  find-leave ns k j = elim (Option-cases (find ns k)) [
    | inl e ↦ ground (arith, text_eq_iff k j)
    | inr (m, e) ↦
        ground
          (arith, find-remove ns k j, find-assign ns k m (record m { nref = m.nref -ℤ pos 1 }) e j)
  ]
