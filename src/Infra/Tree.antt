-- ===== src/Infra/Tree.antt =====
-- The calls of lib/infra/tree.h (the BSD tree macros, a copy of another project's library): a
-- dictionary ordered by `strcmp` on the key. It is an interface, with the laws that its callers
-- use. A list of entries meets them (Tree/Entries).
pub mod Entries
use propd.Prelude.{
  Text, text_eq, ◌≡◌, Bool, true, false, List, [], ◌∷◌, Option, none, some, if◌then◌else◌,
}

abbrev pub contains : List Text → Text → Bool
contains [] k = false
contains (j ∷ js) k = if text_eq j k then true else contains js k

abbrev pub is_some {ℓ} : {A : Type ℓ} → Option A → Bool
is_some none = false
is_some (some a) = true

-- `find` is RB_FIND. `insert` is RB_INSERT: it returns the element that has the key already, and
-- then leaves the tree alone. `assign` is a write to the fields of the element that has the key.
-- `keys` is the order in which RB_FOREACH meets the elements.
pub record TreeOps (V : Type 0) : Type 1 where
  pub Tree : Type 0
  pub empty : Tree
  pub find : Tree → Text → Option V
  pub insert : Tree → Text → V → Tree × Option V
  pub assign : Tree → Text → V → Tree
  pub remove : Tree → Text → Tree
  pub keys : Tree → List Text
  pub find-empty : (k : Text) → find empty k ≡ none
  pub insert_found :
      (t : Tree) (k : Text) (v w : V) → find t k ≡ some v → insert t k w ≡ (t, some v)
  pub insert_absent : (t : Tree) (k : Text) (w : V) → find t k ≡ none → (insert t k w).1 ≡ none
  pub find-insert :
      (t : Tree) (k : Text) (w : V)
      → find t k ≡ none
      → (j : Text) → find (insert t k w).0 j ≡ (if text_eq k j then some w else find t j)
  pub find-assign :
      (t : Tree) (k : Text) (v w : V)
      → find t k ≡ some v
      → (j : Text) → find (assign t k w) j ≡ (if text_eq k j then some w else find t j)
  pub find-remove :
      (t : Tree) (k j : Text) → find (remove t k) j ≡ (if text_eq k j then none else find t j)
  pub keys_find : (t : Tree) (k : Text) → contains (keys t) k ≡ is_some (find t k)
