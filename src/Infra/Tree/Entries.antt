-- ===== src/Infra/Tree/Entries.antt =====
-- A list of entries is a tree in the sense of the interface.
use propd.Prelude.{
  Text, text_eq, text_eq_iff, ◌≡◌, refl, List, [], ◌∷◌, Option, none, some, arith, if◌then◌else◌,
}
use propd.Infra.Tree.{TreeOps, contains, is_some}

module _ {V : Type 0} where
  unfoldable pub find : List (Text × V) → Text → Option V
  find [] k = none
  find ((j, v) ∷ t) k = if text_eq j k then some v else find t k

  unfoldable pub assign : List (Text × V) → Text → V → List (Text × V)
  assign [] k w = []
  assign ((j, v) ∷ t) k w = if text_eq j k then (j, w) ∷ assign t k w else (j, v) ∷ assign t k w

  unfoldable pub remove : List (Text × V) → Text → List (Text × V)
  remove [] k = []
  remove ((j, v) ∷ t) k = if text_eq j k then remove t k else (j, v) ∷ remove t k

  unfoldable pub keys : List (Text × V) → List Text
  keys [] = []
  keys ((j, v) ∷ t) = j ∷ keys t

  unfoldable pub insert : List (Text × V) → Text → V → List (Text × V) × Option V
  unfolding find
  insert t k w = elim (find t k) [ none ↦ ((k, w) ∷ t, none) | some v ↦ (t, some v) ]

  pub find-empty : (k : Text) → find [] k ≡ none
  unfolding find
  find-empty k = refl

  pub insert_found :
      (t : List (Text × V)) (k : Text) (v w : V) → find t k ≡ some v → insert t k w ≡ (t, some v)
  unfolding insert
  insert_found t k v w h = ground arith

  pub insert_absent :
      (t : List (Text × V)) (k : Text) (w : V) → find t k ≡ none → (insert t k w).1 ≡ none
  unfolding insert
  insert_absent t k w h = ground arith

  pub find-insert :
      (t : List (Text × V)) (k : Text) (w : V)
      → find t k ≡ none
      → (j : Text) → find (insert t k w).0 j ≡ (if text_eq k j then some w else find t j)
  unfolding insert
  find-insert t k w h j = ground arith

  -- A write through an element that is not there changes nothing.
  find-assign_lem :
      (t : List (Text × V)) (k : Text) (w : V) (j : Text)
      → find (assign t k w) j
        ≡ (if text_eq k j then (if is_some (find t k) then some w else none) else find t j)
  unfolding find assign
  find-assign_lem [] k w j = ground arith
  find-assign_lem ((i, u) ∷ t) k w j =
      ground (arith, text_eq_iff k j, text_eq_iff i k, text_eq_iff i j, find-assign_lem t k w j)

  pub find-assign :
      (t : List (Text × V)) (k : Text) (v w : V)
      → find t k ≡ some v
      → (j : Text) → find (assign t k w) j ≡ (if text_eq k j then some w else find t j)
  find-assign t k v w h j = ground (arith, find-assign_lem t k w j)

  pub find-remove :
      (t : List (Text × V)) (k j : Text)
      → find (remove t k) j ≡ (if text_eq k j then none else find t j)
  unfolding find remove
  find-remove [] k j = ground arith
  find-remove ((i, v) ∷ t) k j =
      ground (arith, text_eq_iff k j, text_eq_iff i k, text_eq_iff i j, find-remove t k j)

  pub keys_find : (t : List (Text × V)) (k : Text) → contains (keys t) k ≡ is_some (find t k)
  unfolding find keys
  keys_find [] k = refl
  keys_find ((j, v) ∷ t) k = ground (arith, keys_find t k)

abbrev pub entries : (V : Type 0) → TreeOps V
entries V = record {
  Tree = List (Text × V);
  empty = [];
  find = find;
  insert = insert;
  assign = assign;
  remove = remove;
  keys = keys;
  find-empty = find-empty;
  insert_found = insert_found;
  insert_absent = insert_absent;
  find-insert = find-insert;
  find-assign = find-assign;
  find-remove = find-remove;
  keys_find = keys_find;
}
