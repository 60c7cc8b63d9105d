-- ===== src/Route/Unregister.antt =====
-- `__route_unregister` and the loop of `route_unregister` over a whole table.
use propd.Prelude.{
  ℕ, zero, suc, ◌<◌, Text, text_eq, text_eq_iff, text_eq_refl, pos, eq_ℤ, ◌≡◌, refl, false, List,
  [], ◌∷◌, All, none, some, err, Done, done, enoent, ebusy, length, arith, if◌then◌else◌,
  Bool-cases, inl, inr, Option-cases, ◌⊎◌, ◌≢◌,
}
use propd.Route.{
  Item, name_of, find_name, remove_name, unregister, unregister_loop, route_unregister,
  route_item_destroy,
}
use propd.Route.Register.{UniqueNames}

module _ {W : Type 0} where
  find_name_absent :
      (list : List (Item W)) (name : Text)
      → All (λ y. text_eq (name_of y) name ≡ false) list
      → find_name list name ≡ none
  unfolding find_name
  find_name_absent [] name h = refl
  find_name_absent (x ∷ xs) name h = ground (arith, find_name_absent xs name h.1)

  find_name-remove_name :
      (list : List (Item W)) (name j : Text)
      → UniqueNames list
      → find_name (remove_name list name) j ≡ (if text_eq name j then none else find_name list j)
  unfolding find_name remove_name
  find_name-remove_name [] name j u = ground arith
  find_name-remove_name (x ∷ xs) name j u = ground (
    arith,
    text_eq_iff (name_of x) name,
    text_eq_iff name j,
    text_eq_iff (name_of x) j,
    find_name_absent xs (name_of x) u.0,
    find_name-remove_name xs name j u.1,
  )

  abbrev pub drop_idle : List (Item W) → W → Done × List (Item W) × W
  drop_idle [] w = (done, [], w)
  drop_idle (x ∷ xs) w =
      if eq_ℤ x.nref (pos 0) then drop_idle xs (route_item_destroy x w) else (err ebusy, x ∷ xs, w)

  pub unregister_first :
      (x : Item W) (xs : List (Item W)) (w : W)
      → unregister (x ∷ xs) w (name_of x) ≡ (
          if eq_ℤ x.nref (pos 0)
          then (done, xs, route_item_destroy x w)
          else (err ebusy, x ∷ xs, w))
  unfolding unregister find_name remove_name
  unregister_first x xs w = ground (arith, text_eq_refl (name_of x))

  unregister_loop-drop_idle :
      (fuel : ℕ) (list : List (Item W)) (w : W)
      → length list < fuel
      → unregister_loop fuel list w ≡ drop_idle list w
  unfolding unregister_loop
  unregister_loop-drop_idle zero list w h = absurd (omega arith)
  unregister_loop-drop_idle (suc fuel) [] w h = refl
  unregister_loop-drop_idle (suc fuel) (x ∷ xs) w h =
      ground
        (arith, unregister_first x xs w, unregister_loop-drop_idle fuel xs (route_item_destroy x w))

  -- `route_unregister(NULL)` ends, and takes items off the front, destroying each, up to the first
  -- that is still referenced: then it returns EBUSY and keeps the rest; with none it returns 0 and
  -- leaves the table empty.
  pub route_unregister-all :
      (list : List (Item W)) (w : W) → route_unregister list w none ≡ drop_idle list w
  unfolding route_unregister
  route_unregister-all list w = unregister_loop-drop_idle (suc (length list)) list w (omega arith)

  -- `route_unregister(name)` on a table with unique names. It answers ENOENT for a name that is not
  -- there and EBUSY for an item that is referenced, and changes nothing then. Otherwise it returns
  -- 0, runs the storage's destructor, and afterwards that name finds nothing while every other name
  -- finds what it found before.
  pub route_unregister-one :
      (list : List (Item W)) (w : W) (name : Text)
      → UniqueNames list
      → ((find_name list name ≡ none)
          × (route_unregister list w (some name) ≡ (err enoent, list, w)))
        ⊎ ((x : Item W) × (find_name list name ≡ some x)
            × (x.nref ≢ pos 0)
            × (route_unregister list w (some name) ≡ (err ebusy, list, w)))
        ⊎ ((x : Item W) × (list' : List (Item W)) × (find_name list name ≡ some x)
            × (x.nref ≡ pos 0)
            × (route_unregister list w (some name) ≡ (done, list', route_item_destroy x w))
            × ((j : Text)
                → find_name list' j ≡ (if text_eq name j then none else find_name list j)))
  unfolding route_unregister unregister
  route_unregister-one list w name u = elim (Option-cases (find_name list name)) [
    | inl e ↦ inl (e, ground arith)
    | inr (x, e) ↦ elim (Bool-cases (eq_ℤ x.nref (pos 0))) [
      | inl idle ↦ inr (
          inr (
            x,
            remove_name list name,
            e,
            ground arith,
            ground arith,
            λ j. find_name-remove_name list name j u,
          ))
      | inr busy ↦ inr (inl (x, e, ground arith, ground arith))
    ]
  ]
