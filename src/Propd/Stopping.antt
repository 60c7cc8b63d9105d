-- ===== src/Propd/Stopping.antt =====
-- The end of `__propd_run` of lib/propd.c while a request is still being served.
use propd.Prelude.{
  ◌≡◌, refl, ap, ◌∙◌, pos, eq_ℤ, Bool, true, ◌&&◌, List, [], ◌∷◌, done, fault, if◌then◌else◌, arith,
}
use propd.Route.{Item, route_item_destroy}
use propd.Route.Unregister.{drop_idle, route_unregister-all}
use propd.Propd.{route_destroy, stop_route}

module _ {W : Type 0} where
  -- Nobody holds a reference to an item.
  abbrev pub all_idle : List (Item W) → Bool
  all_idle [] = true
  all_idle (x ∷ xs) = eq_ℤ x.nref (pos 0) && all_idle xs

  destroy-drop_idle :
      (table : List (Item W)) (w : W)
      → route_destroy (drop_idle table w).1 ≡ (if all_idle table then done else fault)
  unfolding route_destroy
  destroy-drop_idle [] w = refl
  destroy-drop_idle (x ∷ xs) w = ground (arith, destroy-drop_idle xs (route_item_destroy x w))

  -- The bug: at the end of a server, the route is destroyed cleanly only if nobody holds a reference to an
  -- item; while a request holds one, its item stays in the table, and the assertion of `route_destroy`
  -- fails.
  pub stop_route-all_idle :
      (table : List (Item W)) (w : W)
      → (stop_route table w).0 ≡ (if all_idle table then done else fault)
  unfolding stop_route
  stop_route-all_idle table w =
      ap (λ r. route_destroy r.1) (route_unregister-all table w) ∙ destroy-drop_idle table w
