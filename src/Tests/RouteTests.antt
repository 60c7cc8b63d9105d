-- ===== src/Tests/RouteTests.antt =====
-- The theorems of Route on a table with one item.
use propd.Prelude.{ℕ, ◌≡◌, refl, codes, List, [], ◌∷◌, none, some, done}
use propd.Route.{Item, find_name, register, route_unregister, route_match}
use propd.Route.Match.{Outcome, route_match-Outcome}
use propd.Route.Unregister.{drop_idle, route_unregister-all}
use propd.Route.Lifetime.{IsLive, registers, Reach, stop, then_step}
use propd.Route.Lifetime.Safety.{Reach-IsLive}
use propd.Tests.Data.{Cell, cell, cell_item, dev_key}

abbrev table : List (Item Cell)
table = cell_item ∷ []

route_match-Outcome_example : Outcome dev_key table (route_match table dev_key)
route_match-Outcome_example = route_match-Outcome table dev_key

registered : (register [] cell (codes "dev.*" ∷ []) (some 7)).0 ≡ done
unfolding register find_name
registered = refl

route_unregister-all_example : route_unregister table none none ≡ drop_idle table none
route_unregister-all_example = route_unregister-all table none

abbrev empty_table : List (Item Cell) × List ℕ
empty_table = ([], [])

abbrev one_item : List (Item Cell) × List ℕ
one_item = ((register [] cell (codes "dev.*" ∷ []) (some 7)).1, [])

one_step : Reach empty_table one_item
one_step = then_step stop (registers [] [] cell (codes "dev.*" ∷ []) 7 refl)

Reach-IsLive_example : IsLive one_item.0 one_item.1
Reach-IsLive_example = Reach-IsLive one_step (record { counted = tt; distinct = tt; present = tt })
