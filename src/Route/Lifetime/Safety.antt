-- ===== src/Route/Lifetime/Safety.antt =====
-- No storage is freed while a reference to it is out.
use propd.Prelude.{ℕ, List}
use propd.Route.{Item}
use propd.Route.Match.{route_match-Outcome}
use propd.Route.Lifetime.Adding.{register-IsLive}
use propd.Route.Lifetime.Lending.{match-IsLive}
use propd.Route.Lifetime.Returning.{deref-IsLive}
use propd.Route.Lifetime.Removing.{route_unregister-IsLive}
use propd.Route.Lifetime.{
  IsLive, Step, registers, unregisters, matches, derefs, Reach, stop, then_step,
}

module _ {W : Type 0} where
  Step-IsLive : {s t : List (Item W) × List ℕ} → Step s t → IsLive s.0 s.1 → IsLive t.0 t.1
  Step-IsLive (registers list refs s prefix addr fresh) l =
      register-IsLive list refs s prefix addr fresh l
  Step-IsLive (unregisters list refs w name) l = route_unregister-IsLive refs list w name l
  Step-IsLive (matches list refs key h list' e) l =
      match-IsLive refs h list' (route_match-Outcome list key) e l
  Step-IsLive (derefs list refs a out) l = deref-IsLive list refs a out l

  -- From a table in order, any sequence of registrations, unregistrations, matches and returned
  -- references leads to a table in order: each item counts exactly the references to it that are
  -- out, addresses are distinct, and every reference that is out leads to an item of the table.
  pub Reach-IsLive : {s t : List (Item W) × List ℕ} → Reach s t → IsLive s.0 s.1 → IsLive t.0 t.1
  Reach-IsLive stop l = l
  Reach-IsLive (then_step r st) l = Step-IsLive st (Reach-IsLive r l)
