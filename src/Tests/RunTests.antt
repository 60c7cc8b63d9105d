-- ===== src/Tests/RunTests.antt =====
-- The theorems on the start and the end of a server.
use propd.Prelude.{refl, ◌≡◌, [], ◌∷◌, true, false, done, fault, if◌then◌else◌, none, pos}
use propd.Propd.{stop_route}
use propd.Propd.Stopping.{all_idle, stop_route-all_idle}
use propd.Propd.Run.{RunEnv, StopEnv, part_pool, start_all, stop_all}
use propd.Propd.Run.Balance.{times, stop_all-start_all}
use propd.Tests.Data.{cell_item}

-- The route cannot be created.
abbrev no_route : RunEnv
no_route = record {
  directory = true;
  pool = true;
  namespace = true;
  cache_interval = 60;
  cache = true;
  route = false;
  io_server = true;
  ctrl_server = true;
  registered = true;
}

abbrev clean : StopEnv
clean = record { route_idle = true; namespace_empty = true }

stop_all-start_all_example :
    times part_pool (stop_all clean (start_all no_route).started)
    ≡ times part_pool (start_all no_route).started
stop_all-start_all_example = stop_all-start_all no_route clean part_pool refl refl

stop_route-all_idle_example :
    (stop_route (record cell_item { nref = pos 1 } ∷ []) none).0
    ≡ (if all_idle (record cell_item { nref = pos 1 } ∷ []) then done else fault)
stop_route-all_idle_example = stop_route-all_idle (record cell_item { nref = pos 1 } ∷ []) none
