-- ===== src/Propd/Run.antt =====
-- `__propd_run` of lib/propd.c: what it starts, in which order, up to the first failure, and what it
-- stops again. What the parts do is in their own modules.
pub mod Balance
use propd.Prelude.{ℕ, ◌+◌, ◌==◌, Text, Bool, true, false, not, List, [], ◌∷◌, ◌++◌, if◌then◌else◌}

pub data Part : Type 0 where
  part_pool part_namespace part_cache part_route part_io_server part_ctrl_server : Part

-- Whether each call succeeds: the directory is there or can be made, the parts can be created, and the
-- children and parents agree. `cache_interval` is the configuration's.
pub record RunEnv : Type 0 where
  pub directory : Bool
  pub pool : Bool
  pub namespace : Bool
  pub cache_interval : ℕ
  pub cache : Bool
  pub route : Bool
  pub io_server : Bool
  pub ctrl_server : Bool
  pub registered : Bool

-- `!ret`, and the parts that are there, the last first.
pub record Progress : Type 0 where
  pub running : Bool
  pub started : List Part

-- `if (!ret) { ... }` round a call that creates a part.
unfoldable pub start : Part → Bool → Progress → Progress
start part succeeds p =
    if p.running
    then (if succeeds
        then record { running = true; started = part ∷ p.started }
        else record { running = false; started = p.started })
    else p

unfoldable pub start_cache : ℕ → Bool → Progress → Progress
unfolding start
start_cache interval succeeds p = if interval == 0 then p else start part_cache succeeds p

-- The first half, up to the servers and the registrations; `running` says that `pause` is reached.
unfoldable pub start_all : RunEnv → Progress
unfolding start start_cache
start_all env =
    let p1 = start part_pool env.pool (record { running = env.directory; started = [] }) in
    let p2 = start part_namespace env.namespace p1 in
    let p3 = start_cache env.cache_interval env.cache p2 in
    let p4 = start part_route env.route p3 in
    let p5 = start part_io_server env.io_server p4 in
    let p6 = start part_ctrl_server env.ctrl_server p5 in
    if p6.running then record { running = env.registered; started = p6.started } else p6

abbrev pub same_part : Part → Part → Bool
same_part part_pool part_pool = true
same_part part_namespace part_namespace = true
same_part part_cache part_cache = true
same_part part_route part_route = true
same_part part_io_server part_io_server = true
same_part part_ctrl_server part_ctrl_server = true
same_part _ _ = false

abbrev pub has_part : Part → List Part → Bool
has_part part [] = false
has_part part (p ∷ ps) = if same_part part p then true else has_part part ps

-- A destructor does nothing with NULL, and a server without a thread is not cancelled.
unfoldable pub stop : Part → List Part → List Part
stop part started = if has_part part started then part ∷ [] else []

-- Whether the two assertions at the end hold: no item of the route that is left is referenced, and no
-- name of the namespace is in use.
pub record StopEnv : Type 0 where
  pub route_idle : Bool
  pub namespace_empty : Bool

-- A part whose destructor asserts, with the parts behind it; the process ends where the assertion
-- fails.
unfoldable pub stop_asserted : Bool → Part → List Part → List Part → List Part
unfolding stop
stop_asserted holds part started rest =
    if has_part part started then (if holds then stop part started ++ rest else []) else rest

-- The second half, in the order of the source. The messages to the parents are not parts.
unfoldable pub stop_all : StopEnv → List Part → List Part
unfolding stop stop_asserted
stop_all env started =
    stop part_ctrl_server started
    ++ (stop part_io_server started
        ++ (stop part_pool started
            ++ stop_asserted env.route_idle part_route started (
                stop part_cache started
                ++ stop_asserted env.namespace_empty part_namespace started [])))
