-- ===== src/Propd/Run/Balance.antt =====
-- Whatever fails in `__propd_run`, what was started is stopped.
use propd.Prelude.{
  ℕ, suc, ◌+◌, ◌≡◌, ◌≤◌, ◌↔◌, arith, ap, ◌∙◌, refl, Bool, true, false, Bool-cases, inl, inr, List,
  [], ◌∷◌, ◌++◌, if◌then◌else◌,
}
use mathlib.Core.List.{append-nil}
use propd.Propd.Run.{
  Part, part_pool, part_namespace, part_cache, part_route, part_io_server, part_ctrl_server, RunEnv,
  Progress, StopEnv, stop_asserted, start, start_cache, start_all, same_part, has_part, stop,
  stop_all,
}

abbrev pub times : Part → List Part → ℕ
times part [] = 0
times part (p ∷ ps) = if same_part part p then suc (times part ps) else times part ps

abbrev one_if : Bool → ℕ
one_if b = if b then 1 else 0

times-append :
    (part : Part) (ps qs : List Part) → times part (ps ++ qs) ≡ times part ps + times part qs
times-append part [] qs = omega arith
times-append part (p ∷ ps) qs = ground (arith, times-append part ps qs)

times-stop :
    (part p : Part) (started : List Part)
    → times part (stop p started) ≡ (if same_part part p then one_if (has_part p started) else 0)
unfolding stop
times-stop part p started = ground arith

-- A call adds at most its own part, once.
times-start :
    (part q : Part) (b : Bool) (p : Progress)
    → times part (start q b p).started ≤ times part p.started + one_if (same_part part q)
unfolding start
times-start part q b p = ground arith

times-start_cache :
    (part : Part) (interval : ℕ) (b : Bool) (p : Progress)
    → times part (start_cache interval b p).started
      ≤ times part p.started + one_if (same_part part part_cache)
unfolding start_cache
times-start_cache part interval b p = ground (arith, times-start part part_cache b p)

has_part-times : (part : Part) (ps : List Part) → (times part ps ≡ 0) ↔ (has_part part ps ≡ false)
has_part-times part [] = (λ e. refl, λ e. refl)
has_part-times part (p ∷ ps) = ground (arith, has_part-times part ps)

one_of_six :
    (part : Part)
    → one_if (same_part part part_pool)
        + one_if (same_part part part_namespace)
        + one_if (same_part part part_cache)
        + one_if (same_part part part_route)
        + one_if (same_part part part_io_server)
        + one_if (same_part part part_ctrl_server)
      ≡ 1
one_of_six part_pool = refl
one_of_six part_namespace = refl
one_of_six part_cache = refl
one_of_six part_route = refl
one_of_six part_io_server = refl
one_of_six part_ctrl_server = refl

times-start_all : (env : RunEnv) (part : Part) → times part (start_all env).started ≤ 1
unfolding start_all
times-start_all env part = omega (
  arith,
  last p6 env.registered,
  times-start part part_ctrl_server env.ctrl_server p5,
  times-start part part_io_server env.io_server p4,
  times-start part part_route env.route p3,
  times-start_cache part env.cache_interval env.cache p2,
  times-start part part_namespace env.namespace p1,
  times-start part part_pool env.pool p0,
  one_of_six part,
)
  where
    p0 : Progress
    p0 = record { running = env.directory; started = [] }

    p1 : Progress
    p1 = start part_pool env.pool p0

    p2 : Progress
    p2 = start part_namespace env.namespace p1

    p3 : Progress
    p3 = start_cache env.cache_interval env.cache p2

    p4 : Progress
    p4 = start part_route env.route p3

    p5 : Progress
    p5 = start part_io_server env.io_server p4

    p6 : Progress
    p6 = start part_ctrl_server env.ctrl_server p5

    last :
        (p : Progress) (b : Bool)
        → times part (if p.running then record { running = b; started = p.started } else p).started
          ≡ times part p.started
    last p b = ground arith

abbrev each_of : List Part → List Part
each_of xs =
    stop part_ctrl_server xs
    ++ (stop part_io_server xs
        ++ (stop part_pool xs
            ++ (stop part_route xs ++ (stop part_cache xs ++ stop part_namespace xs))))

stop_asserted_holds :
    (part : Part) (xs rest : List Part) → stop_asserted true part xs rest ≡ stop part xs ++ rest
unfolding stop_asserted stop
stop_asserted_holds part xs rest = elim (Bool-cases (has_part part xs)) [
  | inl e ↦ rw e refl
  | inr e ↦ rw e refl
]

-- Where both assertions hold, each part has its turn.
stop_all_asserted :
    (env : StopEnv) (xs : List Part)
    → env.route_idle ≡ true
    → env.namespace_empty ≡ true
    → stop_all env xs ≡ each_of xs
unfolding stop_all
stop_all_asserted env xs idle empty =
    rw
      (
        idle,
        empty,
        stop_asserted_holds part_namespace xs [],
        append-nil (stop part_namespace xs),
        stop_asserted_holds part_route xs (stop part_cache xs ++ stop part_namespace xs),
      )
      refl

-- The parts that are stopped, counted one by one.
times-each :
    (part : Part) (xs : List Part)
    → times part (each_of xs)
      ≡ times part (stop part_ctrl_server xs)
        + (times part (stop part_io_server xs)
            + (times part (stop part_pool xs)
                + (times part (stop part_route xs)
                    + (times part (stop part_cache xs) + times part (stop part_namespace xs)))))
times-each part xs =
    times-append part (stop part_ctrl_server xs) _
    ∙ ap (times part (stop part_ctrl_server xs) +◌) (
        times-append part (stop part_io_server xs) _
        ∙ ap (times part (stop part_io_server xs) +◌) (
            times-append part (stop part_pool xs) _
            ∙ ap (times part (stop part_pool xs) +◌) (
                times-append part (stop part_route xs) _
                ∙ ap (times part (stop part_route xs) +◌)
                    (times-append part (stop part_cache xs) (stop part_namespace xs)))))

each_stop :
    (part : Part) (xs : List Part)
    → times part (each_of xs)
      ≡ (if same_part part part_ctrl_server then one_if (has_part part_ctrl_server xs) else 0)
        + ((if same_part part part_io_server then one_if (has_part part_io_server xs) else 0)
            + ((if same_part part part_pool then one_if (has_part part_pool xs) else 0)
                + ((if same_part part part_route then one_if (has_part part_route xs) else 0)
                    + ((if same_part part part_cache then one_if (has_part part_cache xs) else 0)
                        + (if same_part part part_namespace
                            then one_if (has_part part_namespace xs)
                            else 0)))))
each_stop part xs = omega (
  arith,
  times-each part xs,
  times-stop part part_ctrl_server xs,
  times-stop part part_io_server xs,
  times-stop part part_pool xs,
  times-stop part part_route xs,
  times-stop part part_cache xs,
  times-stop part part_namespace xs,
)

times-each_of :
    (part : Part) (started : List Part)
    → times part (each_of started) ≡ one_if (has_part part started)
times-each_of part_pool xs = omega (arith, each_stop part_pool xs)
times-each_of part_namespace xs = omega (arith, each_stop part_namespace xs)
times-each_of part_cache xs = omega (arith, each_stop part_cache xs)
times-each_of part_route xs = omega (arith, each_stop part_route xs)
times-each_of part_io_server xs = omega (arith, each_stop part_io_server xs)
times-each_of part_ctrl_server xs = omega (arith, each_stop part_ctrl_server xs)

-- Every part that `__propd_run` started it stops exactly once, and it stops nothing else, wherever the
-- start failed, and also if it did not, if at the end no item of the route is referenced and no name
-- of the namespace is in use.
pub stop_all-start_all :
    (env : RunEnv) (stops : StopEnv) (part : Part)
    → stops.route_idle ≡ true
    → stops.namespace_empty ≡ true
    → times part (stop_all stops (start_all env).started) ≡ times part (start_all env).started
stop_all-start_all env stops part idle empty =
    ap (times part) (stop_all_asserted stops (start_all env).started idle empty)
    ∙ times-each_of part (start_all env).started
    ∙ ground (arith, times-start_all env part, has_part-times part (start_all env).started)
