-- ===== src/IoServer/Loop.antt =====
-- lib/io_server.c: the connections that `server` accepts, and `start_io_server` with what it holds
-- on each of its paths.
use propd.Prelude.{
  ℕ, ◌+◌, ◌-◌, ◌≡◌, ◌&&◌, not, is_ok, Bool, List, [], ◌∷◌, Option, none, some, Done, done, err,
  Errno, enomem, arith, if◌then◌else◌,
}
use propd.Infra.Resources.{Holds}

-- One round: whether the memory for the worker's argument is granted, and what `accept` answers; an
-- error may be EINTR.
pub data Accepted : Type 0 where
  connection : ℕ → Accepted
  interrupted : Accepted
  failed : Accepted

pub record Round : Type 0 where
  pub arg_granted : Bool
  pub accepted : Accepted

-- The connections that the loop gives to workers, in order.
unfoldable pub server : List Round → List ℕ
server [] = []
server (r ∷ rs) =
    let rest = server rs in
    if r.arg_granted
    then elim r.accepted [ connection fd ↦ fd ∷ rest | interrupted ↦ rest | failed ↦ [] ]
    else []

-- What `start_io_server` meets: the memory for its record, and the errors of the calls.
pub record StartEnv : Type 0 where
  pub granted : Bool
  pub socket : Option Errno
  pub bind : Option Errno
  pub listen : Option Errno
  pub create : Option Errno

-- The labels at the end, each of which falls through to the next.
unfoldable pub exit_ctx : Errno → Holds → Done × Holds
exit_ctx e h = (err e, record h { blocks = h.blocks - 1 })

unfoldable pub exit_listenfd : Errno → Holds → Done × Holds
unfolding exit_ctx
exit_listenfd e h = exit_ctx e (record h { sockets = h.sockets - 1 })

unfoldable pub exit_sun_path : Errno → Holds → Done × Holds
unfolding exit_listenfd
exit_sun_path e h = exit_listenfd e (record h { paths = h.paths - 1 })

-- `server_cleanup`, when the thread ends.
unfoldable pub server_cleanup : Holds → Holds
server_cleanup h = record {
  blocks = h.blocks - 1;
  sockets = h.sockets - 1;
  paths = h.paths - 1;
  threads = h.threads - 1;
}

-- With no place for the thread's id the call waits until the thread ends.
unfoldable pub start_thread : StartEnv → Bool → Holds → Done × Holds
unfolding exit_sun_path server_cleanup
start_thread env waits h = elim env.create [
  | some e ↦ exit_sun_path e h
  | none ↦
      let running = record h { threads = h.threads + 1 } in
      (done, if waits then server_cleanup running else running)
]

unfoldable pub start_listening : StartEnv → Bool → Holds → Done × Holds
unfolding exit_sun_path start_thread
start_listening env waits h = elim env.listen [
  | some e ↦ exit_sun_path e h
  | none ↦ start_thread env waits h
]

unfoldable pub start_bound : StartEnv → Bool → Holds → Done × Holds
unfolding exit_listenfd start_listening
start_bound env waits h = elim env.bind [
  | some e ↦ exit_listenfd e h
  | none ↦ start_listening env waits (record h { paths = h.paths + 1 })
]

unfoldable pub start_io_server : StartEnv → Bool → Holds → Done × Holds
unfolding exit_ctx start_bound
start_io_server env waits h =
    if env.granted
    then elim env.socket [
      | some e ↦ exit_ctx e (record h { blocks = h.blocks + 1 })
      | none ↦ start_bound env waits (record h { blocks = h.blocks + 1; sockets = h.sockets + 1 })
    ]
    else (err enomem, h)

-- What a running server holds on top of `h`.
unfoldable pub running : Holds → Holds
running h = record {
  blocks = h.blocks + 1;
  sockets = h.sockets + 1;
  paths = h.paths + 1;
  threads = h.threads + 1;
}

-- `start_io_server` holds what a running server holds when it returns 0 without waiting for its
-- thread; on every other path it holds no more than before.
pub start_io_server-Holds :
    (env : StartEnv) (waits : Bool) (h : Holds)
    → (start_io_server env waits h).1
      ≡ (if is_ok (start_io_server env waits h).0 && not waits then running h else h)
unfolding start_io_server start_bound start_listening start_thread exit_ctx exit_listenfd
    exit_sun_path server_cleanup running
start_io_server-Holds env waits h = ground arith
