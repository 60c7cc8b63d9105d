-- ===== src/CtrlServer/Loop.antt =====
-- lib/ctrl_server.c: what `server` gives its workers, `worker` on the bytes of a package, and
-- `start_ctrl_server`.
use propd.Prelude.{
  ℕ, ◌+◌, ◌-◌, ◌*◌, ◌%◌, ◌^◌, ◌≡◌, Text, Bool, not, ◌&&◌, is_ok, arith, List, [], ◌∷◌, Option, none,
  some, err, fault, Done, done, Errno, enomem, if◌then◌else◌,
}
use propd.Infra.Tree.{TreeOps}
use propd.Infra.NamedMutex.{Nmtx}
use propd.Cache.{CacheItem}
use propd.Io.{State}
use propd.IoServer.{Message}
use propd.Infra.Resources.{Holds}
use propd.CtrlServer.{ChildEnv, Self, Package, worker}
use propd.Builtin.Unix.{name_max}
use propd.CtrlServer.Wire.{package_size, receive, decode_package}

-- The buffer of `server`, for `num_prefix_max` names.
unfoldable pub buffer_length : ℕ → ℕ
buffer_length num_prefix_max = package_size + num_prefix_max * name_max % 2 ^ 32

-- One round: the memory for the package, with what is in it, and for the worker's argument, and the
-- datagram, `none` where `recvfrom` fails.
pub record Round : Type 0 where
  pub memory : Option (List ℕ)
  pub arg_granted : Bool
  pub datagram : Option (List ℕ)

-- The package of the worker that the round submits; `none` is the end of the loop.
unfoldable pub server_round : Round → Option (List ℕ)
unfolding receive
server_round r = elim r.memory [
  | none ↦ none
  | some junk ↦
      if r.arg_granted
      then elim r.datagram [ none ↦ none | some d ↦ some (receive junk d) ]
      else none
]

-- The packages that the loop submits to the thread pool, in order.
unfoldable pub server : List Round → List (List ℕ)
unfolding server_round
server [] = []
server (r ∷ rs) = elim (server_round r) [ none ↦ [] | some bytes ↦ bytes ∷ server rs ]

module _ {W : Type 0} (C : TreeOps CacheItem) (N : TreeOps Nmtx) where
  -- A package that is not in the buffer with all its names stands as a fault: how many of them are read,
  -- and what is found behind the buffer, is not modelled.
  unfoldable pub worker_bytes :
      (Text → W → List Message → List Message × W)
      → (Text → Package → W → Option Done × W)
      → ChildEnv
      → Self
      → State W C N
      → List ℕ
      → Option Done × State W C N
  unfolding worker decode_package
  worker_bytes exchange deliver env self s bytes = elim (decode_package bytes) [
    | none ↦ (some fault, s)
    | some p ↦ worker C N exchange deliver env self s p
  ]

-- What `start_ctrl_server` meets: the memory for its record, the name and the two arrays, and the
-- errors of `socket`, `bind` and `pthread_create`.
pub record StartEnv : Type 0 where
  pub granted : Bool
  pub name_granted : Bool
  pub cache_now_granted : Bool
  pub prefix_granted : Bool
  pub socket : Option Errno
  pub bind : Option Errno
  pub create : Option Errno

-- The labels at the end; `exit_ctx` frees what is not NULL, `n` blocks with the record.
unfoldable pub exit_ctx : ℕ → Errno → Holds → Done × Holds
exit_ctx n e h = (err e, record h { blocks = h.blocks - n })

unfoldable pub exit_listenfd : ℕ → Errno → Holds → Done × Holds
unfolding exit_ctx
exit_listenfd n e h = exit_ctx n e (record h { sockets = h.sockets - 1 })

unfoldable pub exit_sun_path : ℕ → Errno → Holds → Done × Holds
unfolding exit_listenfd
exit_sun_path n e h = exit_listenfd n e (record h { paths = h.paths - 1 })

-- `server_cleanup`, when the thread ends.
unfoldable pub server_cleanup : Holds → Holds
server_cleanup h = record {
  blocks = h.blocks - 4;
  sockets = h.sockets - 1;
  paths = h.paths - 1;
  threads = h.threads - 1;
}

-- With no place for the thread's id the call waits until the thread ends.
unfoldable pub start_thread : StartEnv → Bool → Holds → Done × Holds
unfolding exit_sun_path server_cleanup
start_thread env waits h = elim env.create [
  | some e ↦ exit_sun_path 4 e h
  | none ↦
      let running = record h { threads = h.threads + 1 } in
      (done, if waits then server_cleanup running else running)
]

unfoldable pub start_socket : StartEnv → Bool → Holds → Done × Holds
unfolding exit_ctx exit_listenfd start_thread
start_socket env waits h = elim env.socket [
  | some e ↦ exit_ctx 4 e h
  | none ↦
      let h' = record h { sockets = h.sockets + 1 } in
      elim env.bind [
        | some e ↦ exit_listenfd 4 e h'
        | none ↦ start_thread env waits (record h' { paths = h'.paths + 1 })
      ]
]

-- The record, the name, `cache_now` and `prefix`, each a block.
unfoldable pub start_ctrl_server : StartEnv → Bool → Holds → Done × Holds
unfolding exit_ctx start_socket
start_ctrl_server env waits h =
    let with_blocks : ℕ → Holds = λ n. record h { blocks = h.blocks + n } in
    if not env.granted
    then (err enomem, h)
    else if not env.name_granted
    then exit_ctx 1 enomem (with_blocks 1)
    else if not env.cache_now_granted
    then exit_ctx 2 enomem (with_blocks 2)
    else if not env.prefix_granted
    then exit_ctx 3 enomem (with_blocks 3)
    else start_socket env waits (with_blocks 4)

unfoldable pub running : Holds → Holds
running h = record {
  blocks = h.blocks + 4;
  sockets = h.sockets + 1;
  paths = h.paths + 1;
  threads = h.threads + 1;
}

-- `start_ctrl_server` holds what a running server holds when it returns 0 without waiting for its
-- thread; on every other path it holds no more than before.
pub start_ctrl_server-Holds :
    (env : StartEnv) (waits : Bool) (h : Holds)
    → (start_ctrl_server env waits h).1
      ≡ (if is_ok (start_ctrl_server env waits h).0 && not waits then running h else h)
unfolding start_ctrl_server start_socket start_thread exit_ctx exit_listenfd exit_sun_path
    server_cleanup running
start_ctrl_server-Holds env waits h = ground arith
