-- ===== src/CtrlServer/Client.antt =====
-- lib/ctrl_client.c: a request to a server is a socket, a datagram and what comes back.
pub mod Requests
pub mod Sockets
use propd.Prelude.{
  ℕ, ◌+◌, ◌-◌, Text, Bool, true, false, ◌||◌, List, [], ◌∷◌, Option, none, some, Reply, ok, err,
  fault, Done, done, Errno, enomem, eio, ◌==◌, if◌then◌else◌,
}
use propd.CtrlServer.{
  Child, Package, ctrl_register_child, ctrl_register_parent, ctrl_unregister_child,
  ctrl_unregister_parent, ctrl_dump_db_route, ctrl_dump_db_cache,
}
use propd.CtrlServer.Wire.{encode_package}

-- What the system answers: an error of `socket` or of `bind`, whether the memory of the package is
-- granted and what is in it, what its first byte is once it is freed, and the memory for the data.
pub record ClientEnv : Type 0 where
  pub socket : Option Errno
  pub bind : Option Errno
  pub granted : Bool
  pub junk : List ℕ
  pub freed : ℕ
  pub data_granted : Bool

-- The server at the other end: whether a datagram is sent whole, and the datagrams that come back,
-- each `none` where it has not the length that is asked for.
pub record Peer (W : Type 0) : Type 0 where
  pub send : List ℕ → W → Bool × W
  pub recv_result : W → Option Done × W
  pub recv_length : W → Option ℕ × W
  pub recv_data : ℕ → W → Option (List ℕ) × W
  pub discard : W → W

-- The sockets that this process holds open, and the other processes.
pub record Client (W : Type 0) : Type 0 where
  pub sockets : ℕ
  pub world : W

module _ {W : Type 0} where
  unfoldable pub opened : Client W → Client W
  opened c = record c { sockets = c.sockets + 1 }

  unfoldable pub closed : Client W → Client W
  closed c = record c { sockets = c.sockets - 1 }

  -- An error of `socket`, of `bind`, which closes the socket, or of `malloc`, which does not.
  unfoldable pub ctrl_init : ClientEnv → Client W → Done × Client W
  unfolding opened closed
  ctrl_init env c = elim env.socket [
    | some e ↦ (err e, c)
    | none ↦ elim env.bind [
      | some e ↦ (err e, closed (opened c))
      | none ↦ if env.granted then (done, opened c) else (err enomem, opened c)
    ]
  ]

  unfoldable pub ctrl_update : Peer W → List ℕ → Client W → Done × Client W
  ctrl_update peer datagram c =
      let (sent, w) = peer.send datagram c.world in
      (if sent then done else err eio, record c { world = w })

  -- The end of `ctrl_final0`: the result, and the socket is closed.
  unfoldable pub recv_result : Peer W → Client W → Done × Client W
  unfolding closed
  recv_result peer c =
      let (r, w) = peer.recv_result c.world in
      (elim r [ none ↦ err eio | some ret ↦ ret ], closed (record c { world = w }))

  -- The data of a dump of that length, and the result.
  unfoldable pub recv_dump : Peer W → ClientEnv → ℕ → Client W → Done × Client W
  unfolding recv_result closed
  recv_dump peer env n c =
      if n == 0
      then recv_result peer c
      else if env.data_granted
      then (let (received, w) = peer.recv_data n c.world in
          elim received [ none ↦ (fault, c) | some _ ↦ recv_result peer (record c { world = w }) ])
      else (err enomem, closed (record c { world = peer.discard (peer.discard c.world) }))

  -- `ctrl_final0`: it reads the type in the package, which `ctrl_update` has freed. The Boolean says
  -- whether the caller takes data.
  unfoldable pub ctrl_final0 : Peer W → ClientEnv → Bool → Client W → Done × Client W
  unfolding recv_result recv_dump
  ctrl_final0 peer env takes c =
      if env.freed == 4 || env.freed == 5
      then (if takes
          then (let (n, w) = peer.recv_length c.world in
              elim n [ none ↦ (fault, c) | some n ↦ recv_dump peer env n (record c { world = w }) ])
          else (fault, c))
      else recv_result peer c

  unfoldable pub then_final : Peer W → ClientEnv → Bool → Done × Client W → Done × Client W
  unfolding ctrl_final0
  then_final peer env takes (ok u, c) = ctrl_final0 peer env takes c
  then_final peer env takes (err e, c) = (err e, c)
  then_final peer env takes (fault, c) = (fault, c)

  unfoldable pub then_update :
      Peer W → ClientEnv → Bool → Package → Done × Client W → Done × Client W
  unfolding then_final ctrl_update encode_package
  then_update peer env takes p (ok u, c) =
      then_final peer env takes (ctrl_update peer (encode_package env.junk p) c)
  then_update peer env takes p (err e, c) = (err e, c)
  then_update peer env takes p (fault, c) = (fault, c)

  -- What `ctrl_register_child`, `ctrl_generic0` and `ctrl_generic1` do with their package.
  unfoldable pub ctrl_call : Peer W → ClientEnv → Bool → Package → Client W → Done × Client W
  unfolding then_update ctrl_init
  ctrl_call peer env takes p c = then_update peer env takes p (ctrl_init env c)

  unfoldable pub ctrl_generic0 : Peer W → ClientEnv → Package → Client W → Done × Client W
  unfolding ctrl_call
  ctrl_generic0 peer env p c = ctrl_call peer env false p c

  -- The Boolean is whether `data` is not NULL.
  unfoldable pub ctrl_generic1 : Peer W → ClientEnv → Package → Bool → Client W → Done × Client W
  unfolding ctrl_call
  ctrl_generic1 peer env p out c = ctrl_call peer env out p c

  unfoldable pub send_register_child : Peer W → ClientEnv → Child → Client W → Done × Client W
  unfolding ctrl_call
  send_register_child peer env child c = ctrl_call peer env false (ctrl_register_child child) c

  unfoldable pub send_register_parent : Peer W → ClientEnv → Text → Client W → Done × Client W
  unfolding ctrl_generic0
  send_register_parent peer env name c = ctrl_generic0 peer env (ctrl_register_parent name) c

  unfoldable pub send_unregister_child : Peer W → ClientEnv → Text → Client W → Done × Client W
  unfolding ctrl_generic0
  send_unregister_child peer env name c = ctrl_generic0 peer env (ctrl_unregister_child name) c

  unfoldable pub send_unregister_parent : Peer W → ClientEnv → Text → Client W → Done × Client W
  unfolding ctrl_generic0
  send_unregister_parent peer env name c = ctrl_generic0 peer env (ctrl_unregister_parent name) c

  unfoldable pub send_dump_db_route : Peer W → ClientEnv → Bool → Client W → Done × Client W
  unfolding ctrl_generic1
  send_dump_db_route peer env db c = ctrl_generic1 peer env ctrl_dump_db_route db c

  unfoldable pub send_dump_db_cache : Peer W → ClientEnv → Bool → Client W → Done × Client W
  unfolding ctrl_generic1
  send_dump_db_cache peer env db c = ctrl_generic1 peer env ctrl_dump_db_cache db c
