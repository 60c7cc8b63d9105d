-- ===== src/CtrlServer/Client/Sockets.antt =====
-- The sockets that a request of lib/ctrl_client.c leaves open.
use propd.Prelude.{
  ◌+◌, ◌-◌, ◌≡◌, ◌∙◌, ◌≢◌, ◌⊎◌, refl, Bool, true, false, none, err, fault, enomem, eio, arith,
  Option-cases, Bool-cases, inl, inr,
}
use propd.CtrlServer.{Package}
use propd.CtrlServer.Wire.{encode_package}
use propd.CtrlServer.Client.{
  ClientEnv, Peer, Client, opened, closed, ctrl_init, ctrl_update, recv_result, recv_dump,
  ctrl_final0, then_final, then_update, ctrl_call,
}

module _ {W : Type 0} (peer : Peer W) (env : ClientEnv) where
  recv_result_sockets : (c : Client W) → (recv_result peer c).1.sockets ≡ c.sockets - 1
  unfolding recv_result closed
  recv_result_sockets c = refl

  -- A call of `ctrl_final0` that returns has closed the socket.
  ctrl_final0_sockets :
      (takes : Bool) (c : Client W)
      → (ctrl_final0 peer env takes c).0 ≢ fault
      → (ctrl_final0 peer env takes c).1.sockets ≡ c.sockets - 1
  unfolding ctrl_final0 recv_dump recv_result closed
  ctrl_final0_sockets takes c returned = ground arith

  -- Whether the request ends before `ctrl_final0` with the socket open: there is no memory for the
  -- package, or it is not sent.
  abbrev pub Stops : Package → Client W → Type 0
  Stops p c =
      (env.socket ≡ none)
      × (env.bind ≡ none)
      × ((env.granted ≡ false) ⊎ ((peer.send (encode_package env.junk p) c.world).0 ≡ false))

  -- The call when everything before `ctrl_final0` succeeds.
  after_sent :
      (takes : Bool) (p : Package) (c : Client W)
      → env.socket ≡ none
      → env.bind ≡ none
      → env.granted ≡ true
      → (peer.send (encode_package env.junk p) c.world).0 ≡ true
      → (ctrl_call peer env takes p c).0 ≢ fault
      → (¬ Stops p c × ((ctrl_call peer env takes p c).1.sockets ≡ c.sockets))
        ⊎ (Stops p c
            × ((ctrl_call peer env takes p c).1.sockets ≡ c.sockets + 1)
            × (((ctrl_call peer env takes p c).0 ≡ err enomem)
                ⊎ ((ctrl_call peer env takes p c).0 ≡ err eio)))
  unfolding ctrl_call then_update then_final ctrl_init ctrl_update opened
  after_sent takes p c made bound granted sent returned =
      inl (goes_on, rw run (ctrl_final0_sockets takes c' (rw run at returned) ∙ omega arith))
    where
      goes_on : ¬ Stops p c
      goes_on (a, b, inl refused) = ground (arith, granted, refused)
      goes_on (a, b, inr unsent) = ground (arith, sent, unsent)

      c' : Client W
      c' = record {
        sockets = c.sockets + 1;
        world = (peer.send (encode_package env.junk p) c.world).1;
      }

      run : ctrl_call peer env takes p c ≡ ctrl_final0 peer env takes c'
      run = rw (made, bound, granted, sent) refl

  -- A request that returns has closed its socket, except where there is no memory for the package
  -- or the datagram is not sent: then the socket stays open, and the result is ENOMEM or EIO.
  pub ctrl_call_sockets :
      (takes : Bool) (p : Package) (c : Client W)
      → (ctrl_call peer env takes p c).0 ≢ fault
      → (¬ Stops p c × ((ctrl_call peer env takes p c).1.sockets ≡ c.sockets))
        ⊎ (Stops p c
            × ((ctrl_call peer env takes p c).1.sockets ≡ c.sockets + 1)
            × (((ctrl_call peer env takes p c).0 ≡ err enomem)
                ⊎ ((ctrl_call peer env takes p c).0 ≡ err eio)))
  unfolding ctrl_call then_update then_final ctrl_init ctrl_update opened closed
  ctrl_call_sockets takes p c returned = elim (Option-cases env.socket) [
    | inr (e, failed) ↦ inl (λ s. ground (arith, failed, s.0), ground arith)
    | inl made ↦ elim (Option-cases env.bind) [
      | inr (e, failed) ↦ inl (λ s. ground (arith, failed, s.1), ground arith)
      | inl bound ↦ elim (Bool-cases env.granted) [
        | inr refused ↦ ground arith
        | inl granted ↦ elim (Bool-cases (peer.send (encode_package env.junk p) c.world).0) [
          | inr unsent ↦ ground arith
          | inl sent ↦ after_sent takes p c made bound granted sent returned
        ]
      ]
    ]
  ]
