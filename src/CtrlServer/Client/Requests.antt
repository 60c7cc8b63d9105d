-- ===== src/CtrlServer/Client/Requests.antt =====
-- A request of lib/ctrl_client.c to a server of lib/ctrl_server.c.
use propd.Prelude.{
  ℕ, ◌+◌, ◌-◌, ◌≤◌, ◌<◌, ◌≡◌, refl, ap, ◌∙◌, Text, Bool, true, false, ◌||◌, List, Option, none,
  some, err, Done, eio, length, arith, ◌==◌,
}
use propd.Infra.Tree.{TreeOps}
use propd.Infra.NamedMutex.{Nmtx}
use propd.Cache.{CacheItem}
use propd.Io.{State}
use propd.IoServer.{Message}
use propd.CtrlServer.{ChildEnv, Self, Package, worker}
use propd.CtrlServer.Wire.{
  package_size, package_length, encode_package, receive, decode_package, type_number,
}
use propd.CtrlServer.Wire.Codec.{Sendable, decode_package-encode_package}
use propd.CtrlServer.Client.{
  ClientEnv, Peer, Client, opened, closed, ctrl_init, ctrl_update, recv_result, ctrl_final0,
  then_final, then_update, ctrl_call,
}
use propd.CtrlServer.Loop.{worker_bytes, buffer_length}

-- The result that the client gives to its caller.
abbrev pub result_of : Option Done → Done
result_of none = err eio
result_of (some ret) = ret

abbrev nothing_sent : Option Done
nothing_sent = none

back : (n : ℕ) → n + 1 - 1 ≡ n
back n = omega arith

no_dump : (n : ℕ) → n < 4 → (n == 4 || n == 5) ≡ false
no_dump n h = ground arith

ends : {W : Type 0} → Option Done → ℕ → W → Done × Client W
ends r sockets w = (result_of r, record { sockets = sockets; world = w })

-- A request whose datagram is sent, by what the server does with it.
ctrl_call_sent :
    {W : Type 0} (peer : Peer W) (e : ClientEnv) (takes : Bool) (p : Package) (sockets : ℕ) (w : W)
    → e.socket ≡ none
    → e.bind ≡ none
    → e.granted ≡ true
    → e.freed < 4
    → (peer.send (encode_package e.junk p) w).0 ≡ true
    → ctrl_call peer e takes p (record { sockets = sockets; world = w })
      ≡ ends
          (peer.recv_result (peer.send (encode_package e.junk p) w).1).0
          sockets
          (peer.recv_result (peer.send (encode_package e.junk p) w).1).1
unfolding ctrl_call then_update then_final ctrl_init ctrl_update ctrl_final0 recv_result opened
    closed ends
ctrl_call_sent peer e takes p sockets w made bound granted small sent =
    rw (made, bound, granted, sent, no_dump e.freed small) (ground (arith, back sockets))

module _ {W : Type 0} (C : TreeOps CacheItem) (N : TreeOps Nmtx) where
  -- The server with the result that it has sent and nobody has read. It sends one datagram for a
  -- request, so that there is no length and no data to receive.
  unfoldable pub serving :
      (Text → W → List Message → List Message × W)
      → (Text → Package → W → Option Done × W)
      → ChildEnv
      → Self
      → List ℕ
      → Peer (State W C N × Option Done)
  unfolding receive worker_bytes
  serving exchange deliver env self buffer = record {
    send = λ datagram w.
        let (r, s) = worker_bytes C N exchange deliver env self w.0 (receive buffer datagram) in
        (true, (s, r));
    recv_result = λ w. (w.1, (w.0, none));
    recv_length = λ w. (none, w);
    recv_data = λ n w. (none, w);
    discard = λ w. w;
  }

  worker_bytes_lem :
      (exchange : Text → W → List Message → List Message × W)
      (deliver : Text → Package → W → Option Done × W) (env : ChildEnv) (self : Self)
      (s : State W C N) (bytes : List ℕ) (p : Package)
      → decode_package bytes ≡ some p
      → worker_bytes C N exchange deliver env self s bytes
        ≡ worker C N exchange deliver env self s p
  unfolding worker_bytes
  worker_bytes_lem exchange deliver env self s bytes p e = rw (e, worker_bytes) refl

  -- Where the client's calls succeed and the freed package still holds its type, a request other than
  -- a dump, whose names fit and are so few that its length does not wrap at 2^32, and which the server's
  -- buffer for `num_prefix_max` names, a `uint32_t` product too, holds whole,
  -- gives the caller the result of the server's `worker` on that very request, EIO where it sends
  -- none; it changes the server's state as `worker` does and leaves no socket open.
  pub ctrl_call-worker :
      (exchange : Text → W → List Message → List Message × W)
      (deliver : Text → Package → W → Option Done × W) (env : ChildEnv) (self : Self)
      (num_prefix_max : ℕ) (buffer : List ℕ) (e : ClientEnv) (takes : Bool) (p : Package)
      (sockets : ℕ) (s : State W C N)
      → e.socket ≡ none
      → e.bind ≡ none
      → e.granted ≡ true
      → length e.junk + 1 ≡ package_size
      → e.freed ≡ type_number p
      → type_number p < 4
      → Sendable p
      → length buffer ≡ buffer_length num_prefix_max
      → package_length p ≤ buffer_length num_prefix_max
      → ctrl_call
          (serving exchange deliver env self buffer)
          e
          takes
          p
          (record { sockets = sockets; world = (s, none) })
        ≡ (
          result_of (worker C N exchange deliver env self s p).0,
          record {
            sockets = sockets;
            world = ((worker C N exchange deliver env self s p).1, none);
          },
        )
  unfolding serving ends
  ctrl_call-worker exchange deliver env self max buffer e takes p sockets s made bound granted junk
        freed asks sendable held fits =
      ctrl_call_sent (serving exchange deliver env self buffer) e takes p sockets (s, none) made
        bound granted (omega arith) refl
      ∙ ap (λ (r : Option Done × State W C N). ends r.0 sockets (r.1, nothing_sent)) served
    where
      served :
          worker_bytes C N exchange deliver env self s (receive buffer (encode_package e.junk p))
          ≡ worker C N exchange deliver env self s p
      served =
          worker_bytes_lem exchange deliver env self s (receive buffer (encode_package e.junk p)) p
            ((decode_package-encode_package e.junk buffer p junk sendable (rw held fits)).0)
