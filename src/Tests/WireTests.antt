-- ===== src/Tests/WireTests.antt =====
-- The theorems on packages, on requests between servers, and on what a process takes and gives back.
use propd.Prelude.{
  ℕ, ◌+◌, ◌≡◌, ◌≢◌, ◌⊎◌, refl, sym, Text, codes, true, false, List, [], ◌∷◌, Option, none, some,
  err, fault, Done, length, replicate, length-replicate, arith, eio, enomem, pos,
}
use propd.IoServer.{Message}
use propd.CtrlServer.{
  Child, Package, ctrl_register_child, ctrl_unregister_child, ChildEnv, Self, worker,
}
use propd.CtrlServer.Wire.{
  package_size, package_length, encode_package, receive, decode_package, type_number,
}
use propd.CtrlServer.Wire.Codec.{IsName, IsChild, decode_package-encode_package}
use propd.CtrlServer.Client.{ClientEnv, Peer, Client, ctrl_call}
use propd.CtrlServer.Client.Requests.{serving, result_of, ctrl_call-worker}
use propd.CtrlServer.Client.Sockets.{Stops, ctrl_call_sockets}
use propd.CtrlServer.Loop.{buffer_length}
use propd.Tests.Data.{Cell, cache_tree, lock_tree, server, env}

abbrev kid : Child
kid = record { name = codes "kid"; cache_now = []; prefix = codes "kid.*" ∷ [] }

kid-IsName : IsName (codes "kid")
kid-IsName = record { content = ground arith; fits = omega arith }

kid_prefix-IsName : IsName (codes "kid.*")
kid_prefix-IsName = record { content = ground arith; fits = omega arith }

kid-IsChild : IsChild kid
kid-IsChild = record {
  name_fits = kid-IsName;
  cached = tt;
  prefixed = (kid_prefix-IsName, tt);
  few = omega arith;
}

abbrev junk : List ℕ
junk = replicate 263 7

junk_size : length junk + 1 ≡ package_size
junk_size = omega (arith, length-replicate {A = ℕ} 263 7)

abbrev room : List ℕ
room = replicate 4344 9

buffer_size : length room ≡ buffer_length 16
unfolding buffer_length
buffer_size = omega (arith, length-replicate {A = ℕ} 4344 9)

kid_fits : package_length (ctrl_register_child kid) ≡ 519
unfolding package_length
kid_fits = refl

decode_package-encode_package_example :
    (decode_package (receive room (encode_package junk (ctrl_register_child kid)))
      ≡ some (ctrl_register_child kid))
    × (length (encode_package junk (ctrl_register_child kid))
        ≡ package_length (ctrl_register_child kid))
decode_package-encode_package_example =
    decode_package-encode_package junk room (ctrl_register_child kid) junk_size kid-IsChild
      (omega (arith, kid_fits, length-replicate {A = ℕ} 4344 9))

abbrev silent : Text → Cell → List Message → List Message × Cell
silent name w sent = ([], w)

abbrev nobody : Text → Package → Cell → Option Done × Cell
nobody name p w = (none, w)

abbrev child_env : ChildEnv
child_env = record {
  storage_granted = true;
  connected = true;
  value_granted = true;
  now = pos 1;
  array_granted = true;
  item = some 9;
  update = λ key. env;
}

abbrev self : Self
self = record { name = codes "root"; cache_now = []; prefix = [] }

abbrev leaving : Package
leaving = ctrl_unregister_child (codes "cell")

abbrev client_env : ClientEnv
client_env = record {
  socket = none;
  bind = none;
  granted = true;
  junk = junk;
  freed = 2;
  data_granted = true;
}

leave_number : type_number leaving ≡ 2
unfolding type_number
leave_number = refl

leave_length : package_length leaving ≡ 264
unfolding package_length
leave_length = refl

cell-IsName : IsName (codes "cell")
cell-IsName = record { content = ground arith; fits = omega arith }

ctrl_call-worker_example :
    ctrl_call
      (serving cache_tree lock_tree silent nobody child_env self room)
      client_env
      false
      leaving
      (record { sockets = 3; world = (server, none) })
    ≡ (
      result_of (worker cache_tree lock_tree silent nobody child_env self server leaving).0,
      record {
        sockets = 3;
        world = ((worker cache_tree lock_tree silent nobody child_env self server leaving).1, none);
      },
    )
ctrl_call-worker_example =
    ctrl_call-worker cache_tree lock_tree silent nobody child_env self 16 room client_env false
      leaving 3 server refl refl refl junk_size (sym leave_number) (omega (arith, leave_number))
      cell-IsName buffer_size
      (omega (arith, leave_length, buffer_size, length-replicate {A = ℕ} 4344 9))

-- A server that cannot be reached.
abbrev nowhere : Peer ℕ
nowhere = record {
  send = λ sent w. (false, w);
  recv_result = λ w. (none, w);
  recv_length = λ w. (none, w);
  recv_data = λ n w. (none, w);
  discard = λ w. w;
}

abbrev idle : Client ℕ
idle = record { sockets = 3; world = 0 }

unsent : (ctrl_call nowhere client_env false leaving idle).0 ≡ err eio
unfolding ctrl_call
unsent = refl

no_fault : (ctrl_call nowhere client_env false leaving idle).0 ≢ fault
no_fault e = ground (arith, unsent, e)

ctrl_call_sockets_example :
    (¬ Stops nowhere client_env leaving idle
      × ((ctrl_call nowhere client_env false leaving idle).1.sockets ≡ 3))
    ⊎ (Stops nowhere client_env leaving idle
        × ((ctrl_call nowhere client_env false leaving idle).1.sockets ≡ 4)
        × (((ctrl_call nowhere client_env false leaving idle).0 ≡ err enomem)
            ⊎ ((ctrl_call nowhere client_env false leaving idle).0 ≡ err eio)))
ctrl_call_sockets_example = ctrl_call_sockets nowhere client_env false leaving idle no_fault
