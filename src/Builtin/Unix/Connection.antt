-- ===== src/Builtin/Unix/Connection.antt =====
-- lib/builtin/unix.c: the sockets and the lock of a storage, shared or not, on each path, and its
-- argument on the command line.
use propd.Prelude.{
  ℕ, ◌+◌, ◌-◌, ◌≡◌, Text, codes, text_eq, Bool, true, false, not, [], ◌∷◌, Option, none, some,
  Reply, ok, err, fault, Done, done, Errno, einval, enxio, enomem, if◌then◌else◌, is_ok, arith,
}

-- The errors of `socket` and `bind`, and whether the server can be reached.
pub record ConnectEnv : Type 0 where
  pub socket : Option Errno
  pub bind : Option Errno
  pub reached : Bool

-- The sockets that are open, the blocks of memory, and whether the mutex of a shared connection is
-- locked.
pub record Link : Type 0 where
  pub sockets : ℕ
  pub blocks : ℕ
  pub locked : Bool

unfoldable pub opened : Link → Link
opened l = record l { sockets = l.sockets + 1 }

unfoldable pub io_disconnect : Link → Link
io_disconnect l = record l { sockets = l.sockets - 1 }

unfoldable pub io_connect : ConnectEnv → Link → Done × Link
unfolding opened io_disconnect
io_connect env l = elim env.socket [
  | some e ↦ (err e, l)
  | none ↦ elim env.bind [
    | some e ↦ (err e, io_disconnect (opened l))
    | none ↦ if env.reached then (done, opened l) else (err enxio, io_disconnect (opened l))
  ]
]

-- The end of `get`, `set` and `del`, on the way out by `exit` and on the other.
unfoldable pub release : Bool → Link → Link
unfolding io_disconnect
release shared l = if shared then record l { locked = false } else io_disconnect l

module _ {A : Type 0} where
  unfoldable pub exchanged : Reply A → Done × Link → Reply A × Link
  unfolding release
  exchanged answer (ok u, l) = (answer, release false l)
  exchanged answer (err e, l) = (err e, l)
  exchanged answer (fault, l) = (fault, l)

  -- A request, for the answer that comes over the connection; `none` while another thread has the
  -- shared one.
  unfoldable pub request : Bool → ConnectEnv → Reply A → Link → Option (Reply A × Link)
  unfolding release exchanged io_connect
  request true env answer l =
      if l.locked then none else some (answer, release true (record l { locked = true }))
  request false env answer l = some (exchanged answer (io_connect env l))

-- The memory of `constructor_unix`: the name, the private part and the name of the server.
pub record MakeEnv : Type 0 where
  pub name_granted : Bool
  pub priv_granted : Bool
  pub target_granted : Bool

unfoldable pub take_blocks : ℕ → Link → Link
take_blocks n l = record l { blocks = l.blocks + n }

unfoldable pub give_blocks : ℕ → Link → Link
give_blocks n l = record l { blocks = l.blocks - n }

unfoldable pub after_connect : Done × Link → Done × Link
unfolding give_blocks
after_connect (ok u, l) = (done, l)
after_connect (err e, l) = (err e, give_blocks 2 l)
after_connect (fault, l) = (fault, l)

-- `constructor_unix` with what it takes from the system.
unfoldable pub construct : MakeEnv → ConnectEnv → Bool → Link → Done × Link
unfolding after_connect io_connect take_blocks give_blocks
construct env connect shared l =
    if not env.name_granted
    then (err enomem, l)
    else if not env.priv_granted
    then (err enomem, give_blocks 1 (take_blocks 1 l))
    else if shared
    then after_connect (io_connect connect (take_blocks 2 l))
    else if env.target_granted
    then (done, take_blocks 3 l)
    else (err enomem, give_blocks 2 (take_blocks 2 l))

-- `storage_destructor`: the private part's, and the name.
unfoldable pub destroy : Bool → Link → Link
unfolding io_disconnect give_blocks
destroy shared l = if shared then give_blocks 2 (io_disconnect l) else give_blocks 3 l

-- `parse` of the argument: whether the connection is shared.
unfoldable pub parse_type : Text → Reply Bool
unfolding text_eq
parse_type [] = ok false
parse_type (c ∷ s) =
    if text_eq (c ∷ s) (codes "temp")
    then ok false
    else if text_eq (c ∷ s) (codes "long")
    then ok true
    else err einval

unfoldable pub construct_parsed : MakeEnv → ConnectEnv → Reply Bool → Link → Done × Link
unfolding construct
construct_parsed env connect (ok shared) l = construct env connect shared l
construct_parsed env connect (err e) l = (err e, l)
construct_parsed env connect fault l = (fault, l)

unfoldable pub parse : MakeEnv → ConnectEnv → Text → Link → Done × Link
unfolding construct_parsed parse_type
parse env connect type_s l = construct_parsed env connect (parse_type type_s) l

-- A request that does not wait leaves the sockets, the memory and the lock as they were, whatever the
-- system and the server answer, if the shared lock was free.
pub request-Link :
    {A : Type 0} (shared : Bool) (env : ConnectEnv) (answer : Reply A) (l : Link)
    → l.locked ≡ false
    → (r : Reply A) × (request shared env answer l ≡ some (r, l))
unfolding request exchanged io_connect release opened io_disconnect
request-Link true env answer l free = (answer, ground arith)
request-Link false env answer l free = ((exchanged answer (io_connect env l)).0, ground arith)

-- A storage that is made and destroyed gives back what it took, and one that cannot be made takes
-- nothing; shared or not.
pub destroy-construct :
    (env : MakeEnv) (connect : ConnectEnv) (shared : Bool) (l : Link)
    → (if is_ok (construct env connect shared l).0
        then destroy shared (construct env connect shared l).1
        else (construct env connect shared l).1)
      ≡ l
unfolding construct after_connect io_connect take_blocks give_blocks destroy opened io_disconnect
destroy-construct env connect shared l = ground arith
