-- ===== src/Builtin/Tcp.antt =====
-- lib/builtin/tcp.c: a storage that cannot be made yet.
use propd.Prelude.{
  ℕ, ◌%◌, ◌^◌, Text, Bool, true, false, List, [], ◌∷◌, Option, none, some, err, fault, Done, enomem,
  eopnotsupp,
}
use propd.Value.Numerals.{strtoul}

-- The address that the arguments name; a port is cut to 16 bits.
pub record Address : Type 0 where
  pub ip : Text
  pub port : ℕ

-- `constructor_tcp` for the memory of the name and of the private part, with the number of blocks that
-- stay allocated: a caller that is told of an error does not call the destructor.
unfoldable pub constructor_tcp : Bool → Bool → Text → Address → Done × ℕ
constructor_tcp false priv name address = (err enomem, 0)
constructor_tcp true false name address = (err enomem, 1)
constructor_tcp true true name address = (err eopnotsupp, 2)

unfoldable pub port_of : Option (ℕ × Bool) → ℕ
port_of none = 0
port_of (some (n, range)) = n % 2 ^ 16

-- `parse` of the two arguments; fewer are a read past the array.
unfoldable pub parse : Bool → Bool → Text → List Text → Done × ℕ
unfolding constructor_tcp port_of strtoul
parse made priv name [] = (fault, 0)
parse made priv name (ip ∷ []) = (fault, 0)
parse made priv name (ip ∷ port ∷ args) =
    constructor_tcp made priv name (record { ip = ip; port = port_of (strtoul port) })
