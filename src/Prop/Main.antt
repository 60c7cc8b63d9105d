-- ===== src/Prop/Main.antt =====
-- app/prop/main.c: `command_ctrl`, the options and the choice of the command.
use propd.Prelude.{
  Text, codes, text_eq, false, List, [], ◌∷◌, Reply, err, Done, done, if◌then◌else◌, pos, other,
  ◌⊎◌, inl, inr,
}
use propd.Storage.{Storage}
use propd.Value.Printing.{Floats, ParseEnv}
use propd.CtrlServer.Client.{
  ClientEnv, Peer, Client, send_register_child, send_register_parent, send_unregister_child,
  send_unregister_parent, send_dump_db_route, send_dump_db_cache,
}
use propd.Prop.{Line, usage, command_get, command_set, command_del}

-- An option that `getopt` finds.
pub data Opt : Type 0 where
  option_t option_n : Text → Opt
  option_h option_unknown : Opt

-- `g_server` and `g_at`.
pub record Options : Type 0 where
  pub server : Text
  pub at : Text

abbrev pub default_options : Options
default_options = record { server = codes "root"; at = codes "/tmp" }

-- The loop over the options: the help ends the program with 0 and an unknown option with 1.
unfoldable pub read_options : Options → List Opt → Done ⊎ Options
read_options o [] = inr o
read_options o (option_t server ∷ opts) = read_options (record o { server = server }) opts
read_options o (option_n at ∷ opts) = read_options (record o { at = at }) opts
read_options o (option_h ∷ opts) = inl done
read_options o (option_unknown ∷ opts) = inl (err (other (pos 1)))

module _ {W : Type 0} where
  -- `command_ctrl` on the arguments after its name; a dump passes NULL for the data.
  register_args : Peer W → ClientEnv → Client W → List Text → Done × Client W
  unfolding send_register_child
  register_args peer env c [] = (err usage, c)
  register_args peer env c (name ∷ []) = (err usage, c)
  register_args peer env c (name ∷ p ∷ ps) =
      send_register_child peer env (record { name = name; cache_now = []; prefix = p ∷ ps }) c

  name_arg : (Text → Client W → Done × Client W) → Client W → List Text → Done × Client W
  name_arg call c [] = (err usage, c)
  name_arg call c (name ∷ args) = call name c

  unfoldable pub command_ctrl : Peer W → ClientEnv → Client W → List Text → Done × Client W
  unfolding register_args name_arg send_register_parent send_unregister_child send_unregister_parent
      send_dump_db_route send_dump_db_cache text_eq
  command_ctrl peer env c [] = (err usage, c)
  command_ctrl peer env c (what ∷ args) =
      if text_eq what (codes "register_child")
      then register_args peer env c args
      else if text_eq what (codes "register_parent")
      then name_arg (send_register_parent peer env) c args
      else if text_eq what (codes "unregister_child")
      then name_arg (send_unregister_child peer env) c args
      else if text_eq what (codes "unregister_parent")
      then name_arg (send_unregister_parent peer env) c args
      else if text_eq what (codes "dump_db_route")
      then send_dump_db_route peer env false c
      else if text_eq what (codes "dump_db_cache")
      then send_dump_db_cache peer env false c
      else (err usage, c)

  -- A command on the world of a storage, in the program's own state.
  in_client : Client W → Done × List Line × W → Done × List Line × Client W
  in_client c (ret, lines, w) = (ret, lines, record c { world = w })

  without_lines : Done × Client W → Done × List Line × Client W
  without_lines (ret, c) = (ret, [], c)

  -- The choice of the command, with the server that the options name.
  run_command :
      Floats
      → (Text → ParseEnv)
      → Peer W
      → ClientEnv
      → Reply (Storage W)
      → Client W
      → List Text
      → Done × List Line × Client W
  unfolding command_ctrl command_get command_set command_del in_client without_lines text_eq
  run_command fl parse peer env made c [] = (err usage, [], c)
  run_command fl parse peer env made c (what ∷ args) =
      if text_eq what (codes "ctrl")
      then without_lines (command_ctrl peer env c args)
      else if text_eq what (codes "get")
      then in_client c (command_get made c.world args)
      else if text_eq what (codes "set")
      then in_client c (command_set fl parse made c.world args)
      else if text_eq what (codes "del")
      then in_client c (command_del made c.world args)
      else (err usage, [], c)

  after_options :
      Floats
      → (Text → ParseEnv)
      → (Options → Peer W)
      → ClientEnv
      → (Options → Reply (Storage W))
      → Client W
      → List Text
      → Done ⊎ Options
      → Done × List Line × Client W
  unfolding run_command
  after_options fl parse peer env made c args (inl ret) = (ret, [], c)
  after_options fl parse peer env made c args (inr o) =
      run_command fl parse (peer o) env (made o) c args

  -- `main`: the servers of a path and a name are a parameter, for the requests and for the storage
  -- that `constructor_unix` makes.
  unfoldable pub main :
      Floats
      → (Text → ParseEnv)
      → (Options → Peer W)
      → ClientEnv
      → (Options → Reply (Storage W))
      → Client W
      → List Opt
      → List Text
      → Done × List Line × Client W
  unfolding after_options read_options
  main fl parse peer env made c opts args =
      after_options fl parse peer env made c args (read_options default_options opts)
