-- ===== src/Prop.antt =====
-- app/prop/main.c: the commands that read, write and delete keys through a storage of
-- lib/builtin/unix.c.
pub mod Main
pub mod Setting
use propd.Prelude.{
  Text, ℤ, pos, negsuc, Errno, other, List, [], ◌∷◌, Option, none, some, Reply, ok, err, fault,
  Done, done, Bool, true, false, if◌then◌else◌,
}
use propd.Value.{Value}
use propd.Value.Printing.{Floats, ParseEnv, value_parse}
use propd.Storage.{Storage, storage_get, storage_set, storage_del, storage_destructor}

-- What a command writes: a value, or a key that failed.
pub data Line : Type 0 where
  shows : Value → Line
  fails : Text → Line
  deletes : Text → Line
  sets : Text → Text → Line
  fails_to_set : Text → Text → Line

got : Text → Reply (Value × ℤ) → Done × Line
got key (ok (v, d)) = (done, shows v)
got key (err e) = (err e, fails key)
got key fault = (fault, fails key)

gone : Text → Done → Line
gone key (ok u) = deletes key
gone key (err e) = fails key
gone key fault = fails key

-- The pointer that `value_parse` returns.
unfoldable pub parsed : Reply Value → Option Value
parsed (ok v) = some v
parsed (err e) = none
parsed fault = none

unfoldable pub put : Text → Text → Done → Line
put key text (ok u) = sets key text
put key text (err e) = fails_to_set key text
put key text fault = fails_to_set key text

-- UINT8_MAX, and -1.
abbrev usage : Errno
usage = other (pos 255)

abbrev no_storage : Errno
no_storage = other (negsuc 0)

-- Whether the arguments are pairs.
unfoldable pub is_even : List Text → Bool
is_even [] = true
is_even (key ∷ []) = false
is_even (key ∷ text ∷ rest) = is_even rest

module _ {W : Type 0} where
  -- The loop of `command_get`, with the result so far: the result is that of the last key.
  unfoldable pub get_all : Storage W → W → List Text → Done → Done × List Line × W
  unfolding got
  get_all storage w [] ret = (ret, [], w)
  get_all storage w (key ∷ keys) ret =
      let (r, w') = storage_get storage w key in
      let (now, line) = got key r in
      let (last, lines, w'') = get_all storage w' keys now in (last, line ∷ lines, w'')

  -- `command_get` on the keys of the command line, with the storage that `constructor_unix` makes.
  unfoldable pub command_get : Reply (Storage W) → W → List Text → Done × List Line × W
  unfolding get_all storage_destructor
  command_get made w [] = (err usage, [], w)
  command_get (ok storage) w (key ∷ keys) =
      let (last, lines, w') = get_all storage w (key ∷ keys) done in
      (last, lines, storage_destructor storage w')
  command_get (err e) w (key ∷ keys) = (err no_storage, [], w)
  command_get fault w (key ∷ keys) = (fault, [], w)

  -- The loop of `command_del`.
  unfoldable pub del_all : Storage W → W → List Text → Done → Done × List Line × W
  unfolding gone
  del_all storage w [] ret = (ret, [], w)
  del_all storage w (key ∷ keys) ret =
      let (r, w') = storage_del storage w key in
      let (last, lines, w'') = del_all storage w' keys r in (last, gone key r ∷ lines, w'')

  -- `command_del` on the keys of the command line, with the storage that `constructor_unix` makes.
  unfoldable pub command_del : Reply (Storage W) → W → List Text → Done × List Line × W
  unfolding del_all storage_destructor
  command_del made w [] = (err usage, [], w)
  command_del (ok storage) w (key ∷ keys) =
      let (last, lines, w') = del_all storage w (key ∷ keys) done in
      (last, lines, storage_destructor storage w')
  command_del (err e) w (key ∷ keys) = (err no_storage, [], w)
  command_del fault w (key ∷ keys) = (fault, [], w)

  -- The loop of `command_set` over the keys and the texts of their values; `env` is what each
  -- `value_parse` meets. A failed assertion ends it.
  unfoldable pub set_all :
      Floats → (Text → ParseEnv) → Storage W → W → List Text → Done → Done × List Line × W
  unfolding put parsed value_parse
  set_all fl env storage w [] ret = (ret, [], w)
  set_all fl env storage w (key ∷ []) ret = (fault, [], w)
  set_all fl env storage w (key ∷ text ∷ rest) ret =
      let (r, w') = storage_set storage w key (parsed (value_parse fl (env text) text)) in
      elim r [
        | fault ↦ (fault, [], w')
        | ok u ↦
            let (last, lines, w'') = set_all fl env storage w' rest (ok u) in
            (last, put key text (ok u) ∷ lines, w'')
        | err e ↦
            let (last, lines, w'') = set_all fl env storage w' rest (err e) in
            (last, put key text (err e) ∷ lines, w'')
      ]

  unfoldable pub set_made :
      Floats → (Text → ParseEnv) → Reply (Storage W) → W → List Text → Done × List Line × W
  unfolding set_all storage_destructor
  set_made fl env (ok storage) w args =
      let (last, lines, w') = set_all fl env storage w args done in
      (last, lines, storage_destructor storage w')
  set_made fl env (err e) w args = (err no_storage, [], w)
  set_made fl env fault w args = (fault, [], w)

  -- `command_set` on the arguments after its name, which have to be pairs and at least one.
  unfoldable pub command_set :
      Floats → (Text → ParseEnv) → Reply (Storage W) → W → List Text → Done × List Line × W
  unfolding set_made is_even
  command_set fl env made w [] = (err usage, [], w)
  command_set fl env made w (key ∷ args) =
      if is_even (key ∷ args) then set_made fl env made w (key ∷ args) else (err usage, [], w)
