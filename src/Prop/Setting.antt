-- ===== src/Prop/Setting.antt =====
-- `command_set` of app/prop/main.c on a text that `value_parse` does not read.
use propd.Prelude.{Text, true, ◌≡◌, refl, ap, List, ◌∷◌, Errno, ok, err, fault, done}
use propd.Storage.{Storage, storage_set}
use propd.Value.Printing.{Floats, ParseEnv, value_parse}
use propd.Prop.{parsed, set_all, is_even, set_made, command_set}

module _ {W : Type 0} where
  set_all_unreadable :
      (fl : Floats) (env : Text → ParseEnv) (storage : Storage W) (w : W) (key text : Text)
      (rest : List Text) (e : Errno)
      → value_parse fl (env text) text ≡ err e
      → (set_all fl env storage w (key ∷ text ∷ rest) done).0 ≡ fault
  unfolding set_all parsed storage_set
  set_all_unreadable fl env storage w key text rest e h = rw (refused, set_all) refl
    where
      refused : storage_set storage w key (parsed (value_parse fl (env text) text)) ≡ (fault, w)
      refused = ap (λ r. storage_set storage w key (parsed r)) h

  -- A value that `value_parse` refuses is the end of `command_set` by the failed assertion of
  -- `storage_set`, which is given NULL, when the storage was made and the arguments are pairs.
  pub command_set_unreadable :
      (fl : Floats) (env : Text → ParseEnv) (storage : Storage W) (w : W) (key text : Text)
      (rest : List Text) (e : Errno)
      → is_even rest ≡ true
      → value_parse fl (env text) text ≡ err e
      → (command_set fl env (ok storage) w (key ∷ text ∷ rest)).0 ≡ fault
  unfolding command_set set_made is_even
  command_set_unreadable fl env storage w key text rest e pairs h =
      rw (pairs, set_all_unreadable fl env storage w key text rest e h) refl
