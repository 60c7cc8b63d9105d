-- ===== src/Route/Register.antt =====
-- `__route_register`: names stay unique, and a new item is found by its name.
use propd.Prelude.{
  ℕ, Text, text_eq, ◌≡◌, false, List, [], ◌∷◌, All, Option, none, some, done, arith, if◌then◌else◌,
  is_ok,
}
use propd.Storage.{Storage}
use propd.Route.{Item, name_of, find_name, register, remove_name, unregister, route_item_create}

module _ {W : Type 0} where
  -- No two items have one name.
  abbrev pub UniqueNames : List (Item W) → Type 0
  UniqueNames [] = Unit
  UniqueNames (x ∷ xs) = All (λ y. text_eq (name_of y) (name_of x) ≡ false) xs × UniqueNames xs

  find_name-none :
      (list : List (Item W)) (name : Text)
      → find_name list name ≡ none
      → All (λ y. text_eq (name_of y) name ≡ false) list
  unfolding find_name
  find_name-none [] name h = tt
  find_name-none (x ∷ xs) name h = ground (arith, find_name-none xs name)

  -- Registering keeps the names unique, whether it succeeds or not.
  pub register-UniqueNames :
      (list : List (Item W)) (s : Storage W) (prefix : List Text) (addr : Option ℕ)
      → UniqueNames list
      → UniqueNames (register list s prefix addr).1
  unfolding register
  register-UniqueNames list s prefix none u = ground arith
  register-UniqueNames list s prefix (some a) u = ground (arith, find_name-none list s.name)

  -- After a successful registration the name finds the new item, which has no reference yet, and
  -- every other name finds what it found before; the name was free.
  pub find_name-register :
      (list : List (Item W)) (s : Storage W) (prefix : List Text) (addr : Option ℕ) (j : Text)
      → (register list s prefix addr).0 ≡ done
      → (find_name list s.name ≡ none)
        × (find_name (register list s prefix addr).1 j
            ≡ (if text_eq s.name j then route_item_create addr s prefix else find_name list j))
  unfolding register find_name
  find_name-register list s prefix addr j h = ground arith

  -- A registration that fails leaves the table alone.
  pub register_failed :
      (list : List (Item W)) (s : Storage W) (prefix : List Text) (addr : Option ℕ)
      → is_ok (register list s prefix addr).0 ≡ false
      → (register list s prefix addr).1 ≡ list
  unfolding register
  register_failed list s prefix addr h = ground arith

  pub All-remove_name {κ} :
      (P : Item W → Type κ) (list : List (Item W)) (name : Text)
      → All P list
      → All P (remove_name list name)
  unfolding remove_name
  All-remove_name P [] name h = tt
  All-remove_name P (x ∷ xs) name h = ground (arith, All-remove_name P xs name h.1)

  remove_name-UniqueNames :
      (list : List (Item W)) (name : Text) → UniqueNames list → UniqueNames (remove_name list name)
  unfolding remove_name
  remove_name-UniqueNames [] name u = tt
  remove_name-UniqueNames (x ∷ xs) name u = ground (
    arith,
    remove_name-UniqueNames xs name u.1,
    All-remove_name (λ y. text_eq (name_of y) (name_of x) ≡ false) xs name u.0,
  )

  -- So does unregistering.
  pub unregister-UniqueNames :
      (list : List (Item W)) (w : W) (name : Text)
      → UniqueNames list
      → UniqueNames (unregister list w name).1
  unfolding unregister
  unregister-UniqueNames list w name u = ground (arith, remove_name-UniqueNames list name u)
