-- ===== src/Route/Lifetime.antt =====
-- References over any interleaving of the table's operations: an item that somebody holds stays in
-- the table, so a storage obtained from `route_match` is never freed under its user.
pub mod Adding
pub mod Lending
pub mod Returning
pub mod Removing
pub mod Safety
use propd.Prelude.{
  ℕ, zero, suc, ◌+◌, ◌-◌, ◌≤◌, ◌<◌, Text, text_eq, ℤ, pos, ◌+ℤ◌, ◌-ℤ◌, int_laws, eq_of_parts, eq_ℤ,
  ◌≡◌, ◌≢◌, refl, ap, sym, ◌∙◌, Bool, true, false, List, [], ◌∷◌, All, Option, none, some, Reply,
  ok, err, Done, arith, ◌==◌, if◌then◌else◌, Bool-cases, inl, inr, Option-cases, length, ==_iff,
}
use propd.Storage.{Storage}
use propd.Route.{
  Item, Handle, name_of, find_name, remove_name, register, unregister, unregister_loop,
  route_unregister, route_match, route_deref, ref, deref, handle_of,
}
use propd.Route.Match.{
  First, here, later, First-All, Outcome, found, missing, route_match-Outcome, DistinctAddrs,
}
use propd.Route.Register.{All-remove_name}

-- How many references to an address are out.
abbrev pub count : ℕ → List ℕ → ℕ
count a [] = 0
count a (b ∷ bs) = if b == a then suc (count a bs) else count a bs

-- One reference fewer.
abbrev pub erase : ℕ → List ℕ → List ℕ
erase a [] = []
erase a (b ∷ bs) = if b == a then bs else b ∷ erase a bs

pub count-erase :
    (a b : ℕ) (bs : List ℕ) → count b (erase a bs) ≡ (if a == b then count b bs - 1 else count b bs)
count-erase a b [] = ground arith
count-erase a b (c ∷ bs) = ground (arith, count-erase a b bs)

module _ {W : Type 0} where
  abbrev pub has_addr : List (Item W) → ℕ → Bool
  has_addr [] a = false
  has_addr (x ∷ xs) a = if x.addr == a then true else has_addr xs a

  abbrev pub Counted : List ℕ → Item W → Type 0
  Counted refs x = x.nref ≡ pos (count x.addr refs)

  -- Every item counts the references to it that are out, and each of these leads to an item.
  pub record IsLive (list : List (Item W)) (refs : List ℕ) : Type 0 where
    pub counted : All (Counted refs) list
    pub distinct : DistinctAddrs list
    pub present : All (λ a. has_addr list a ≡ true) refs

  -- The table with the references that are out. `malloc` returns no address that is in use. Only
  -- a reference that is out is given back.
  pub data Step : List (Item W) × List ℕ → List (Item W) × List ℕ → Type 0 where
    registers :
        (list : List (Item W)) (refs : List ℕ) (s : Storage W) (prefix : List Text) (addr : ℕ)
        → has_addr list addr ≡ false
        → Step (list, refs) ((register list s prefix (some addr)).1, refs)
    unregisters :
        (list : List (Item W)) (refs : List ℕ) (w : W) (name : Option Text)
        → Step (list, refs) ((route_unregister list w name).1, refs)
    matches :
        (list : List (Item W)) (refs : List ℕ) (key : Text) (h : Handle W) (list' : List (Item W))
        → route_match list key ≡ (ok h, list')
        → Step (list, refs) (list', h.addr ∷ refs)
    derefs :
        (list : List (Item W)) (refs : List ℕ) (a : ℕ)
        → 0 < count a refs
        → Step (list, refs) (route_deref list a, erase a refs)

  pub data Reach : List (Item W) × List ℕ → List (Item W) × List ℕ → Type 0 where
    stop : {s : List (Item W) × List ℕ} → Reach s s
    then_step : {s t u : List (Item W) × List ℕ} → Reach s t → Step t u → Reach s u
