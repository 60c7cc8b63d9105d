-- ===== src/Route/Match.antt =====
-- `route_match` and `route_deref`: the first item in list order that has a matching prefix.
use propd.Prelude.{
  Text, pos, ◌+ℤ◌, ◌-ℤ◌, int_laws, ◌≡◌, ◌≢◌, Bool, true, false, if◌then◌else◌, List, [], ◌∷◌, All,
  Reply, ok, err, enoent, arith, Bool-cases, inl, inr,
}
use propd.Misc.Prefix.{prefix_match, Matches, prefix_match-Matches}
use propd.Route.{Item, Handle, ref, deref, any_prefix, route_match, route_deref}

-- One of the prefixes, as a pattern, matches the key.
pub data Hits (key : Text) : List Text → Type 0 where
  first : {p : Text} (ps : List Text) → Matches p key → Hits key (p ∷ ps)
  further : (p : Text) {ps : List Text} → Hits key ps → Hits key (p ∷ ps)

Hits-any_prefix : (key : Text) (ps : List Text) → any_prefix ps key ≡ true → Hits key ps
unfolding any_prefix
Hits-any_prefix key [] e = cc
Hits-any_prefix key (p ∷ ps) e = elim (Bool-cases (prefix_match p key)) [
  | inl hit ↦ first ps ((prefix_match-Matches p key).0 hit)
  | inr miss ↦ further p (Hits-any_prefix key ps (ground (arith, e, miss)))
]

not-Hits-any_prefix : (key : Text) (ps : List Text) → any_prefix ps key ≡ false → ¬ Hits key ps
unfolding any_prefix
not-Hits-any_prefix key [] e h = elim h [ ]
not-Hits-any_prefix key (p ∷ ps) e (first _ m) = ground (arith, e, (prefix_match-Matches p key).1 m)
not-Hits-any_prefix key (p ∷ ps) e (further _ h) =
    not-Hits-any_prefix key ps (rest_false p ps (prefix_match p key) e) h
  where
    rest_false :
        (p : Text) (ps : List Text) (b : Bool)
        → (if b then true else any_prefix ps key) ≡ false
        → any_prefix ps key ≡ false
    rest_false p ps true e = cc
    rest_false p ps false e = e

module _ {W : Type 0} where
  -- `x` is the first item of the list with a prefix that matches the key; the other list counts one
  -- reference more on it.
  pub data First (key : Text) (x : Item W) : List (Item W) → List (Item W) → Type 0 where
    here :
        (xs : List (Item W))
        → Hits key x.prefix
        → First key x (x ∷ xs) (record x { nref = x.nref +ℤ pos 1 } ∷ xs)
    later :
        (y : Item W) {xs ys : List (Item W)}
        → ¬ Hits key y.prefix
        → First key x xs ys
        → First key x (y ∷ xs) (y ∷ ys)

  abbrev pub NoMatch : Text → List (Item W) → Type 0
  NoMatch key = All (λ x. ¬ Hits key x.prefix)

  -- The outcome of a search: either the first match, counted once more, or a clean refusal.
  pub data Outcome (key : Text) (list : List (Item W))
      : Reply (Handle W) × List (Item W) → Type 0 where
    found :
        (x : Item W) (list' : List (Item W))
        → First key x list list'
        → Outcome key list (ok (record { addr = x.addr; storage = x.storage }), list')
    missing : NoMatch key list → Outcome key list (err enoent, list)

  step_over :
      (key : Text) (y : Item W) (xs : List (Item W)) {r : Reply (Handle W) × List (Item W)}
      → ¬ Hits key y.prefix
      → Outcome key xs r
      → Outcome key (y ∷ xs) (r.0, y ∷ r.1)
  step_over key y xs miss (found x list' f) = found x (y ∷ list') (later y miss f)
  step_over key y xs miss (missing h) = missing (miss, h)

  -- `route_match` returns the first item in list order with a matching prefix, with one reference
  -- more on that item and on no other; it fails with ENOENT, and changes nothing, exactly when no
  -- item matches.
  pub route_match-Outcome :
      (list : List (Item W)) (key : Text) → Outcome key list (route_match list key)
  unfolding route_match ref
  route_match-Outcome [] key = missing tt
  route_match-Outcome (x ∷ xs) key = elim (Bool-cases (any_prefix x.prefix key)) [
    | inl yes_it ↦ rw yes_it (found x _ (here xs (Hits-any_prefix key x.prefix yes_it)))
    | inr not_it ↦
        rw not_it (
          step_over key x xs (not-Hits-any_prefix key x.prefix not_it) (route_match-Outcome xs key))
  ]

  deref-ref : (x : Item W) → deref (ref x) ≡ x
  unfolding deref ref
  deref-ref x = λ i. record x { nref = add_sub i }
    where
      add_sub : x.nref +ℤ pos 1 -ℤ pos 1 ≡ x.nref
      add_sub = omega int_laws

  -- No two items stand at one address.
  abbrev pub DistinctAddrs : List (Item W) → Type 0
  DistinctAddrs [] = Unit
  DistinctAddrs (x ∷ xs) = All (λ y. y.addr ≢ x.addr) xs × DistinctAddrs xs

  pub First-All {κ} :
      (P : Item W → Type κ) {key : Text} {x : Item W} {xs ys : List (Item W)}
      → First key x xs ys
      → All P xs
      → P x
  First-All P (here xs hit) h = h.0
  First-All P (later y miss f) h = First-All P f h.1

  deref_First :
      {key : Text} {x : Item W} {xs ys : List (Item W)}
      → First key x xs ys
      → DistinctAddrs xs
      → route_deref ys x.addr ≡ xs
  unfolding route_deref ref
  deref_First {x} (here xs hit) d = ground (arith, deref-ref x)
  deref_First {x} (later y miss f) d =
      ground (arith, First-All (λ z. z.addr ≢ y.addr) f d.0, deref_First f d.1)

  -- `route_deref` with the storage that `route_match` gave undoes its count: the table is what it
  -- was before the match, if no two items share an address.
  pub route_deref-route_match :
      (list : List (Item W)) (key : Text) (h : Handle W) (list' : List (Item W))
      → DistinctAddrs list
      → route_match list key ≡ (ok h, list')
      → route_deref list' h.addr ≡ list
  route_deref-route_match list key h list' d e = undo (route_match-Outcome list key) e
    where
      undo :
          {r : Reply (Handle W) × List (Item W)}
          → Outcome key list r
          → r ≡ (ok h, list')
          → route_deref list' h.addr ≡ list
      undo (found x ys f) q = ground (arith, deref_First f d)
      undo (missing none_fits) q = cc
