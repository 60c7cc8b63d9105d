-- ===== src/Route/Lifetime/Lending.antt =====
-- A match keeps the references right.
use propd.Prelude.{ℕ, Text, ◌+ℤ◌, ◌≡◌, ◌≢◌, refl, ◌∙◌, true, List, [], ◌∷◌, All, Reply, ok, arith}
use propd.Route.{Item, Handle, ref}
use propd.Route.Match.{First, here, later, First-All, Outcome, found, missing, DistinctAddrs}
use propd.Route.Lifetime.{has_addr, Counted, IsLive}

module _ {W : Type 0} where
  -- A reference more to another address leaves the counts alone.
  count_more :
      (list : List (Item W)) (refs : List ℕ) (a : ℕ)
      → All (λ y. y.addr ≢ a) list
      → All (Counted refs) list
      → All (Counted (a ∷ refs)) list
  count_more [] refs a ne c = tt
  count_more (x ∷ xs) refs a ne c = ground (arith, count_more xs refs a ne.1 c.1)

  First-Counted :
      {key : Text} {x : Item W} {xs ys : List (Item W)} (refs : List ℕ)
      → First key x xs ys
      → DistinctAddrs xs
      → All (Counted refs) xs
      → All (Counted (x.addr ∷ refs)) ys
  unfolding ref ◌+ℤ◌
  First-Counted {x} refs (here xs hit) d c = (ground arith, count_more xs refs x.addr d.0 c.1)
  First-Counted refs (later y miss f) d c =
      (ground (arith, First-All (λ z. z.addr ≢ y.addr) f d.0), First-Counted refs f d.1 c.1)

  First-ne :
      {key : Text} {x : Item W} {xs ys : List (Item W)} (a : ℕ)
      → First key x xs ys
      → All (λ z. z.addr ≢ a) xs
      → All (λ z. z.addr ≢ a) ys
  unfolding ref
  First-ne a (here xs hit) h = h
  First-ne a (later y miss f) h = (h.0, First-ne a f h.1)

  First-distinct :
      {key : Text} {x : Item W} {xs ys : List (Item W)}
      → First key x xs ys
      → DistinctAddrs xs
      → DistinctAddrs ys
  unfolding ref
  First-distinct (here xs hit) d = d
  First-distinct (later y miss f) d = (First-ne y.addr f d.0, First-distinct f d.1)

  First-has_addr :
      {key : Text} {x : Item W} {xs ys : List (Item W)} (a : ℕ)
      → First key x xs ys
      → has_addr ys a ≡ has_addr xs a
  unfolding ref
  First-has_addr a (here xs hit) = refl
  First-has_addr a (later y miss f) = rw (First-has_addr a f)

  First-present :
      {key : Text} {x : Item W} {xs ys : List (Item W)}
      → First key x xs ys
      → has_addr ys x.addr ≡ true
  unfolding ref
  First-present {x} (here xs hit) = ground arith
  First-present (later y miss f) = ground (arith, First-present f)

  pub present_map :
      (xs ys : List (Item W)) (refs : List ℕ)
      → ((a : ℕ) → has_addr ys a ≡ has_addr xs a)
      → All (λ a. has_addr xs a ≡ true) refs
      → All (λ a. has_addr ys a ≡ true) refs
  present_map xs ys [] same h = tt
  present_map xs ys (b ∷ bs) same h = (same b ∙ h.0, present_map xs ys bs same h.1)

  First-IsLive :
      {key : Text} {x : Item W} {xs ys : List (Item W)} (refs : List ℕ)
      → First key x xs ys
      → IsLive xs refs
      → IsLive ys (x.addr ∷ refs)
  First-IsLive {xs} {ys} refs f l = record {
    counted = First-Counted refs f l.distinct l.counted;
    distinct = First-distinct f l.distinct;
    present = (First-present f, present_map xs ys refs (λ a. First-has_addr a f) l.present);
  }

  pub match-IsLive :
      {list : List (Item W)} {key : Text} (refs : List ℕ) (h : Handle W) (list' : List (Item W))
      {r : Reply (Handle W) × List (Item W)}
      → Outcome key list r
      → r ≡ (ok h, list')
      → IsLive list refs
      → IsLive list' (h.addr ∷ refs)
  match-IsLive refs h list' (found x ys f) e l = ground (arith, First-IsLive refs f l)
  match-IsLive refs h list' (missing none_fits) e l = cc
