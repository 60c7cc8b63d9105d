-- ===== src/Route/Lifetime/Returning.antt =====
-- Giving a reference back keeps the references right.
use propd.Prelude.{ℕ, ◌<◌, ◌-ℤ◌, ◌≡◌, ◌≢◌, refl, true, List, [], ◌∷◌, All, arith}
use propd.Route.{Item, route_deref}
use propd.Route.Match.{DistinctAddrs}
use propd.Route.Lifetime.Lending.{present_map}
use propd.Route.Lifetime.{count, erase, count-erase, has_addr, Counted, IsLive}

module _ {W : Type 0} where
  deref-ne :
      (a b : ℕ) (list : List (Item W))
      → All (λ z. z.addr ≢ b) list
      → All (λ z. z.addr ≢ b) (route_deref list a)
  unfolding route_deref
  deref-ne a b [] h = tt
  deref-ne a b (x ∷ xs) h = ground (arith, deref-ne a b xs h.1)

  deref-distinct :
      (a : ℕ) (list : List (Item W)) → DistinctAddrs list → DistinctAddrs (route_deref list a)
  unfolding route_deref
  deref-distinct a [] d = tt
  deref-distinct a (x ∷ xs) d = ground (arith, deref-ne a x.addr xs d.0, deref-distinct a xs d.1)

  deref-has_addr :
      (a b : ℕ) (list : List (Item W)) → has_addr (route_deref list a) b ≡ has_addr list b
  unfolding route_deref
  deref-has_addr a b [] = refl
  deref-has_addr a b (x ∷ xs) = ground (arith, deref-has_addr a b xs)

  count_less :
      (list : List (Item W)) (refs : List ℕ) (a : ℕ)
      → All (λ y. y.addr ≢ a) list
      → All (Counted refs) list
      → All (Counted (erase a refs)) list
  count_less [] refs a ne c = tt
  count_less (x ∷ xs) refs a ne c =
      ground (arith, count-erase a x.addr refs, count_less xs refs a ne.1 c.1)

  ne_at :
      (a b : ℕ) (list : List (Item W))
      → a ≡ b
      → All (λ z. z.addr ≢ a) list
      → All (λ z. z.addr ≢ b) list
  ne_at a b list e h = rw e at h

  deref-Counted :
      (a : ℕ) (list : List (Item W)) (refs : List ℕ)
      → 0 < count a refs
      → DistinctAddrs list
      → All (Counted refs) list
      → All (Counted (erase a refs)) (route_deref list a)
  unfolding route_deref ◌-ℤ◌
  deref-Counted a [] refs out d c = tt
  deref-Counted a (x ∷ xs) refs out d c = ground (
    arith,
    count-erase a x.addr refs,
    count_less xs refs x.addr d.0 c.1,
    deref-Counted a xs refs out d.1 c.1,
  )

  erase-present :
      (list : List (Item W)) (a : ℕ) (refs : List ℕ)
      → All (λ b. has_addr list b ≡ true) refs
      → All (λ b. has_addr list b ≡ true) (erase a refs)
  erase-present list a [] h = tt
  erase-present list a (b ∷ bs) h = ground (arith, erase-present list a bs h.1)

  pub deref-IsLive :
      (list : List (Item W)) (refs : List ℕ) (a : ℕ)
      → 0 < count a refs
      → IsLive list refs
      → IsLive (route_deref list a) (erase a refs)
  deref-IsLive list refs a out l = record {
    counted = deref-Counted a list refs out l.distinct l.counted;
    distinct = deref-distinct a list l.distinct;
    present =
        present_map list (route_deref list a) (erase a refs) (λ b. deref-has_addr a b list)
          (erase-present list a refs l.present);
  }
