-- ===== src/Route/Lifetime/Removing.antt =====
-- Unregistering keeps the references right: an item that goes has none.
use propd.Prelude.{
  ℕ, Text, pos, eq_ℤ, ◌≡◌, ◌≢◌, true, List, [], ◌∷◌, All, Option, none, some, arith, Bool-cases,
  inl, inr, Option-cases,
}
use propd.Route.{
  Item, name_of, find_name, remove_name, unregister, route_unregister, route_item_destroy,
}
use propd.Route.Match.{DistinctAddrs}
use propd.Route.Register.{All-remove_name}
use propd.Route.Unregister.{drop_idle, unregister_first, route_unregister-all}
use propd.Route.Lifetime.{count, has_addr, Counted, IsLive}

module _ {W : Type 0} where
  remove_name-has_addr :
      (list : List (Item W)) (name : Text) (x : Item W) (a : ℕ)
      → find_name list name ≡ some x
      → x.addr ≢ a
      → has_addr (remove_name list name) a ≡ has_addr list a
  unfolding find_name remove_name
  remove_name-has_addr [] name x a e h = cc
  remove_name-has_addr (y ∷ ys) name x a e h = ground (arith, remove_name-has_addr ys name x a)

  remove_name-distinct :
      (list : List (Item W)) (name : Text)
      → DistinctAddrs list
      → DistinctAddrs (remove_name list name)
  unfolding remove_name
  remove_name-distinct [] name d = tt
  remove_name-distinct (x ∷ xs) name d =
      ground (
        arith,
        remove_name-distinct xs name d.1,
        All-remove_name (λ z. z.addr ≢ x.addr) xs name d.0,
      )

  remove_name-present :
      (list : List (Item W)) (name : Text) (x : Item W) (refs : List ℕ)
      → find_name list name ≡ some x
      → count x.addr refs ≡ 0
      → All (λ a. has_addr list a ≡ true) refs
      → All (λ a. has_addr (remove_name list name) a ≡ true) refs
  remove_name-present list name x [] e z h = tt
  remove_name-present list name x (b ∷ bs) e z h =
      ground (arith, remove_name-has_addr list name x b e, remove_name-present list name x bs e)

  find_name-Counted :
      (list : List (Item W)) (name : Text) (x : Item W) (refs : List ℕ)
      → find_name list name ≡ some x
      → All (Counted refs) list
      → x.nref ≡ pos (count x.addr refs)
  unfolding find_name
  find_name-Counted [] name x refs e h = cc
  find_name-Counted (y ∷ ys) name x refs e h = ground (arith, find_name-Counted ys name x refs)

  -- Unregistering leaves the table, or takes out the idle item that the name finds.
  unregister_cases {κ} :
      (P : List (Item W) → Type κ) (list : List (Item W)) (w : W) (name : Text)
      → P list
      → ((x : Item W) → find_name list name ≡ some x → x.nref ≡ pos 0 → P (remove_name list name))
      → P (unregister list w name).1
  unfolding unregister
  unregister_cases P list w name stay go = elim (Option-cases (find_name list name)) [
    | inl e ↦ rw (e, unregister) stay
    | inr (x, e) ↦ elim (Bool-cases (eq_ℤ x.nref (pos 0))) [
      | inl idle ↦ rw (e, unregister, idle) (go x e (ground arith))
      | inr busy ↦ rw (e, unregister, busy) stay
    ]
  ]

  unregister-IsLive :
      (refs : List ℕ) (list : List (Item W)) (w : W) (name : Text)
      → IsLive list refs
      → IsLive (unregister list w name).1 refs
  unregister-IsLive refs list w name l =
      unregister_cases (λ t. IsLive t refs) list w name l
        λ x e idle. record {
          counted = All-remove_name (Counted refs) list name l.counted;
          distinct = remove_name-distinct list name l.distinct;
          present =
              remove_name-present list name x refs e
                (ground (arith, find_name-Counted list name x refs e l.counted)) l.present;
        }

  drop_idle-keeps {κ} :
      (P : List (Item W) → Type κ)
      → ((list : List (Item W)) (w : W) (name : Text) → P list → P (unregister list w name).1)
      → (list : List (Item W)) (w : W) → P list
      → P (drop_idle list w).1
  drop_idle-keeps P keep [] w h = h
  drop_idle-keeps P keep (x ∷ xs) w h = elim (Bool-cases (eq_ℤ x.nref (pos 0))) [
    | inl idle ↦ rw idle (drop_idle-keeps P keep xs (route_item_destroy x w) (first idle))
    | inr busy ↦ rw busy h
  ]
    where
      first : eq_ℤ x.nref (pos 0) ≡ true → P xs
      first idle = rw (unregister_first x xs w, idle) at keep_first
        where
          keep_first : P (unregister (x ∷ xs) w (name_of x)).1
          keep_first = keep (x ∷ xs) w (name_of x) h

  pub route_unregister-IsLive :
      (refs : List ℕ) (list : List (Item W)) (w : W) (name : Option Text)
      → IsLive list refs
      → IsLive (route_unregister list w name).1 refs
  unfolding route_unregister
  route_unregister-IsLive refs list w none l =
      rw (route_unregister-all list w)
        (drop_idle-keeps (λ t. IsLive t refs) (unregister-IsLive refs) list w l)
  route_unregister-IsLive refs list w (some name) l = unregister-IsLive refs list w name l
