-- ===== src/Route/Lifetime/Adding.antt =====
-- Registering keeps the references right.
use propd.Prelude.{
  ℕ, Text, pos, ◌≡◌, ◌≢◌, refl, ap, sym, true, false, List, [], ◌∷◌, All, some, arith, inl, inr,
  Option-cases,
}
use propd.Storage.{Storage}
use propd.Route.{Item, find_name, register}
use propd.Route.Lifetime.{count, has_addr, IsLive}

module _ {W : Type 0} where
  count_absent :
      (list : List (Item W)) (refs : List ℕ) (a : ℕ)
      → All (λ b. has_addr list b ≡ true) refs
      → has_addr list a ≡ false
      → count a refs ≡ 0
  count_absent list [] a h e = refl
  count_absent list (b ∷ bs) a h e = ground (arith, count_absent list bs a h.1)

  absent_ne : (list : List (Item W)) (a : ℕ) → has_addr list a ≡ false → All (λ y. y.addr ≢ a) list
  absent_ne [] a e = tt
  absent_ne (x ∷ xs) a e = ground (arith, absent_ne xs a)

  present_cons :
      (x : Item W) (list : List (Item W)) (refs : List ℕ)
      → All (λ b. has_addr list b ≡ true) refs
      → All (λ b. has_addr (x ∷ list) b ≡ true) refs
  present_cons x list [] h = tt
  present_cons x list (b ∷ bs) h = ground (arith, present_cons x list bs h.1)

  pub register-IsLive :
      (list : List (Item W)) (refs : List ℕ) (s : Storage W) (prefix : List Text) (addr : ℕ)
      → has_addr list addr ≡ false
      → IsLive list refs
      → IsLive (register list s prefix (some addr)).1 refs
  unfolding register
  register-IsLive list refs s prefix addr fresh l = elim (Option-cases (find_name list s.name)) [
    | inl free ↦
        rw (free, register)
          (record {
            counted = (ap pos (sym (count_absent list refs addr l.present fresh)), l.counted);
            distinct = (absent_ne list addr fresh, l.distinct);
            present =
                present_cons (record { addr = addr; storage = s; prefix = prefix; nref = pos 0 })
                  list refs l.present;
          })
    | inr (x, e) ↦ rw (e, register) l
  ]
