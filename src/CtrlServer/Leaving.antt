-- ===== src/CtrlServer/Leaving.antt =====
-- A child of lib/ctrl_server.c that registers and leaves again.
use propd.Prelude.{
  ℕ, ◌≡◌, ◌≢◌, refl, ap, sym, subst, ◌∙◌, Text, pos, Bool, true, false, List, [], ◌∷◌, Option, none,
  some, ok, err, fault, Done, done, Bool-cases, is_ok, inl, inr, arith,
}
use propd.Storage.{Storage}
use propd.Infra.Tree.{TreeOps}
use propd.Infra.NamedMutex.{Nmtx}
use propd.Cache.{CacheItem}
use propd.Route.{
  Item, name_of, register, route_unregister, unregister, route_item_create, route_item_destroy,
  insert_created,
}
use propd.Route.Unregister.{unregister_first}
use propd.Io.{State}
use propd.IoServer.{Message}
use propd.Builtin.Unix.{constructor_unix}
use propd.CtrlServer.{
  Child, ChildEnv, update_all, is_empty, named, register_child, unregister_child, register_prefixes,
  add_route, register_made,
}
use propd.CtrlServer.Children.{update_all-route, cleanup_pop-route}

abbrev pub child_at : Text → List Text → Text → List Text → Child
child_at name cache_now p ps = record { name = name; cache_now = cache_now; prefix = p ∷ ps }

not_empty :
    (cache_now : List Text) (p : Text) (ps : List Text) → is_empty cache_now (p ∷ ps) ≡ false
unfolding is_empty
not_empty [] p ps = refl
not_empty (k ∷ ks) p ps = refl

named_nonempty : (name : Text) → name ≢ [] → named name ≡ some name
unfolding named
named_nonempty [] h = absurd (h refl)
named_nonempty (c ∷ cs) h = refl

module _ {W : Type 0} where
  -- The table is the old one behind an item of this name that nobody uses.
  pub record Added (name : Text) (list table : List (Item W)) : Type 0 where
    pub item : Item W
    pub first : table ≡ item ∷ list
    pub called : name_of item ≡ name
    pub idle : item.nref ≡ pos 0

  register-Added :
      (list : List (Item W)) (s : Storage W) (prefix : List Text) (addr : Option ℕ)
      → is_ok (register list s prefix addr).0 ≡ true
      → Added s.name list (register list s prefix addr).1
  unfolding register insert_created route_item_create
  register-Added list s prefix none h = absurd (ground arith)
  register-Added list s prefix (some a) h = record {
    item = record { addr = a; storage = s; prefix = prefix; nref = pos 0 };
    first = ground arith;
    called = refl;
    idle = refl;
  }

  unregister-Added :
      (name : Text) (list table : List (Item W)) (w : W)
      → Added name list table
      → ((unregister table w name).0 ≡ done) × ((unregister table w name).1 ≡ list)
  unregister-Added name list table w h = (
    ap (λ t. (unregister t w name).0) h.first ∙ ap (λ r. r.0) removed,
    ap (λ t. (unregister t w name).1) h.first ∙ ap (λ r. r.1) removed,
  )
    where
      removed : unregister (h.item ∷ list) w name ≡ (done, list, route_item_destroy h.item w)
      removed =
          ap (unregister (h.item ∷ list) w) (sym h.called)
          ∙ unregister_first h.item list w
          ∙ rw h.idle refl

module _ {W : Type 0} (C : TreeOps CacheItem) (N : TreeOps Nmtx) where
  register_prefixes-Added :
      (env : ChildEnv) (storage : Storage W) (p : Text) (ps : List Text) (r : Done × State W C N)
      → is_ok (register_prefixes C N env storage (p ∷ ps) r).0 ≡ true
      → Added storage.name r.1.route (register_prefixes C N env storage (p ∷ ps) r).1.route
  unfolding register_prefixes add_route
  register_prefixes-Added env storage p ps (ok u, s) h = elim (Bool-cases env.array_granted) [
    | inl e ↦ rw e (register-Added s.route storage (p ∷ ps) env.item (rw e at h))
    | inr e ↦ absurd (ground arith)
  ]
  register_prefixes-Added env storage p ps (err e, s) h = absurd (ground arith)
  register_prefixes-Added env storage p ps (fault, s) h = absurd (ground arith)

  register_made-Added :
      (env : ChildEnv) (s : State W C N) (name : Text) (cache_now : List Text) (p : Text)
      (ps : List Text) (storage : Storage W)
      → is_ok (register_made C N env s (child_at name cache_now p ps) (ok storage)).0 ≡ true
      → Added storage.name s.route
          (register_made C N env s (child_at name cache_now p ps) (ok storage)).1.route
  unfolding register_made
  register_made-Added env s name cache_now p ps storage h =
      subst (Added storage.name s.route) (sym (cleanup_pop-route C N storage _).0) (
        subst
          (λ t. Added storage.name t (register_prefixes C N env storage (p ∷ ps) updated).1.route)
          (update_all-route C N env.update s storage cache_now)
          (register_prefixes-Added env storage p ps updated
            (ap is_ok (sym (cleanup_pop-route C N storage _).1) ∙ h)))
    where
      updated : Done × State W C N
      updated = update_all C N env.update s storage cache_now

  constructed-Added :
      (exchange : W → List Message → List Message × W) (env : ChildEnv) (s : State W C N)
      (name : Text) (cache_now : List Text) (p : Text) (ps : List Text) (made : Bool)
      → is_ok
          (register_made C N env s
            (child_at name cache_now p ps)
            (constructor_unix exchange made env.connected env.value_granted env.now name)).0
        ≡ true
      → Added name s.route
          (register_made C N env s
            (child_at name cache_now p ps)
            (constructor_unix exchange made env.connected env.value_granted env.now name)).1.route
  unfolding constructor_unix register_made
  constructed-Added exchange env s name cache_now p ps true h =
      register_made-Added env s name cache_now p ps _ h
  constructed-Added exchange env s name cache_now p ps false h = absurd (ground arith)

  register_child-Added :
      (exchange : Text → W → List Message → List Message × W) (env : ChildEnv) (s : State W C N)
      (name : Text) (cache_now : List Text) (p : Text) (ps : List Text)
      → is_ok (register_child C N exchange env s (child_at name cache_now p ps)).0 ≡ true
      → Added name s.route
          (register_child C N exchange env s (child_at name cache_now p ps)).1.route
  unfolding register_child
  register_child-Added exchange env s name cache_now p ps h = rw (not_empty cache_now p ps) (
      constructed-Added (exchange name) env s name cache_now p ps env.storage_granted
        (rw (not_empty cache_now p ps) at h))

  -- A child with a name and a prefix that registers without an error can leave at once, and the table
  -- is then what it was before, whatever values were cached in between.
  pub unregister_child-register_child :
      (exchange : Text → W → List Message → List Message × W) (env : ChildEnv) (s : State W C N)
      (name : Text) (cache_now : List Text) (p : Text) (ps : List Text)
      → name ≢ []
      → is_ok (register_child C N exchange env s (child_at name cache_now p ps)).0 ≡ true
      → ((unregister_child C N
            (register_child C N exchange env s (child_at name cache_now p ps)).1
            name).0
          ≡ done)
        × ((unregister_child C N
              (register_child C N exchange env s (child_at name cache_now p ps)).1
              name).1.route
            ≡ s.route)
  unfolding unregister_child route_unregister
  unregister_child-register_child exchange env s name cache_now p ps h ok_h =
      rw (named_nonempty name h) (
        unregister-Added name s.route _ _
          (register_child-Added exchange env s name cache_now p ps ok_h))
