-- ===== src/Infra/NamedMutex/Ending.antt =====
-- lib/infra/named_mutex.c: that a thread that waits can go on, and the end of a namespace.
use propd.Prelude.{
  ℕ, ◌<◌, ◌≡◌, refl, ◌∙◌, Text, text_eq_refl, true, false, List, [], ◌∷◌, ◌++◌, All, Option, none,
  some, done, arith, ◌⊎◌, inl, inr, Bool-cases,
}
use propd.Infra.Tree.{TreeOps, contains, is_some}
use propd.Infra.NamedMutex.{Nmtx, hold, named_mutex_destroy_namespace}
use propd.Infra.NamedMutex.Threads.{
  Phase, outside, waiting, holding, refers, holds, total, total-middle, total-outside, Agrees,
  Reach, Reach-Consistent, start-Consistent, Step, acquires,
}

module _ (T : TreeOps Nmtx) where
  open T use {Tree, empty, find, keys, keys_find}

  waiting_Agrees :
      (entry : Option Nmtx) (refs held : ℕ)
      → Agrees entry refs held
      → 0 < refs
      → ((m : Nmtx) × (entry ≡ some m) × (m.locked ≡ false)) ⊎ (held ≡ 1)
  waiting_Agrees none refs held a some_ref = absurd (omega (arith, a.0))
  waiting_Agrees (some m) refs held a some_ref = elim (Bool-cases m.locked) [
    | inl locked ↦ inr (ground (arith, a, locked))
    | inr free ↦ inl (m, refl, free)
  ]

  -- No thread waits for ever on a mutex that nobody holds: from an empty namespace and with all
  -- threads outside, whatever the threads did, a thread that waits for a name can take it in its next
  -- step, or exactly one thread holds the name.
  pub waiting_or_held :
      (threads : List Phase) (ns : Tree) (ps qs : List Phase) (k : Text)
      → All (λ p. p ≡ outside) threads
      → Reach T (empty, threads) (ns, ps ++ (waiting k ∷ qs))
      → Step T (ns, ps ++ (waiting k ∷ qs)) (hold T ns k true, ps ++ (holding k ∷ qs))
        ⊎ (total (holds k) (ps ++ (waiting k ∷ qs)) ≡ 1)
  waiting_or_held threads ns ps qs k h r =
      elim (waiting_Agrees (find ns k) (total (refers k) (ps ++ (waiting k ∷ qs)))
        (total (holds k) (ps ++ (waiting k ∷ qs)))
        (Reach-Consistent T r (start-Consistent T threads h) k)
        (ground (arith, total-middle (refers k) ps qs (waiting k), text_eq_refl k))) [
          | inl (m, e, free) ↦ inl (acquires ns ps qs k m e free)
          | inr held ↦ inr held
        ]

  no_keys : (ks : List Text) → ((k : Text) → contains ks k ≡ false) → ks ≡ []
  no_keys [] h = refl
  no_keys (k ∷ ks) h = absurd (ground (arith, h k, text_eq_refl k))

  left-Agrees :
      (entry : Option Nmtx) (refs held : ℕ)
      → Agrees entry refs held
      → refs ≡ 0
      → is_some entry ≡ false
  left-Agrees none refs held a e = refl
  left-Agrees (some m) refs held a e = absurd (omega (arith, a.0, e))

  -- Once all threads are outside again, whatever they did since the namespace was made, its
  -- destruction finds no element.
  pub named_mutex_destroy_namespace-Reach :
      (threads : List Phase) (ns : Tree) (ps : List Phase)
      → All (λ p. p ≡ outside) threads
      → Reach T (empty, threads) (ns, ps)
      → All (λ p. p ≡ outside) ps
      → named_mutex_destroy_namespace T (some ns) ≡ done
  unfolding named_mutex_destroy_namespace
  named_mutex_destroy_namespace-Reach threads ns ps h r gone =
      rw
        (
          no_keys (keys ns) (λ k.
              keys_find ns k
              ∙ left-Agrees (find ns k) _ _ (Reach-Consistent T r (start-Consistent T threads h) k)
                  (total-outside k ps gone).0),
          named_mutex_destroy_namespace,
        )
        refl
