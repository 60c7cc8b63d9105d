-- ===== src/Infra/NamedMutex/Threads.antt =====
-- Any number of threads that lock and unlock names: mutual exclusion, and no use of a freed mutex.
use propd.Prelude.{
  ℕ, ◌+◌, ◌≤◌, ◌<◌, Text, text_eq, text_eq_iff, pos, ◌+ℤ◌, ◌-ℤ◌, ◌≡◌, refl, true, false, List, [],
  ◌∷◌, ◌++◌, All, Option, none, some, arith, if◌then◌else◌, Option-cases, inl, inr, ◌⊎◌,
}
use propd.Infra.Tree.{TreeOps}
use propd.Infra.NamedMutex.{Nmtx, enter, hold, leave}
use propd.Infra.NamedMutex.Laws.{find-enter, find-hold, find-leave}

-- Where a thread stands: outside, in `pthread_mutex_lock` of a name, between lock and unlock, or
-- past `pthread_mutex_unlock` but not yet out of `named_mutex_unlock`.
pub data Phase : Type 0 where
  outside : Phase
  waiting holding leaving : Text → Phase

-- 1 if the thread refers to the name, and 1 if it holds it.
abbrev pub refers : Text → Phase → ℕ
refers k outside = 0
refers k (waiting j) = if text_eq j k then 1 else 0
refers k (holding j) = if text_eq j k then 1 else 0
refers k (leaving j) = if text_eq j k then 1 else 0

abbrev pub holds : Text → Phase → ℕ
holds k outside = 0
holds k (waiting j) = 0
holds k (holding j) = if text_eq j k then 1 else 0
holds k (leaving j) = 0

abbrev pub total : (Phase → ℕ) → List Phase → ℕ
total f [] = 0
total f (p ∷ ps) = f p + total f ps

pub total-middle :
    (f : Phase → ℕ) (ps qs : List Phase) (p : Phase)
    → total f (ps ++ (p ∷ qs)) ≡ f p + (total f ps + total f qs)
total-middle f [] qs p = omega arith
total-middle f (x ∷ ps) qs p = omega (arith, total-middle f ps qs p)

holds-le-refers : (k : Text) (ps : List Phase) → total (holds k) ps ≤ total (refers k) ps
holds-le-refers k [] = omega arith
holds-le-refers k (outside ∷ ps) = omega (arith, holds-le-refers k ps)
holds-le-refers k (waiting j ∷ ps) = ground (arith, holds-le-refers k ps)
holds-le-refers k (holding j ∷ ps) = ground (arith, holds-le-refers k ps)
holds-le-refers k (leaving j ∷ ps) = ground (arith, holds-le-refers k ps)

pub total-outside :
    (k : Text) (ps : List Phase)
    → All (λ p. p ≡ outside) ps
    → (total (refers k) ps ≡ 0) × (total (holds k) ps ≡ 0)
total-outside k [] h = (refl, refl)
total-outside k (outside ∷ ps) h = omega (arith, total-outside k ps h.1)
total-outside k (waiting j ∷ ps) h = cc
total-outside k (holding j ∷ ps) h = cc
total-outside k (leaving j ∷ ps) h = cc

-- An element of the tree beside the threads that refer to its name and those that hold it.
abbrev pub Agrees : Option Nmtx → ℕ → ℕ → Type 0
Agrees none refs held = (refs ≡ 0) × (held ≡ 0)
Agrees (some m) refs held = (0 < refs) × (m.nref ≡ pos refs) × (held ≡ (if m.locked then 1 else 0))

module _ (T : TreeOps Nmtx) where
  open T use {Tree, empty, find, find-empty}

  -- One thread makes one step. It can finish `pthread_mutex_lock` only where the mutex is free.
  pub data Step : Tree × List Phase → Tree × List Phase → Type 0 where
    enters :
        (ns : Tree) (ps qs : List Phase) (k : Text)
        → Step (ns, ps ++ (outside ∷ qs)) ((enter T true ns k).1, ps ++ (waiting k ∷ qs))
    acquires :
        (ns : Tree) (ps qs : List Phase) (k : Text) (m : Nmtx)
        → find ns k ≡ some m
        → m.locked ≡ false
        → Step (ns, ps ++ (waiting k ∷ qs)) (hold T ns k true, ps ++ (holding k ∷ qs))
    releases :
        (ns : Tree) (ps qs : List Phase) (k : Text)
        → Step (ns, ps ++ (holding k ∷ qs)) (hold T ns k false, ps ++ (leaving k ∷ qs))
    leaves :
        (ns : Tree) (ps qs : List Phase) (k : Text)
        → Step (ns, ps ++ (leaving k ∷ qs)) (leave T ns k, ps ++ (outside ∷ qs))

  pub data Reach : Tree × List Phase → Tree × List Phase → Type 0 where
    stop : {s : Tree × List Phase} → Reach s s
    then_step : {s t u : Tree × List Phase} → Reach s t → Step t u → Reach s u

  abbrev pub Consistent : Tree → List Phase → Type 0
  Consistent ns ps = (k : Text) → Agrees (find ns k) (total (refers k) ps) (total (holds k) ps)

  enters-Consistent :
      (ns : Tree) (ps qs : List Phase) (k : Text)
      → Consistent ns (ps ++ (outside ∷ qs))
      → Consistent (enter T true ns k).1 (ps ++ (waiting k ∷ qs))
  unfolding ◌+ℤ◌
  enters-Consistent ns ps qs k c j = ground (
    arith,
    c j,
    find-enter T ns k j,
    text_eq_iff k j,
    total-middle (refers j) ps qs outside,
    total-middle (holds j) ps qs outside,
    total-middle (refers j) ps qs (waiting k),
    total-middle (holds j) ps qs (waiting k),
  )

  acquires-Consistent :
      (ns : Tree) (ps qs : List Phase) (k : Text) (m : Nmtx)
      → find ns k ≡ some m
      → m.locked ≡ false
      → Consistent ns (ps ++ (waiting k ∷ qs))
      → Consistent (hold T ns k true) (ps ++ (holding k ∷ qs))
  acquires-Consistent ns ps qs k m e free c j = ground (
    arith,
    c j,
    find-hold T ns k j true,
    text_eq_iff k j,
    total-middle (refers j) ps qs (waiting k),
    total-middle (holds j) ps qs (waiting k),
    total-middle (refers j) ps qs (holding k),
    total-middle (holds j) ps qs (holding k),
  )

  releases-Consistent :
      (ns : Tree) (ps qs : List Phase) (k : Text)
      → Consistent ns (ps ++ (holding k ∷ qs))
      → Consistent (hold T ns k false) (ps ++ (leaving k ∷ qs))
  releases-Consistent ns ps qs k c j = ground (
    arith,
    c j,
    find-hold T ns k j false,
    text_eq_iff k j,
    total-middle (refers j) ps qs (holding k),
    total-middle (holds j) ps qs (holding k),
    total-middle (refers j) ps qs (leaving k),
    total-middle (holds j) ps qs (leaving k),
  )

  leaves-Consistent :
      (ns : Tree) (ps qs : List Phase) (k : Text)
      → Consistent ns (ps ++ (leaving k ∷ qs))
      → Consistent (leave T ns k) (ps ++ (outside ∷ qs))
  unfolding ◌-ℤ◌
  leaves-Consistent ns ps qs k c j = ground (
    arith,
    c j,
    find-leave T ns k j,
    text_eq_iff k j,
    holds-le-refers j ps,
    holds-le-refers j qs,
    total-middle (refers j) ps qs (leaving k),
    total-middle (holds j) ps qs (leaving k),
    total-middle (refers j) ps qs outside,
    total-middle (holds j) ps qs outside,
  )

  Step-Consistent : {s t : Tree × List Phase} → Step s t → Consistent s.0 s.1 → Consistent t.0 t.1
  Step-Consistent (enters ns ps qs k) c = enters-Consistent ns ps qs k c
  Step-Consistent (acquires ns ps qs k m e free) c = acquires-Consistent ns ps qs k m e free c
  Step-Consistent (releases ns ps qs k) c = releases-Consistent ns ps qs k c
  Step-Consistent (leaves ns ps qs k) c = leaves-Consistent ns ps qs k c

  -- From a tree that agrees with the threads, every interleaving leads to one that does: of each
  -- name the tree has an element exactly while some thread refers to it, which counts these
  -- threads and is locked exactly while one of them holds it.
  pub Reach-Consistent :
      {s t : Tree × List Phase} → Reach s t → Consistent s.0 s.1 → Consistent t.0 t.1
  Reach-Consistent stop c = c
  Reach-Consistent (then_step r st) c = Step-Consistent st (Reach-Consistent r c)

  pub start-Consistent : (ps : List Phase) → All (λ p. p ≡ outside) ps → Consistent empty ps
  start-Consistent ps h k = rw (find-empty k) (total-outside k ps h)

  -- Mutual exclusion: from an empty namespace and with all threads outside, however many threads
  -- lock and unlock names, in whatever order, no two of them ever hold the same name.
  pub mutual_exclusion :
      (threads : List Phase) (ns : Tree) (ps : List Phase) (k : Text)
      → All (λ p. p ≡ outside) threads
      → Reach (empty, threads) (ns, ps)
      → total (holds k) ps ≤ 1
  mutual_exclusion threads ns ps k h r =
      ground (arith, Reach-Consistent r (start-Consistent threads h) k)

  -- No thread is left with a freed mutex, and no mutex without a thread: whatever the threads
  -- did, from an empty namespace and with all threads outside, of each name either the tree has
  -- an element and some thread refers to it, or neither.
  pub referred_is_live :
      (threads : List Phase) (ns : Tree) (ps : List Phase) (k : Text)
      → All (λ p. p ≡ outside) threads
      → Reach (empty, threads) (ns, ps)
      → ((m : Nmtx) × (find ns k ≡ some m) × (0 < total (refers k) ps))
        ⊎ ((find ns k ≡ none) × (total (refers k) ps ≡ 0))
  referred_is_live threads ns ps k h r = elim (Option-cases (find ns k)) [
    | inl e ↦ inr (e, ground (arith, Reach-Consistent r (start-Consistent threads h) k))
    | inr (m, e) ↦ inl (m, e, ground (arith, Reach-Consistent r (start-Consistent threads h) k))
  ]
