-- ===== src/Tests/LockTests.antt =====
-- The theorems of NamedMutex on two threads.
use propd.Prelude.{◌≡◌, ◌≤◌, ◌<◌, ◌⊎◌, refl, true, List, [], ◌∷◌, none, some}
use propd.Infra.Tree.Entries.{find}
use propd.Infra.NamedMutex.{Nmtx, enter, hold}
use propd.Infra.NamedMutex.Threads.{
  Phase, outside, waiting, holding, Step, holds, refers, total, enters, Reach, stop, then_step,
  mutual_exclusion, referred_is_live,
}
use propd.Infra.NamedMutex.Ending.{waiting_or_held}
use propd.Tests.Data.{lock_tree, dev_key}

abbrev two : List Phase
two = outside ∷ outside ∷ []

abbrev one_in : List Phase
one_in = waiting dev_key ∷ outside ∷ []

one_enters : Reach lock_tree ([], two) ((enter lock_tree true [] dev_key).1, one_in)
one_enters = then_step stop (enters [] [] (outside ∷ []) dev_key)

mutual_exclusion_example : total (holds dev_key) one_in ≤ 1
mutual_exclusion_example =
    mutual_exclusion lock_tree two (enter lock_tree true [] dev_key).1 one_in dev_key
      (refl, (refl, tt)) one_enters

referred_is_live_example :
    ((m : Nmtx) × (find (enter lock_tree true [] dev_key).1 dev_key ≡ some m)
      × (0 < total (refers dev_key) one_in))
    ⊎ ((find (enter lock_tree true [] dev_key).1 dev_key ≡ none)
        × (total (refers dev_key) one_in ≡ 0))
referred_is_live_example =
    referred_is_live lock_tree two (enter lock_tree true [] dev_key).1 one_in dev_key
      (refl, (refl, tt)) one_enters

waiting_or_held_example :
    Step lock_tree
      ((enter lock_tree true [] dev_key).1, one_in)
      (
        hold lock_tree (enter lock_tree true [] dev_key).1 dev_key true,
        holding dev_key ∷ outside ∷ [],
      )
    ⊎ (total (holds dev_key) one_in ≡ 1)
waiting_or_held_example =
    waiting_or_held lock_tree two (enter lock_tree true [] dev_key).1 [] (outside ∷ []) dev_key
      (refl, (refl, tt)) one_enters
