-- ===== src/Infra/TaskQueue/Fifo.antt =====
-- What lib/infra/thread_pool.c's task queue stands for: a first-in-first-out list that holds at
-- most `num` entries.
use propd.Prelude.{ℕ, List, [], ◌∷◌, ◌++◌, Option, none, some, leb, length, if◌then◌else◌}

module _ {ℓ} {A : Type ℓ} where
  unfoldable pub push : ℕ → List A → A → Option (List A)
  push num xs x = if leb num (length xs) then none else some (xs ++ (x ∷ []))

  unfoldable pub pop : List A → Option (A × List A)
  pop [] = none
  pop (x ∷ xs) = some (x, xs)
