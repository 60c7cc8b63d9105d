-- ===== src/Infra/TaskQueue/Refine.antt =====
-- The task queue keeps its invariant and is a first-in-first-out list of at most `num` tasks.
use propd.Prelude.{
  ℕ, suc, ◌+◌, ◌-◌, ◌%◌, ◌^◌, ◌<◌, ◌≤◌, ◌≡◌, ◌≢◌, refl, ap, sym, ◌∙◌, List, [], ◌∷◌, ◌++◌, length,
  length-set, length-replicate, get_or, set, replicate, arith, Option, none, some, Bool, true,
  false, leb, ◌==◌, if◌then◌else◌, ok, Bool-cases, inl, inr, leb-false, ==_iff, subst,
}
use propd.Infra.TaskQueue.{Task, TaskQueue, task_queue_init, task_queue_push, task_queue_pop}
use propd.Infra.TaskQueue.Indices.{around, mod-around, cells, length-cells, cells-set, cells-front}
use propd.Infra.TaskQueue.Fifo
use mathlib.Core.Option.{map}
use native.Mathlib.Nat.{mod-add-mod, mod-eq_of_lt, mod-lt}

if_false {ℓ} : {A : Type ℓ} {b : Bool} (x y : A) → b ≡ false → (if b then x else y) ≡ y
if_false x y e = rw e refl

abbrev from_some {ℓ} : {A : Type ℓ} → A → Option A → A
from_some a none = a
from_some a (some x) = x

not_zero : (n : ℕ) → (n == 0) ≡ false → n ≢ 0
not_zero n e z = ground arith

module _ {W : Type 0} where
  abbrev pub contents : TaskQueue W → List (Option (Task W))
  contents q = cells none q.queue q.num q.head 0 q.count

  pub record IsQueue (q : TaskQueue W) : Type 0 where
    pub sized : length q.queue ≡ q.num
    pub positive : 0 < q.num
    pub narrow : q.num < 2 ^ 16
    pub begins : q.head < q.num
    pub bounded : q.count ≤ q.num
    pub ends : q.tail ≡ (q.head + q.count) % q.num

  -- A queue of at least one and fewer than 2 ^ 16 cells, its memory granted, begins valid and empty.
  pub task_queue_init-IsQueue :
      (num : ℕ)
      → 0 < num
      → num < 2 ^ 16
      → (q : TaskQueue W) × (task_queue_init true num ≡ ok q) × IsQueue q × (contents q ≡ [])
  unfolding task_queue_init
  task_queue_init-IsQueue num h narrow = (
    record { num = num; queue = replicate num none; head = 0; tail = 0; count = 0 },
    refl,
    record {
      sized = length-replicate num none;
      positive = h;
      narrow = narrow;
      begins = h;
      bounded = omega arith;
      ends = sym (mod-eq_of_lt h);
    },
    refl,
  )

  tail-around :
      (q : TaskQueue W) → IsQueue q → q.count < q.num → q.tail ≡ around q.num q.head q.count
  tail-around q h room = h.ends ∙ mod-around q.num q.head q.count h.begins room

  count_next :
      (q : TaskQueue W) → IsQueue q → q.count < q.num → (q.count + 1) % 2 ^ 16 ≡ suc q.count
  count_next q h room = omega (arith, h.narrow, room)

  contents-written :
      (q : TaskQueue W) (v : Option (Task W))
      → IsQueue q
      → q.count < q.num
      → cells none (set q.queue q.tail v) q.num q.head 0 ((q.count + 1) % 2 ^ 16)
        ≡ contents q ++ (v ∷ [])
  contents-written q v h room =
      rw (tail-around q h room, count_next q h room)
        (cells-set none q.queue q.num q.head 0 q.count q.count v (omega (arith, h.sized)) h.begins
          room (omega arith))

  -- `task_queue_push` on a valid queue is the push of the first-in-first-out list of its contents: it
  -- waits when there are `num` tasks, and otherwise adds the task, with its index, at the end.
  pub task_queue_push-Fifo :
      (q : TaskQueue W) (task : Task W)
      → IsQueue q
      → map contents (task_queue_push q task)
        ≡ Fifo.push q.num (contents q) (some (record task { id = q.tail }))
  unfolding task_queue_push Fifo.push
  task_queue_push-Fifo q task h =
      rw (length-cells none q.queue q.num q.head 0 q.count) (elim (Bool-cases (leb q.num q.count)) [
        | inl e ↦ rw e refl
        | inr e ↦ rw e (ap some (contents-written q _ h (leb-false q.num q.count e)))
      ])

  contents-read :
      (q : TaskQueue W)
      → IsQueue q
      → q.count ≢ 0
      → contents q
        ≡ get_or q.queue q.head none
          ∷ cells none q.queue q.num ((q.head + 1) % q.num) 0 (q.count - 1)
  contents-read q h full = cells-front none q.queue q.num q.head q.count h.begins h.bounded full

  -- `task_queue_pop` on a valid queue is the pop of the first-in-first-out list of its contents: it
  -- waits when there is no task, and otherwise takes the oldest.
  pub task_queue_pop-Fifo :
      (q : TaskQueue W)
      → IsQueue q
      → map (λ r. (r.0, contents r.1)) (task_queue_pop q) ≡ Fifo.pop (contents q)
  unfolding task_queue_pop Fifo.pop
  task_queue_pop-Fifo q h = elim (Bool-cases (q.count == 0)) [
    | inl e ↦ rw (e, (==_iff q.count 0).0 e) refl
    | inr e ↦ rw (e, contents-read q h (not_zero q.count e)) refl
  ]

  pushed-IsQueue :
      (q : TaskQueue W) (v : Option (Task W))
      → IsQueue q
      → q.count < q.num
      → IsQueue (record q {
        queue = set q.queue q.tail v;
        tail = (q.tail + 1) % q.num;
        count = (q.count + 1) % 2 ^ 16;
      })
  pushed-IsQueue q v h room = record {
    sized = length-set q.queue q.tail v ∙ h.sized;
    positive = h.positive;
    narrow = h.narrow;
    begins = h.begins;
    bounded = rw (count_next q h room) room;
    ends = rw (count_next q h room, h.ends, mod-add-mod) (ap (λ k. k % q.num) (omega arith));
  }

  -- A push that does not wait keeps the queue valid.
  pub task_queue_push-IsQueue :
      (q q' : TaskQueue W) (task : Task W)
      → IsQueue q
      → task_queue_push q task ≡ some q'
      → IsQueue q'
  unfolding task_queue_push
  task_queue_push-IsQueue q q' task h e = elim (Bool-cases (leb q.num q.count)) [
    | inl full ↦ absurd (refused full)
    | inr room ↦ subst IsQueue (made room) (pushed-IsQueue q _ h (leb-false q.num q.count room))
  ]
    where
      pushed : TaskQueue W
      pushed = record q {
        queue = set q.queue q.tail (some (record task { id = q.tail }));
        tail = (q.tail + 1) % q.num;
        count = (q.count + 1) % 2 ^ 16;
      }

      refused : leb q.num q.count ≡ true → ⊥
      refused full = grind (arith, e, full)

      made : leb q.num q.count ≡ false → pushed ≡ q'
      made room = ap (from_some pushed) (sym (if_false none (some pushed) room) ∙ e)

  popped-IsQueue :
      (q : TaskQueue W)
      → IsQueue q
      → q.count ≢ 0
      → IsQueue (record q { head = (q.head + 1) % q.num; count = q.count - 1 })
  popped-IsQueue q h full = record {
    sized = h.sized;
    positive = h.positive;
    narrow = h.narrow;
    begins = mod-lt (q.head + 1) h.positive;
    bounded = omega (arith, h.bounded);
    ends = rw (h.ends, mod-add-mod) (ap (λ k. k % q.num) (omega arith));
  }

  -- A pop that does not wait keeps the queue valid.
  pub task_queue_pop-IsQueue :
      (q q' : TaskQueue W) (task : Option (Task W))
      → IsQueue q
      → task_queue_pop q ≡ some (task, q')
      → IsQueue q'
  unfolding task_queue_pop
  task_queue_pop-IsQueue q q' task h e = elim (Bool-cases (q.count == 0)) [
    | inl empty ↦ absurd (refused empty)
    | inr full ↦ subst IsQueue (made full) (popped-IsQueue q h (not_zero q.count full))
  ]
    where
      popped : TaskQueue W
      popped = record q { head = (q.head + 1) % q.num; count = q.count - 1 }

      taken : Option (Task W) × TaskQueue W
      taken = (get_or q.queue q.head none, popped)

      refused : (q.count == 0) ≡ true → ⊥
      refused empty = grind (arith, e, empty)

      made : (q.count == 0) ≡ false → popped ≡ q'
      made full = ap (λ o. (from_some taken o).1) (sym (if_false none (some taken) full) ∙ e)
