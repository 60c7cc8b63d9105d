-- ===== src/Tests/QueueTests.antt =====
-- The theorems of TaskQueue on a queue of two cells.
use propd.Prelude.{ℕ, ◌≡◌, refl, false, [], ◌∷◌, none, some, pos, arith, get_elem?}
use mathlib.Core.Option.{map}
use propd.Infra.TaskQueue.{Task, TaskQueue, task_queue_push, task_queue_pop}
use propd.Infra.TaskQueue.Fifo
use propd.Infra.TaskQueue.Refine.{IsQueue, contents, task_queue_push-Fifo, task_queue_pop-Fifo}
use propd.Infra.TaskQueue.Order.{Pool, InOrder, pushes, Reach, stop, then_step, Reach-InOrder}
use propd.Infra.TaskQueue.Service.{submitted_is_taken}

abbrev job : Task ℕ
job = record { routine = λ w. (pos 0, w); created = 5; result = false; id = 1 }

-- One task, in the last cell.
abbrev one_task : TaskQueue ℕ
one_task = record { num = 2; queue = none ∷ some job ∷ []; head = 1; tail = 0; count = 1 }

abbrev two_tasks : TaskQueue ℕ
two_tasks = record {
  num = 2;
  queue = some (record job { id = 0 }) ∷ some job ∷ [];
  head = 1;
  tail = 1;
  count = 2;
}

one_task-IsQueue : IsQueue one_task
one_task-IsQueue = record {
  sized = refl;
  positive = omega arith;
  narrow = omega arith;
  begins = omega arith;
  bounded = omega arith;
  ends = refl;
}

pushed : task_queue_push one_task job ≡ some two_tasks
unfolding task_queue_push
pushed = refl

task_queue_push-Fifo_example :
    map contents (task_queue_push one_task job)
    ≡ Fifo.push 2 (contents one_task) (some (record job { id = 0 }))
task_queue_push-Fifo_example = task_queue_push-Fifo one_task job one_task-IsQueue

task_queue_pop-Fifo_example :
    map (λ r. (r.0, contents r.1)) (task_queue_pop one_task) ≡ Fifo.pop (contents one_task)
task_queue_pop-Fifo_example = task_queue_pop-Fifo one_task one_task-IsQueue

abbrev before : Pool ℕ
before = record { queue = one_task; pushed = some job ∷ []; popped = [] }

abbrev after : Pool ℕ
after = record {
  queue = two_tasks;
  pushed = some job ∷ some (record job { id = 0 }) ∷ [];
  popped = [];
}

in_order : InOrder before
in_order = record { valid = one_task-IsQueue; order = refl }

submits : Reach before after
submits = then_step stop (pushes before job two_tasks pushed)

Reach-InOrder_example : InOrder after
Reach-InOrder_example = Reach-InOrder submits in_order

submitted_is_taken_example :
    (s : Pool ℕ) × Reach after s
    × (s.pushed ≡ after.pushed)
    × (get_elem? s.popped 1 ≡ some (some (record job { id = 0 })))
submitted_is_taken_example =
    submitted_is_taken 1 (some (record job { id = 0 })) submits in_order refl
