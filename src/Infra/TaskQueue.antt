-- ===== src/Infra/TaskQueue.antt =====
-- lib/infra/thread_pool.c: the bounded queue of tasks, what a worker does with one task, and how
-- many threads a pool gets. `W` is what the routines act on.
pub mod Indices
pub mod Fifo
pub mod Refine
pub mod Workers
pub mod Order
pub mod Service
pub mod Lifecycle
use propd.Prelude.{
  ℕ, ◌+◌, ◌-◌, ◌%◌, ◌^◌, Bool, true, false, List, Option, none, some, Reply, ok, err, enomem, ltb,
  leb, ◌==◌, if◌then◌else◌, get_or, set, replicate, ℤ, pos,
}

-- `result` says whether the caller waits for the result (`task.result` is not NULL).
pub record Task (W : Type 0) : Type 0 where
  pub routine : W → ℤ × W
  pub created : ℕ
  pub result : Bool
  pub id : ℕ

-- The cells hold `none` until a task is first written there. A field of type `unsigned short` is
-- below 2 ^ 16.
pub record TaskQueue (W : Type 0) : Type 0 where
  pub num : ℕ
  pub queue : List (Option (Task W))
  pub head : ℕ
  pub tail : ℕ
  pub count : ℕ

module _ {W : Type 0} where
  -- The Boolean grants the memory of the cells.
  unfoldable pub task_queue_init : Bool → ℕ → Reply (TaskQueue W)
  task_queue_init false num = err enomem
  task_queue_init true num =
      ok (record { num = num; queue = replicate num none; head = 0; tail = 0; count = 0 })

  -- `none` while the caller waits on `not_full`.
  unfoldable pub task_queue_push : TaskQueue W → Task W → Option (TaskQueue W)
  task_queue_push q task =
      if leb q.num q.count
      then none
      else some (record q {
        queue = set q.queue q.tail (some (record task { id = q.tail }));
        tail = (q.tail + 1) % q.num;
        count = (q.count + 1) % 2 ^ 16;
      })

  -- `none` while the caller waits on `not_empty`. The task is the cell's content.
  unfoldable pub task_queue_pop : TaskQueue W → Option (Option (Task W) × TaskQueue W)
  task_queue_pop q =
      if q.count == 0
      then none
      else some (
        get_or q.queue q.head none,
        record q { head = (q.head + 1) % q.num; count = q.count - 1 },
      )

  -- One round of `thread_pool_worker` after the pop: run the routine, and post the result to a
  -- caller that waits.
  unfoldable pub run_task : Task W → W → Option ℤ × W
  run_task task w =
      let (result, w') = task.routine w in (if task.result then some result else none, w')

  -- The task that `thread_pool_submit` pushes.
  unfoldable pub submitted : (W → ℤ × W) → ℕ → Bool → Task W
  submitted routine now sync = record { routine = routine; created = now; result = sync; id = 0 }

-- The number of threads in `thread_pool_create`; `ncpu` is what `sysconf` answers, `none` for a
-- negative number. The cast to `unsigned short` wraps.
unfoldable pub online_cpus : Option ℕ → ℕ
online_cpus none = 0
online_cpus (some n) = n % 2 ^ 16

unfoldable pub select_thread_num : ℕ → ℕ → ℕ → Option ℕ → ℕ
unfolding online_cpus
select_thread_num thread_num min_if_auto max_if_auto ncpu =
    if thread_num == 0
    then (if ltb (online_cpus ncpu) min_if_auto
        then min_if_auto
        else if ltb max_if_auto (online_cpus ncpu)
        then max_if_auto
        else online_cpus ncpu)
    else thread_num

unfoldable pub select_task_num : ℕ → ℕ → ℕ
select_task_num task_num thread_num = if task_num == 0 then thread_num else task_num
