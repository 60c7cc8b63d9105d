-- ===== src/Infra/TaskQueue/Lifecycle.antt =====
-- lib/infra/thread_pool.c: how a pool is made, on each path of `thread_pool_create`, and destroyed.
use propd.Prelude.{
  ℕ, zero, suc, ◌+◌, ◌-◌, ◌==◌, ◌<◌, ◌≡◌, Bool, true, false, Option, none, some, Errno, arith,
  if◌then◌else◌,
}
use propd.Infra.Resources.{Holds}

-- `thread_pool_t`: the number of threads, which of its pointers are not NULL, and the `num` of its
-- queue, which is 0 until `task_queue_init` has succeeded.
pub record ThreadPool : Type 0 where
  pub num : ℕ
  pub pool : Bool
  pub task_queue : Bool
  pub task_num : ℕ

-- What the system grants: the four blocks of memory, and each thread or an error.
pub record CreateEnv : Type 0 where
  pub pool_granted : Bool
  pub threads_granted : Bool
  pub queue_granted : Bool
  pub cells_granted : Bool
  pub thread : ℕ → Option Errno

-- `task_queue_deinit` frees the cells if the queue has any.
unfoldable pub task_queue_deinit : ThreadPool → Holds → Holds
task_queue_deinit t h = if t.task_num == 0 then h else record h { blocks = h.blocks - 1 }

unfoldable pub free_queue : ThreadPool → Holds → Holds
unfolding task_queue_deinit
free_queue t h =
    if t.task_queue
    then (let h' = task_queue_deinit t h in record h' { blocks = h'.blocks - 1 })
    else h

-- The threads are cancelled and joined.
unfoldable pub thread_pool_destroy : Option ThreadPool → Holds → Holds
unfolding free_queue
thread_pool_destroy none h = h
thread_pool_destroy (some t) h =
    let h' =
      if t.pool
      then free_queue t (record h { threads = h.threads - t.num; blocks = h.blocks - 1 })
      else h in
    record h' { blocks = h'.blocks - 1 }

-- The loop that makes the threads, from the thread `i` on: the number that were made, and whether
-- one failed.
unfoldable pub create_threads : (ℕ → Option Errno) → ℕ → ℕ → ℕ × Bool
create_threads thread i zero = (i, false)
create_threads thread i (suc n) =
    let rest = create_threads thread (i + 1) n in
    elim (thread i) [ some e ↦ (i, true) | none ↦ rest ]

-- After the loop: a failed thread leads to `exit`.
unfoldable pub with_threads : ℕ → ℕ × Bool → Holds → Option ThreadPool × Holds
unfolding thread_pool_destroy
with_threads task_num (n, failed) h =
    let t : ThreadPool = record { num = n; pool = true; task_queue = true; task_num = task_num } in
    let h' : Holds = record h { threads = h.threads + n } in
    if failed then (none, thread_pool_destroy (some t) h') else (some t, h')

abbrev pub partial : Bool → Bool → ThreadPool
partial pool task_queue = record { num = 0; pool = pool; task_queue = task_queue; task_num = 0 }

-- `thread_pool_create`, for the numbers of threads and tasks that it has chosen.
unfoldable pub thread_pool_create : CreateEnv → ℕ → ℕ → Holds → Option ThreadPool × Holds
unfolding create_threads with_threads thread_pool_destroy
thread_pool_create env thread_num task_num h =
    let with_blocks : ℕ → Holds = λ n. record h { blocks = h.blocks + n } in
    if env.pool_granted
    then (if env.threads_granted
        then (if env.queue_granted
            then (if env.cells_granted
                then with_threads task_num (create_threads env.thread 0 thread_num) (with_blocks 4)
                else (none, thread_pool_destroy (some (partial true true)) (with_blocks 3)))
            else (none, thread_pool_destroy (some (partial true false)) (with_blocks 2)))
        else (none, thread_pool_destroy (some (partial false false)) (with_blocks 1)))
    else (none, thread_pool_destroy none h)

-- `thread_pool_create` either answers NULL and holds no more than before, whichever of its steps
-- failed, or answers a pool whose destruction gives back all that it holds, if the number of tasks is
-- not 0.
pub thread_pool_destroy-create :
    (env : CreateEnv) (thread_num task_num : ℕ) (h : Holds)
    → 0 < task_num
    → thread_pool_destroy
        (thread_pool_create env thread_num task_num h).0
        (thread_pool_create env thread_num task_num h).1
      ≡ h
unfolding thread_pool_create with_threads thread_pool_destroy free_queue task_queue_deinit
thread_pool_destroy-create env thread_num task_num h some_tasks = ground (arith, some_tasks)
