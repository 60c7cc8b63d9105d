-- ===== src/Infra/TaskQueue/Workers.antt =====
-- How many threads and how many cells for tasks a pool of lib/infra/thread_pool.c has.
use propd.Prelude.{ℕ, suc, ◌≤◌, ◌<◌, ◌≡◌, arith, Option}
use propd.Infra.TaskQueue.{select_thread_num, select_task_num}

-- A pool that is left to choose has at least the least and at most the greatest number of threads
-- that the caller allows, where these are in order, whatever the number of processors; and where the
-- least number is positive, so is its number of cells for tasks. A pool that is given a positive
-- number of threads has that many.
pub select_thread_num_bounds :
    (n task_num least most : ℕ) (ncpu : Option ℕ)
    → 0 < least
    → least ≤ most
    → ((least ≤ select_thread_num 0 least most ncpu) × (select_thread_num 0 least most ncpu ≤ most))
      × ((select_thread_num (suc n) least most ncpu ≡ suc n)
          × (0 < select_task_num task_num (select_thread_num 0 least most ncpu)))
unfolding select_thread_num select_task_num
select_thread_num_bounds n task_num least most ncpu h o =
    ((ground arith, ground arith), (ground arith, ground arith))
