-- ===== src/Infra/TaskQueue/Service.antt =====
-- Every task that is submitted to the queue of lib/infra/thread_pool.c is taken by a worker.
use propd.Prelude.{
  ℕ, zero, suc, ◌+◌, ◌-◌, ◌%◌, ◌≤◌, ◌<◌, ◌≡◌, ◌≢◌, refl, sym, ap, ◌∙◌, List, [], ◌∷◌, ◌++◌, length,
  length-append, get_elem?, get_or, Option, none, some, arith,
}
use propd.Infra.TaskQueue.{Task, TaskQueue, task_queue_pop}
use propd.Infra.TaskQueue.Indices.{length-cells}
use propd.Infra.TaskQueue.Refine.{contents}
use propd.Infra.TaskQueue.Order.{Pool, Step, pops, Reach, stop, then_step, InOrder, Reach-InOrder}

get_elem?-append {ℓ} :
    {A : Type ℓ} (xs ys : List A) (i : ℕ) → i < length xs → get_elem? (xs ++ ys) i ≡ get_elem? xs i
get_elem?-append [] ys i h = absurd (omega arith)
get_elem?-append (x ∷ xs) ys zero h = refl
get_elem?-append (x ∷ xs) ys (suc i) h = get_elem?-append xs ys i (omega arith)

get_elem?_bound {ℓ} :
    {A : Type ℓ} (xs : List A) (i : ℕ) (a : A) → get_elem? xs i ≡ some a → i < length xs
get_elem?_bound [] i a e = absurd (ground (arith, e))
get_elem?_bound (x ∷ xs) zero a e = omega arith
get_elem?_bound (x ∷ xs) (suc i) a e = omega (arith, get_elem?_bound xs i a e)

module _ {W : Type 0} where
  -- The queue without its oldest task.
  after_pop : TaskQueue W → TaskQueue W
  after_pop q = record q { head = (q.head + 1) % q.num; count = q.count - 1 }

  pop_ready :
      (q : TaskQueue W)
      → q.count ≢ 0
      → task_queue_pop q ≡ some (get_or q.queue q.head none, after_pop q)
  unfolding task_queue_pop after_pop
  pop_ready q h = ground arith

  waiting : (p : Pool W) → InOrder p → length p.popped < length p.pushed → p.queue.count ≢ 0
  waiting p h less zero_left = absurd (
      omega (
        arith,
        ap length h.order,
        length-append p.popped (contents p.queue),
        length-cells none p.queue.queue p.queue.num p.queue.head 0 p.queue.count,
      ))

  -- What a worker makes of the pool when it takes the oldest task.
  popped_pool : Pool W → Pool W
  popped_pool p = record {
    queue = after_pop p.queue;
    pushed = p.pushed;
    popped = p.popped ++ (get_or p.queue.queue p.queue.head none ∷ []);
  }

  pop_step : (p : Pool W) → InOrder p → length p.popped < length p.pushed → Step p (popped_pool p)
  unfolding popped_pool
  pop_step p h less = pops p _ (after_pop p.queue) (pop_ready p.queue (waiting p h less))

  -- A pool that workers reach alone.
  record Drained (p : Pool W) (k : ℕ) : Type 0 where
    after : Pool W
    reached : Reach p after
    kept : after.pushed ≡ p.pushed
    taken : length after.popped ≡ length p.popped + k

  one_more :
      (k : ℕ) (p : Pool W)
      → InOrder p
      → length p.popped + suc k ≤ length p.pushed
      → Drained p k
      → Drained p (suc k)
  unfolding popped_pool
  one_more k p h room before = record {
    after = popped_pool before.after;
    reached =
        then_step before.reached (pop_step before.after (Reach-InOrder before.reached h) less);
    kept = before.kept;
    taken = omega (arith, length-append before.after.popped (_ ∷ []), before.taken);
  }
    where
      less : length before.after.popped < length before.after.pushed
      less = rw before.kept (omega (arith, before.taken))

  drain : (k : ℕ) (p : Pool W) → InOrder p → length p.popped + k ≤ length p.pushed → Drained p k
  drain zero p h room = record { after = p; reached = stop; kept = refl; taken = omega arith }
  drain (suc k) p h room = one_more k p h room (drain k p h (omega arith))

  -- The place of a task among those that were pushed is its place among those that are popped.
  same_place :
      (p : Pool W) (i : ℕ)
      → InOrder p
      → i < length p.popped
      → get_elem? p.popped i ≡ get_elem? p.pushed i
  same_place p i h less =
      sym (ap (λ l. get_elem? l i) h.order ∙ get_elem?-append p.popped (contents p.queue) i less)

  -- Every task that was pushed onto a valid queue, as the `i`th, is the `i`th to be popped: from every
  -- state that submitters and workers reach, the workers alone, none of whom waits, reach one in which
  -- it was popped, with no other task pushed meanwhile.
  pub submitted_is_taken :
      {p r : Pool W} (i : ℕ) (task : Option (Task W))
      → Reach p r
      → InOrder p
      → get_elem? r.pushed i ≡ some task
      → (s : Pool W) × Reach r s × (s.pushed ≡ r.pushed) × (get_elem? s.popped i ≡ some task)
  submitted_is_taken {p} {r} i task reached h e = (
    drained.after,
    drained.reached,
    drained.kept,
    same_place drained.after i (Reach-InOrder drained.reached valid) (omega (arith, drained.taken))
        ∙ ap (λ l. get_elem? l i) drained.kept
        ∙ e,
  )
    where
      valid : InOrder r
      valid = Reach-InOrder reached h

      bound : i < length r.pushed
      bound = get_elem?_bound r.pushed i task e

      in_order : length r.popped ≤ length r.pushed
      in_order = omega (arith, ap length valid.order, length-append r.popped (contents r.queue))

      drained : Drained r (i + 1 - length r.popped)
      drained = drain (i + 1 - length r.popped) r valid (omega (arith, in_order, bound))
