-- ===== src/Infra/TaskQueue/Order.antt =====
-- Submitters and workers of lib/infra/thread_pool.c on one queue, in any interleaving of their calls.
use propd.Prelude.{ℕ, ◌≡◌, ap, sym, ◌∙◌, List, [], ◌∷◌, ◌++◌, Option, some, arith}
use mathlib.Core.List.{append_assoc}
use mathlib.Core.Option.{map}
use propd.Infra.TaskQueue.{Task, TaskQueue, task_queue_push, task_queue_pop}
use propd.Infra.TaskQueue.Fifo
use propd.Infra.TaskQueue.Refine.{
  IsQueue, contents, task_queue_push-Fifo, task_queue_pop-Fifo, task_queue_push-IsQueue,
  task_queue_pop-IsQueue,
}

Fifo_pushed :
    {A : Type 0} (n : ℕ) (xs ys : List A) (x : A) → some ys ≡ Fifo.push n xs x → ys ≡ xs ++ (x ∷ [])
unfolding Fifo.push
Fifo_pushed n xs ys x e = ground (arith, e)

Fifo_popped : {A : Type 0} (xs ys : List A) (x : A) → some (x, ys) ≡ Fifo.pop xs → xs ≡ x ∷ ys
unfolding Fifo.pop
Fifo_popped [] ys x e = absurd (ground (arith, e))
Fifo_popped (y ∷ xs) ys x e = ground (arith, e)

-- The queue, the tasks that were pushed, and those that were popped, each in order.
pub record Pool (W : Type 0) : Type 0 where
  pub queue : TaskQueue W
  pub pushed : List (Option (Task W))
  pub popped : List (Option (Task W))

module _ {W : Type 0} where
  -- A call that does not wait, of a submitter or of a worker.
  pub data Step : Pool W → Pool W → Type 0 where
    pushes :
        (p : Pool W) (task : Task W) (q' : TaskQueue W)
        → task_queue_push p.queue task ≡ some q'
        → Step p (record {
          queue = q';
          pushed = p.pushed ++ (some (record task { id = p.queue.tail }) ∷ []);
          popped = p.popped;
        })
    pops :
        (p : Pool W) (task : Option (Task W)) (q' : TaskQueue W)
        → task_queue_pop p.queue ≡ some (task, q')
        → Step p (record { queue = q'; pushed = p.pushed; popped = p.popped ++ (task ∷ []) })

  pub data Reach : Pool W → Pool W → Type 0 where
    stop : {p : Pool W} → Reach p p
    then_step : {p q r : Pool W} → Reach p q → Step q r → Reach p r

  -- The queue is valid, and what was pushed is what was popped and then what is still there.
  pub record InOrder (p : Pool W) : Type 0 where
    pub valid : IsQueue p.queue
    pub order : p.pushed ≡ p.popped ++ contents p.queue

  contents-push :
      (q q' : TaskQueue W) (task : Task W)
      → IsQueue q
      → task_queue_push q task ≡ some q'
      → contents q' ≡ contents q ++ (some (record task { id = q.tail }) ∷ [])
  contents-push q q' task h e =
      Fifo_pushed q.num (contents q) (contents q') _
        (ap (map contents) (sym e) ∙ task_queue_push-Fifo q task h)

  contents-pop :
      (q q' : TaskQueue W) (task : Option (Task W))
      → IsQueue q
      → task_queue_pop q ≡ some (task, q')
      → contents q ≡ task ∷ contents q'
  contents-pop q q' task h e =
      Fifo_popped (contents q) (contents q') task
        (ap (map (λ r. (r.0, contents r.1))) (sym e) ∙ task_queue_pop-Fifo q h)

  Step-InOrder : {p r : Pool W} → Step p r → InOrder p → InOrder r
  Step-InOrder (pushes p task q' e) h = record {
    valid = task_queue_push-IsQueue p.queue q' task h.valid e;
    order =
        ap (◌++ (some (record task { id = p.queue.tail }) ∷ [])) h.order
        ∙ append_assoc p.popped (contents p.queue) _
        ∙ ap (p.popped ++◌) (sym (contents-push p.queue q' task h.valid e));
  }
  Step-InOrder (pops p task q' e) h = record {
    valid = task_queue_pop-IsQueue p.queue q' task h.valid e;
    order =
        h.order
        ∙ ap (p.popped ++◌) (contents-pop p.queue q' task h.valid e)
        ∙ sym (append_assoc p.popped (task ∷ []) (contents q'));
  }

  -- Whatever submitters and workers do, and in whatever order, the tasks leave the queue in the order in
  -- which they were pushed, each once, and none is lost: what was pushed is always what was popped,
  -- followed by what the queue still holds; and the queue stays valid.
  pub Reach-InOrder : {p r : Pool W} → Reach p r → InOrder p → InOrder r
  Reach-InOrder stop h = h
  Reach-InOrder (then_step r st) h = Step-InOrder st (Reach-InOrder r h)
