-- ===== src/Queue/Fifo.antt =====
-- The queue of skel/queue.c is first in, first out, and holds at most 1000 tasks.
use hashring_load_balancer.Base.{
  ◌+◌, ◌-◌, ◌≤◌, ◌<◌, ◌≡◌, refl, false, ◌==◌, none, some, List, [], ◌∷◌, ◌++◌, length,
  length-append, ok, fault, aborted, Returns, arith,
}
use hashring_load_balancer.LinkedList.{ll_init}
use hashring_load_balancer.LinkedList.Laws.{IsList, ll_insert_nth-size, ll_remove_nth_node-erase_at}
use hashring_load_balancer.Queue.{Queue, task_queue_size, q_init, q_pop, q_push}

-- The waiting tasks, first in front.
pub record Waiting {A : Type 0} (q : Queue A) (tasks : List A) : Type 0 where
  pub nodes : q.nodes ≡ tasks
  pub size : q.size ≡ length tasks
  pub bounded : length tasks ≤ task_queue_size

module _ {A : Type 0} where
  Waiting-IsList : {q : Queue A} {tasks : List A} → Waiting q tasks → IsList q
  Waiting-IsList w = record {
    counted = rw w.nodes w.size;
    small = rw w.nodes (omega (arith, w.bounded));
  }

  pub q_init-Waiting : Waiting {A = A} q_init []
  unfolding q_init ll_init
  q_init-Waiting = record { nodes = refl; size = refl; bounded = omega arith }

  -- A push on a queue that is not full puts the task last.
  pub q_push-Waiting :
      {q : Queue A} {tasks : List A} (v : A)
      → Waiting q tasks
      → length tasks < task_queue_size
      → Returns (q_push q v) (λ q'. Waiting q' (tasks ++ v ∷ []))
  unfolding q_push
  q_push-Waiting {q} {tasks} v w room =
      let more : (q.size == task_queue_size) ≡ false = ground (arith, w.size) in
      (
        record { nodes = q.nodes ++ v ∷ []; size = q.size + 1 },
        rw (more, ll_insert_nth-size q v (Waiting-IsList w)),
        record {
          nodes = rw w.nodes;
          size = omega (arith, w.size, length-append tasks (v ∷ []));
          bounded = omega (arith, length-append tasks (v ∷ []));
        },
      )

  -- A push on a full queue ends the program.
  pub q_push-full :
      {q : Queue A} {tasks : List A} (v : A)
      → Waiting q tasks
      → length tasks ≡ task_queue_size
      → q_push q v ≡ fault aborted
  unfolding q_push
  q_push-full v w full = ground (arith, w.size)

  -- A pop takes the task that has waited longest, and leaves the others.
  pub q_pop-cons :
      {q : Queue A} {v : A} {tasks : List A}
      → Waiting q (v ∷ tasks)
      → Returns (q_pop q) (λ r. (r.0 ≡ some v) × Waiting r.1 tasks)
  unfolding q_pop
  q_pop-cons {q} {v} {tasks} w =
      let more : (q.size == 0) ≡ false = ground (arith, w.size) in
      (
        (some v, record { nodes = tasks; size = q.size - 1 }),
        rw (more, ll_remove_nth_node-erase_at q 0 v (Waiting-IsList w) (rw w.nodes), w.nodes),
        (
          refl,
          record { nodes = refl; size = omega (arith, w.size); bounded = omega (arith, w.bounded) },
        ),
      )

  pub q_pop-nil : {q : Queue A} → Waiting q [] → q_pop q ≡ ok (none, q)
  unfolding q_pop
  q_pop-nil w = ground (arith, w.size)
