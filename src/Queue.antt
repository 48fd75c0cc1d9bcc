-- ===== src/Queue.antt =====
-- The bounded queue of skel/queue.c over the singly linked list.
pub mod Fifo
mod Tests
use hashring_load_balancer.Base.{
  ℕ, ◌==◌, if◌then◌else◌, true, false, Option, none, some, Run, ok, fault, aborted, ◌>>=◌,
}
use hashring_load_balancer.LinkedList.{LinkedList, ll_init, ll_insert_nth, ll_remove_nth_node}

-- `struct queue_t` has the list as its only field.
abbrev pub Queue {ℓ} : Type ℓ → Type ℓ
Queue A = LinkedList A

-- TASK_QUEUE_SIZE of skel/constants.h
abbrev pub task_queue_size : ℕ
task_queue_size = 1000

module _ {ℓ} {A : Type ℓ} where
  unfoldable pub q_init : Queue A
  q_init = ll_init

  -- `none` is the null pointer for an empty queue.
  unfoldable pub q_pop : Queue A → Run (Option A × Queue A)
  q_pop q =
      if q.size == 0
      then ok (none, q)
      else (do (v, rest) ← ll_remove_nth_node q 0; ok (some v, rest))

  -- On a full queue the program exits.
  unfoldable pub q_push : Queue A → A → Run (Queue A)
  q_push q v = if q.size == task_queue_size then fault aborted else ll_insert_nth q q.size v
