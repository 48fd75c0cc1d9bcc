-- ===== src/Queue/Tests.antt =====
-- The theorems on the queue and the list at concrete tasks.
use hashring_load_balancer.Base.{ℕ, ◌≡◌, refl, some, List, [], ◌∷◌, Returns, arith}
use hashring_load_balancer.Queue.{Queue, q_pop}
use hashring_load_balancer.Queue.Fifo.{Waiting, q_pop-cons}

abbrev tasks : List ℕ
tasks = 7 ∷ 8 ∷ []

abbrev queue : Queue ℕ
queue = record { nodes = tasks; size = 2 }

queue-Waiting : Waiting queue tasks
queue-Waiting = record { nodes = refl; size = refl; bounded = omega arith }

q_pop-cons_example : Returns (q_pop queue) (λ r. (r.0 ≡ some 7) × Waiting r.1 (8 ∷ []))
q_pop-cons_example = q_pop-cons queue-Waiting
