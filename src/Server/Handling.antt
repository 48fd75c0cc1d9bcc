-- ===== src/Server/Handling.antt =====
-- What `server_handle_request` of skel/server.c promises: a lookup answers with the content that the
-- last edit of the document gave it, although edits only wait in the queue until then.
use hashring_load_balancer.Base.{
  ℕ, ◌+◌, ◌-◌, ◌^◌, ◌≤◌, ◌<◌, ◌≡◌, refl, sym, ap, ◌∙◌, true, false, none, List, [], ◌∷◌, ◌++◌,
  length, length-append, ok, Returns, arith,
}
use hashring_load_balancer.LruCache.Recency.{Entries}
use hashring_load_balancer.Strings.{string_key}
use hashring_load_balancer.Queue.{Queue, q_push, task_queue_size}
use hashring_load_balancer.Queue.Fifo.{Waiting, q_init-Waiting, q_push-Waiting}
use hashring_load_balancer.Server.{
  Text, Request, Memory, Response, Line, msg_a, log_lazy_exec, line, is_edit, init_server,
  server_get_document, solve_loop, solve_queue, server_handle_request,
}
use hashring_load_balancer.Server.Holds.{Documents, edited, IsStore, init_server-IsStore}
use hashring_load_balancer.Server.Documents.{get_answer, Printable, server_get_document-Answers}
use hashring_load_balancer.Server.Requests.{
  with_queue, after_all, responses, after_all-append, solve_loop-Solved,
}

-- The documents of the server, with the waiting edits made, are `docs`; there are at most `n`
-- documents and edits.
pub record IsServer (n : ℕ) (m : Memory) (docs : Documents) : Type 0 where
  pub stored : Documents
  pub tasks : List Request
  pub entries : Entries Text Text
  pub count : ℕ
  pub is_store : IsStore count m stored entries
  pub waiting : Waiting m.task_queue tasks
  pub bounded : count + length tasks ≤ n
  pub small : n < 2 ^ 32 - 1
  pub current : (q : Text) → after_all stored tasks q ≡ docs q

-- A new server has no documents.
pub init_server-IsServer :
    (cache_size : ℕ)
    → 0 < cache_size
    → cache_size < 2 ^ 32 - 1
    → IsServer 0 (init_server cache_size) (λ q. none)
unfolding init_server
init_server-IsServer cache_size positive small = record {
  stored = λ q. none;
  tasks = [];
  entries = [];
  count = 0;
  is_store = init_server-IsStore cache_size positive small;
  waiting = q_init-Waiting;
  bounded = omega arith;
  small = omega arith;
  current = λ q. refl;
}

handle_edit_step :
    (id : ℕ) (m : Memory) (req : Request) (queue : Queue Request)
    → is_edit req.type ≡ true
    → q_push m.task_queue req ≡ ok queue
    → server_handle_request id m req
      ≡ ok (
        record {
          server_id = id;
          server_log = log_lazy_exec queue.size;
          server_response = msg_a req.doc_name;
        }
            ∷ [],
        record m { task_queue = queue },
      )
unfolding server_handle_request
handle_edit_step id m req queue e run = rw (server_handle_request, e, run) refl

handle_get_step :
    (id : ℕ) (m : Memory) (req : Request) (solved : List Line × Memory) (r : Response × Memory)
    → is_edit req.type ≡ false
    → solve_loop id m.task_queue.size false m ≡ ok solved
    → server_get_document id solved.1 req.doc_name ≡ ok r
    → server_handle_request id m req ≡ ok (solved.0 ++ line id r.0 ∷ [], r.1)
unfolding server_handle_request solve_queue
handle_get_step id m req solved r e run run2 = rw (server_handle_request, e, run, run2) refl

edited_pointwise :
    (docs docs' : Documents) (name content q : Text)
    → docs q ≡ docs' q
    → edited docs name content q ≡ edited docs' name content q
edited_pointwise docs docs' name content q e = rw e refl

-- On a server that holds documents and whose queue is not full, an edit is put into the queue
-- without a fault and acknowledged, and the documents are then those with the edit made, if the
-- bound on documents and edits leaves room for one more.
pub server_handle_request-edit :
    {n : ℕ} (id : ℕ) (m : Memory) (docs : Documents) (req : Request)
    → IsServer n m docs
    → is_edit req.type ≡ true
    → m.task_queue.size < task_queue_size
    → n + 1 < 2 ^ 32 - 1
    → Returns (server_handle_request id m req) (λ r.
      IsServer (n + 1) r.1 (edited docs req.doc_name req.doc_content)
      × (responses r.0 ≡ msg_a req.doc_name ∷ []))
server_handle_request-edit {n} id m docs req s is room small =
    let (queue, run, w) = q_push-Waiting req s.waiting (omega (arith, s.waiting.size, room)) in
    (
      (_, record m { task_queue = queue }),
      handle_edit_step id m req queue is run,
      (
        record {
          stored = s.stored;
          tasks = s.tasks ++ req ∷ [];
          entries = s.entries;
          count = s.count;
          is_store = with_queue m s.stored s.entries queue s.is_store;
          waiting = w;
          bounded = omega (arith, s.bounded, length-append s.tasks (req ∷ []));
          small = small;
          current = λ q.
              ap (λ d. d q) (after_all-append s.stored s.tasks req)
              ∙ edited_pointwise (after_all s.stored s.tasks) docs req.doc_name req.doc_content q
                  (s.current q);
        },
        refl,
      ),
    )

-- What the answer to a lookup is.
pub record Handled (id n : ℕ) (docs : Documents) (name : Text) (r : List Line × Memory)
    : Type 0 where
  pub is_server : IsServer n r.1 docs
  pub solved : List Line
  pub last : Line
  pub printed : r.0 ≡ solved ++ last ∷ []
  pub answer : last.server_response ≡ get_answer (docs name)
  pub from : last.server_id ≡ id
  pub empty : is_server.tasks ≡ []

-- On a server that holds documents, with the waiting edits made, a request that is not an edit
-- makes these edits without a fault, and is answered last, under the server's id, with the
-- content that the document then has, or that there is none; the documents stay the same, and no
-- edit waits any more. The condition is that this content, if there is one, is shorter than the
-- 1000 bytes of the buffer of a response.
pub server_handle_request-Handled :
    {n : ℕ} (id : ℕ) (m : Memory) (docs : Documents) (req : Request)
    → IsServer n m docs
    → is_edit req.type ≡ false
    → Printable (docs req.doc_name)
    → Returns (server_handle_request id m req) (Handled id n docs req.doc_name)
server_handle_request-Handled {n} id m docs req s is short =
    let (solved, run, after) =
      solve_loop-Solved id s.count n m s.stored s.tasks s.entries s.is_store s.waiting s.bounded
        s.small in
    let (r, run2, a) =
      server_get_document-Answers id solved.1 (after_all s.stored s.tasks) after.entries
        req.doc_name after.is_store (λ w e. short w (sym (s.current req.doc_name) ∙ e)) in
    (
      (solved.0 ++ line id r.0 ∷ [], r.1),
      handle_get_step id m req solved r is (ap (λ k. solve_loop id k false m) s.waiting.size ∙ run)
          run2,
      record {
        is_server = record {
          stored = after_all s.stored s.tasks;
          tasks = [];
          entries = a.entries;
          count = n;
          is_store = a.is_store;
          waiting = rw a.queue after.empty;
          bounded = omega arith;
          small = s.small;
          current = s.current;
        };
        solved = solved.0;
        last = line id r.0;
        printed = refl;
        answer = a.answer ∙ ap get_answer (s.current req.doc_name);
        from = refl;
        empty = refl;
      },
    )
