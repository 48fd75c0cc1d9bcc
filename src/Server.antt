-- ===== src/Server.antt =====
-- A server of skel/server.c: its documents, its cache and its queue of edits. The texts that the
-- server prints are values with one constructor for each format of skel/constants.h. They are
-- printed into buffers of 1000 bytes; the check is written out for a content. A text with names
-- fits, since the reader of requests takes at most 64 bytes for a name. A response is printed with
-- the id of the server, as a `Line`.
pub mod Holds
pub mod Documents
pub mod Requests
pub mod Handling
mod Tests
use hashring_load_balancer.Base.{
  ℕ, zero, suc, ◌==◌, ltb, if◌then◌else◌, Bool, true, false, Option, none, some, List, [], ◌∷◌,
  ◌++◌, length, Run, ok, fault, null_pointer, out_of_bounds, out_of_fuel, ◌>>=◌,
}
use hashring_load_balancer.Request.{
  RequestType, edit_document, get_document, add_server, remove_server,
}
use hashring_load_balancer.Queue.{Queue, q_init, q_push, q_pop}
use hashring_load_balancer.HashMap.{HashMap, hm_init, hm_get, hm_set}
use hashring_load_balancer.LruCache.{LruCache, init_lru_cache, lru_cache_get, lru_cache_put}
use hashring_load_balancer.Strings.{string_key, hashmap_size}

abbrev pub Text : Type 0
Text = List ℕ

pub record Request : Type 0 where
  pub type : RequestType
  pub doc_name : Text
  pub doc_content : Text

-- What the three pointers of `struct server` lead to.
pub record Memory : Type 0 where
  pub local_db : HashMap Text Text
  pub cache : LruCache Text Text
  pub task_queue : Queue Request

pub data ServerLog : Type 0 where
  log_hit log_miss log_fault : Text → ServerLog
  log_evict : Text → Text → ServerLog
  log_lazy_exec : ℕ → ServerLog

-- The messages, and the content of a document or "(null)" in its place.
pub data ServerResponse : Type 0 where
  msg_a msg_b msg_c document : Text → ServerResponse
  null_document : ServerResponse

-- `server_id` is written in one branch only.
pub record Response : Type 0 where
  pub server_id : Option ℕ
  pub server_log : ServerLog
  pub server_response : ServerResponse

-- What GENERIC_MSG is printed with.
pub record Line : Type 0 where
  pub server_id : ℕ
  pub server_log : ServerLog
  pub server_response : ServerResponse

abbrev pub line : ℕ → Response → Line
line id res = record {
  server_id = id;
  server_log = res.server_log;
  server_response = res.server_response;
}

unfoldable pub init_server : ℕ → Memory
init_server cache_size = record {
  local_db = hm_init hashmap_size;
  cache = init_lru_cache cache_size;
  task_queue = q_init;
}

-- the log of a document that is in the cache, or is put there
unfoldable pub cache_log : Text → Option Text → Option Text → ServerLog
cache_log name (some content) evicted = log_hit name
cache_log name none none = log_miss name
cache_log name none (some key) = log_evict name key

-- `cache_hit || content`
unfoldable pub edit_response : Text → Option Text → Option Text → ServerResponse
edit_response name none none = msg_c name
edit_response name none (some content) = msg_b name
edit_response name (some hit) content = msg_b name

unfoldable pub server_edit_document : Memory → Text → Text → Run (Response × Memory)
server_edit_document m name content = lru_cache_get m.cache name >>= λ got.
    hm_get m.local_db name >>= λ before. hm_set m.local_db name content >>= λ db.
    lru_cache_put got.1 name content >>= λ put. ok (
      record {
        server_id = none;
        server_log = cache_log name got.0 put.0.1;
        server_response = edit_response name got.0 before;
      },
      record m { local_db = db; cache = put.1 },
    )

-- the bytes of a buffer for a response
abbrev pub response_size : ℕ
response_size = 1000

-- `sprintf` of a content and the zero behind it
unfoldable pub printed_content : Text → Run ServerResponse
printed_content content =
    if ltb (length content) response_size then ok (document content) else fault out_of_bounds

-- the rest of `server_get_document` on a miss, for what `hm_get` returns
unfoldable pub get_local : Memory → Text → Option Text → Run (Response × Memory)
get_local m name none =
    ok
      (record { server_id = none; server_log = log_fault name; server_response = null_document }, m)
get_local m name (some content) = printed_content content >>= λ response.
    lru_cache_put m.cache name content >>= λ put. ok (
      record {
        server_id = none;
        server_log = cache_log name none put.0.1;
        server_response = response;
      },
      record m { cache = put.1 },
    )

-- and the whole, for what `lru_cache_get` returns
unfoldable pub get_cached : ℕ → Memory → Text → Option Text → Run (Response × Memory)
get_cached id m name (some content) = printed_content content >>= λ response.
    ok (record { server_id = some id; server_log = log_hit name; server_response = response }, m)
get_cached id m name none =
    hm_get m.local_db name >>= λ local_response. get_local m name local_response

unfoldable pub server_get_document : ℕ → Memory → Text → Run (Response × Memory)
server_get_document id m name =
    lru_cache_get m.cache name >>= λ got. get_cached id (record m { cache = got.1 }) name got.0

-- The body of the loop of `solve_queue`, for what `q_pop` returns.
unfoldable pub solve_task : ℕ → Bool → Memory → Option Request → Run (List Line × Memory)
solve_task id free_only m none = fault null_pointer
solve_task id true m (some req) = ok ([], m)
solve_task id false m (some req) =
    server_edit_document m req.doc_name req.doc_content >>= λ r. ok (line id r.0 ∷ [], r.1)

-- The loop, with the responses that it prints.
unfoldable pub solve_loop : ℕ → ℕ → Bool → Memory → Run (List Line × Memory)
solve_loop id zero free_only m = if m.task_queue.size == 0 then ok ([], m) else fault out_of_fuel
solve_loop id (suc fuel) free_only m = elim (m.task_queue.size == 0) [
  | true ↦ ok ([], m)
  | false ↦ q_pop m.task_queue >>= λ popped.
      solve_task id free_only (record m { task_queue = popped.1 }) popped.0 >>= λ r.
      solve_loop id fuel free_only r.1 >>= λ rest. ok (r.0 ++ rest.0, rest.1)
]

unfoldable pub solve_queue : ℕ → Memory → Bool → Run (List Line × Memory)
solve_queue id m free_only = solve_loop id m.task_queue.size free_only m

-- `req->type == EDIT_DOCUMENT`
unfoldable pub is_edit : RequestType → Bool
is_edit edit_document = true
is_edit get_document = false
is_edit add_server = false
is_edit remove_server = false

-- With the responses that it prints; the code returns NULL.
unfoldable pub server_handle_request : ℕ → Memory → Request → Run (List Line × Memory)
server_handle_request id m req = elim (is_edit req.type) [
  | true ↦ q_push m.task_queue req >>= λ queue. ok (
    record {
      server_id = id;
      server_log = log_lazy_exec queue.size;
      server_response = msg_a req.doc_name;
    }
        ∷ [],
    record m { task_queue = queue },
  )
  | false ↦ solve_queue id m false >>= λ solved.
      server_get_document id solved.1 req.doc_name >>= λ r. ok (solved.0 ++ line id r.0 ∷ [], r.1)
]

-- What the pointers of the servers lead to, by address, after a change at one address.
abbrev pub write_memory : (ℕ → Memory) → ℕ → Memory → ℕ → Memory
write_memory memories a m b = if b == a then m else memories b

-- The queue is emptied; that memory is given back is not modelled.
unfoldable pub free_server : ℕ → Memory → Run Memory
free_server id m = if ltb id 100000 then (solve_queue id m true >>= λ r. ok r.1) else ok m
