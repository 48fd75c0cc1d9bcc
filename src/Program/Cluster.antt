-- ===== src/Program/Cluster.antt =====
-- What skel/main.c promises: one set of documents, whatever servers there are. A cluster says which
-- ids servers have and what the documents are, not where they are.
use hashring_load_balancer.Base.{
  ℕ, suc, ◌+◌, ◌-◌, ◌^◌, ◌<◌, ◌≡◌, ◌≢◌, Bool, true, false, ◌||◌, ◌==◌, if◌then◌else◌, Option, none,
  some, List, [], ◌∷◌, ◌++◌, length, get_elem?,
}
use hashring_load_balancer.Base.Int.{pos}
use hashring_load_balancer.Hash.{hash_string, hash_uint}
use hashring_load_balancer.Queue.{task_queue_size}
use hashring_load_balancer.Ring
use hashring_load_balancer.Server.{Text, Line, ServerResponse, msg_a}
use hashring_load_balancer.Server.Holds.{Documents, edited}
use hashring_load_balancer.Server.Documents.{get_answer, Printable}
use hashring_load_balancer.LoadBalancer.{LoadBalancer}
use hashring_load_balancer.LoadBalancer.Balanced.{IsBalancer}
use hashring_load_balancer.Reader.{Arguments, add, remove, get, edit}

-- `bound` bounds the documents and waiting edits of each server.
pub record Cluster : Type 0 where
  pub bound : ℕ
  pub count : ℕ
  pub members : ℕ → Bool
  pub documents : Documents

abbrev pub no_servers : Cluster
no_servers = record { bound = 0; count = 0; members = λ id. false; documents = λ q. none }

-- A request, with the answer that is promised to it, if any, and the cluster after it. Without
-- servers an edit is lost and a lookup has no answer. A lookup of a content that is too long for the
-- buffer of a response has no step.
pub data Step : Cluster → Arguments → Option ServerResponse → Cluster → Type 0 where
  added :
      {c : Cluster} {id size : ℕ}
      → c.members id ≡ false
      → id < 100000
      → ((q w : Text) → c.documents q ≡ some w → hash_string q ≢ hash_uint id)
      → c.count < 2 ^ 30
      → 0 < size
      → size < 2 ^ 31
      → Step c
          (add (pos id) (pos size))
          none
          (record c { count = suc c.count; members = λ x. x == id || c.members x })
  removed :
      {c : Cluster} {id : ℕ}
      → c.members id ≡ true
      → 1 < c.count
      → c.bound + c.bound < 2 ^ 32 - 1
      → Step c (remove (pos id)) none (record c {
        bound = c.bound + c.bound;
        count = c.count - 1;
        members = λ x. if x == id then false else c.members x;
      })
  written :
      {c : Cluster} {name content : Text}
      → 0 < c.count
      → c.bound < task_queue_size
      → Step c
          (edit name content)
          (some (msg_a name))
          (record c { bound = c.bound + 1; documents = edited c.documents name content })
  looked_up :
      {c : Cluster} {name : Text}
      → 0 < c.count
      → Printable (c.documents name)
      → Step c (get name) (some (get_answer (c.documents name))) c
  lost : {c : Cluster} {name content : Text} → c.count ≡ 0 → Step c (edit name content) none c
  unanswered : {c : Cluster} {name : Text} → c.count ≡ 0 → Step c (get name) none c

-- The answer, where one is promised, is the last response.
abbrev pub Answered : List Line → Option ServerResponse → Type 0
Answered printed none = Unit
Answered printed (some a) =
    (earlier : List Line) × (last : Line) × (printed ≡ earlier ++ last ∷ [])
    × (last.server_response ≡ a)

-- The balancer stands for the cluster.
pub record Implements (c : Cluster) (lb : LoadBalancer) : Type 0 where
  pub ring : List Ring.Server
  pub is_balancer : IsBalancer c.bound ring lb c.documents
  pub counted : length ring ≡ c.count
  pub listed : (i : ℕ) (s : Ring.Server) → get_elem? ring i ≡ some s → c.members s.id ≡ true
  pub found :
      (id : ℕ)
      → c.members id ≡ true
      → (i : ℕ) × (s : Ring.Server) × (get_elem? ring i ≡ some s) × (s.id ≡ id)
