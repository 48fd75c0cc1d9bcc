-- ===== src/LoadBalancer/ReplicaTests.antt =====
-- The first server with three places, and the requests to it.
use mathlib.Core.Path.{subst}
use hashring_load_balancer.Base.{
  ℕ, zero, suc, ◌+◌, ◌*◌, ◌<◌, ◌≡◌, ◌≢◌, refl, sym, true, none, some, List, [], ◌∷◌, ◌++◌, length,
  get_elem?, insert_at, length-insert_at, Returns, arith,
}
use hashring_load_balancer.Hash.{hash_string, hash_bytes, hash_uint}
use hashring_load_balancer.Request.{edit_document, get_document}
use hashring_load_balancer.Queue.{task_queue_size}
use hashring_load_balancer.Ring
use hashring_load_balancer.Ring.Owner.{place, owner}
use hashring_load_balancer.Ring.Leaving.{owner-member, owner_total}
use hashring_load_balancer.Server.{Request, Line, msg_a, is_edit}
use hashring_load_balancer.Server.Holds.{Documents, edited}
use hashring_load_balancer.Server.Documents.{get_answer, edited-Printable}
use hashring_load_balancer.Server.Requests.{responses}
use hashring_load_balancer.Transfer.Step.{some-absurd}
use hashring_load_balancer.LoadBalancer.{
  LoadBalancer, init_load_balancer, loader_add_server, loader_forward_request,
}
use hashring_load_balancer.LoadBalancer.Steps.{joining_server}
use hashring_load_balancer.LoadBalancer.Replicated.{IsReplicated, init_load_balancer-IsReplicated}
use hashring_load_balancer.LoadBalancer.AddingReplicas.{
  next_place, three_places, loader_add_server-IsReplicated,
}
use hashring_load_balancer.LoadBalancer.ForwardingReplicas.{
  loader_forward_request-written, loader_forward_request-read,
}

abbrev empty : LoadBalancer
empty = init_load_balancer true

loader_add_server-IsReplicated_example : Returns (loader_add_server empty 7 5) (λ r.
    (k0 : ℕ) × (k1 : ℕ) × (k2 : ℕ) × IsReplicated
      (8 * 0)
      (three_places [] empty 7 k0 k1 k2)
      r.1
      (λ q. none))
loader_add_server-IsReplicated_example =
    loader_add_server-IsReplicated [] empty (λ q. none) 7 5 init_load_balancer-IsReplicated
      (omega arith) (λ i t e same. some-absurd t (sym e)) (λ q w e same. some-absurd w (sym e))
      (λ q w e same. some-absurd w (sym e)) (λ q w e same. some-absurd w (sym e)) (omega arith)
      (omega arith) (omega arith) (omega arith)

-- The server at its three places.
abbrev ring : List Ring.Server
ring =
    let added = loader_add_server-IsReplicated_example.2 in
    three_places [] empty 7 added.0 added.1 added.2

abbrev one : LoadBalancer
one = loader_add_server-IsReplicated_example.0.1

abbrev no_documents : Documents
no_documents q = none

abbrev one-IsReplicated : IsReplicated 0 ring one no_documents
one-IsReplicated = loader_add_server-IsReplicated_example.2.3

-- What holds of the elements of a list and of an element put into it holds of the list with it.
all_inserted :
    {P : Ring.Server → Type 0} (xs : List Ring.Server) (k : ℕ) (v : Ring.Server)
    → ((i : ℕ) (t : Ring.Server) → get_elem? xs i ≡ some t → P t)
    → P v
    → (i : ℕ) (t : Ring.Server) → get_elem? (insert_at xs k v) i ≡ some t
    → P t
all_inserted {P} [] k v old new zero t e = let here : v ≡ t = ground arith in subst P here new
all_inserted [] k v old new (suc i) t e = absurd (some-absurd t (sym e))
all_inserted {P} (x ∷ xs) zero v old new zero t e =
    let here : v ≡ t = ground arith in subst P here new
all_inserted (x ∷ xs) zero v old new (suc i) t e = old i t e
all_inserted (x ∷ xs) (suc k) v old new zero t e = old zero t e
all_inserted (x ∷ xs) (suc k) v old new (suc i) t e =
    all_inserted xs k v (λ j u f. old (suc j) u f) new i t e

abbrev edit : Request
edit = record { type = edit_document; doc_name = 97 ∷ []; doc_content = 120 ∷ [] }

abbrev get : Request
get = record { type = get_document; doc_name = 97 ∷ []; doc_content = [] }

far :
    (place (joining_server empty 7) ≢ hash_string edit.doc_name)
    × (place (next_place empty 7 100000) ≢ hash_string edit.doc_name)
    × (place (next_place empty 7 200000) ≢ hash_string edit.doc_name)
unfolding hash_string hash_bytes hash_uint
far = (λ same. omega (arith, same), λ same. omega (arith, same), λ same. omega (arith, same))

elsewhere :
    (i : ℕ) (t : Ring.Server) → get_elem? ring i ≡ some t → place t ≢ hash_string edit.doc_name
elsewhere =
    let added = loader_add_server-IsReplicated_example.2 in
    let apart = λ (t : Ring.Server). place t ≢ hash_string edit.doc_name in
    let first = insert_at [] added.0 (joining_server empty 7) in
    let second = insert_at first added.1 (next_place empty 7 100000) in
    all_inserted {P = apart} second added.2 (next_place empty 7 200000)
      (all_inserted {P = apart} first added.1 (next_place empty 7 100000)
        (all_inserted {P = apart} [] added.0 (joining_server empty 7)
          (λ i t e. absurd (some-absurd t (sym e))) far.0)
        far.1)
      far.2

filled : 0 < length ring
filled =
    let added = loader_add_server-IsReplicated_example.2 in
    let first = insert_at [] added.0 (joining_server empty 7) in
    let second = insert_at first added.1 (next_place empty 7 100000) in
    omega (arith, length-insert_at second added.2 (next_place empty 7 200000))

owned : (s : Ring.Server) × (owner (hash_string edit.doc_name) ring ≡ some s)
owned = owner_total (hash_string edit.doc_name) one-IsReplicated.spread.is_ring filled

room : (one.memories owned.0.memory).task_queue.size < task_queue_size
room =
    let (i, at) =
      owner-member (hash_string edit.doc_name) one-IsReplicated.spread.is_ring owned.1 in
    let server = one-IsReplicated.spread.each i owned.0 at in
    omega (arith, server.waiting.size, server.bounded)

loader_forward_request-written_example : Returns (loader_forward_request one edit) (λ r.
    IsReplicated (0 + 1) ring r.1 (edited no_documents (97 ∷ []) (120 ∷ []))
    × (responses r.0 ≡ msg_a (97 ∷ []) ∷ []))
unfolding is_edit
loader_forward_request-written_example =
    loader_forward_request-written ring one no_documents edit owned.0 one-IsReplicated owned.1 refl
      elsewhere room (omega arith)

-- The balancer while the edit waits at the server.
abbrev waiting : LoadBalancer
waiting = loader_forward_request-written_example.0.1

abbrev written : Documents
written = edited no_documents (97 ∷ []) (120 ∷ [])

loader_forward_request-read_example : Returns (loader_forward_request waiting get) (λ r.
    IsReplicated (0 + 1) ring r.1 written
    × ((earlier : List Line) × (last : Line) × (r.0 ≡ earlier ++ last ∷ [])
        × (last.server_id ≡ owned.0.id)
        × (last.server_response ≡ get_answer (written (97 ∷ [])))))
unfolding is_edit
loader_forward_request-read_example =
    loader_forward_request-read ring waiting written get owned.0
      loader_forward_request-written_example.2.0 owned.1 refl
      (edited-Printable no_documents (97 ∷ []) (120 ∷ []) (omega arith))
