-- ===== src/LoadBalancer/Tests.antt =====
-- A load balancer with one server, and the theorems on requests that it forwards.
use hashring_load_balancer.Base.{
  ℕ, zero, suc, ◌+◌, ◌<◌, ◌≡◌, refl, none, some, false, List, [], ◌∷◌, ◌++◌, get_elem?, insert_at,
  erase_at, length-insert_at, inl, inr, Bool-cases, ◌≤◌, ◌≢◌, Returns, arith,
}
use hashring_load_balancer.ArrayList.Holds.{Holds}
use hashring_load_balancer.ArrayList.Search.{first_or}
use hashring_load_balancer.Hash.{hash_string}
use hashring_load_balancer.LinkedList.{ll_init}
use hashring_load_balancer.Queue.{q_init}
use hashring_load_balancer.Request.{edit_document, get_document}
use hashring_load_balancer.Ring
use hashring_load_balancer.Ring.Owner.{place, IsRing, owner}
use hashring_load_balancer.Server.{Request, Line, msg_a, is_edit, init_server}
use hashring_load_balancer.Server.Holds.{Documents, edited}
use hashring_load_balancer.Server.Documents.{get_answer, edited-Printable}
use hashring_load_balancer.Server.Requests.{responses}
use hashring_load_balancer.Server.Handling.{init_server-IsServer}
use hashring_load_balancer.LoadBalancer.{LoadBalancer, loader_forward_request}
use mathlib.Core.Path.{sym}
use hashring_load_balancer.Hash.{hash_uint, hash_bytes}
use hashring_load_balancer.HashMap.KeyFunctions.{◌≈◌}
use hashring_load_balancer.Strings.{string_key}
use hashring_load_balancer.Server.{Text}
use hashring_load_balancer.Transfer.Step.{some-absurd}
use hashring_load_balancer.LoadBalancer.{loader_add_server, loader_remove_server}
use hashring_load_balancer.LoadBalancer.Steps.{joining_server}
use hashring_load_balancer.LoadBalancer.Adding.{loader_add_server-IsBalancer}
use hashring_load_balancer.LoadBalancer.Removing.{loader_remove_server-IsBalancer}
use hashring_load_balancer.LoadBalancer.Balanced.{IsBalancer, same-IsServer, share-absent}
use hashring_load_balancer.LoadBalancer.Forwarding.{
  loader_forward_request-edit, loader_forward_request-answer,
}

abbrev server : Ring.Server
server = record { id = 1; memory = 0 }

abbrev ring : List Ring.Server
ring = server ∷ []

abbrev balancer : LoadBalancer
balancer = record {
  servers = record { size = 1; capacity = 1; slots = some server ∷ [] };
  memories = λ a. init_server 2;
  fresh = 1;
  has_vnodes = false;
}

abbrev no_documents : Documents
no_documents q = none

ring-IsRing : IsRing ring
ring-IsRing = record { ordered = in_order }
  where
    in_order :
        (i j : ℕ) (s t : Ring.Server)
        → i < j
        → get_elem? ring i ≡ some s
        → get_elem? ring j ≡ some t
        → place s < place t
    in_order i zero s t less e f = absurd (omega arith)
    in_order i (suc j) s t less e f = cc

ring-Holds : Holds balancer.servers ring
ring-Holds = record {
  size = refl;
  room = omega arith;
  buffer = refl;
  positive = omega arith;
  small = omega arith;
  few = omega arith;
  elements = stored;
}
  where
    stored : (i : ℕ) → i < 1 → get_elem? balancer.servers.slots i ≡ some (get_elem? ring i)
    stored zero h = refl
    stored (suc i) h = absurd (omega arith)

balancer-IsBalancer : IsBalancer 0 ring balancer no_documents
balancer-IsBalancer = record {
  plain = refl;
  held = ring-Holds;
  is_ring = ring-IsRing;
  apart = λ i j s t e f same. omega (arith, only i s e, only j t f);
  used = λ i s e. used_at i s e;
  ids = λ i s e. id_at i s e;
  each = λ i s e.
      same-IsServer _ (init_server-IsServer 2 (omega arith) (omega arith))
        (λ q. sym (share-absent ring no_documents s.memory q refl));
  unplaced = λ e q. refl;
  small = omega arith;
}
  where
    only : (i : ℕ) (s : Ring.Server) → get_elem? ring i ≡ some s → i ≡ 0
    only zero s e = refl
    only (suc i) s e = cc

    used_at : (i : ℕ) (s : Ring.Server) → get_elem? ring i ≡ some s → s.memory < 1
    used_at zero s e = let here : server ≡ s = ground arith in rw (← here) (omega arith)
    used_at (suc i) s e = cc

    id_at : (i : ℕ) (s : Ring.Server) → get_elem? ring i ≡ some s → s.id < 100000
    id_at zero s e = let here : server ≡ s = ground arith in rw (← here) (omega arith)
    id_at (suc i) s e = cc

owned : (h : ℕ) → owner h ring ≡ some server
unfolding owner first_or
owned h = ground arith

abbrev edit : Request
edit = record { type = edit_document; doc_name = 97 ∷ []; doc_content = 120 ∷ [] }

abbrev get : Request
get = record { type = get_document; doc_name = 97 ∷ []; doc_content = [] }

loader_forward_request-edit_example : Returns (loader_forward_request balancer edit) (λ r.
    IsBalancer (0 + 1) ring r.1 (edited no_documents (97 ∷ []) (120 ∷ []))
    × (responses r.0 ≡ msg_a (97 ∷ []) ∷ []))
unfolding is_edit init_server q_init ll_init
loader_forward_request-edit_example =
    loader_forward_request-edit ring balancer no_documents edit server balancer-IsBalancer
      (owned (hash_string edit.doc_name)) refl (omega arith) (omega arith)

abbrev waiting : LoadBalancer
waiting = loader_forward_request-edit_example.0.1

loader_forward_request-answer_example : Returns (loader_forward_request waiting get) (λ r.
    IsBalancer (0 + 1) ring r.1 (edited no_documents (97 ∷ []) (120 ∷ []))
    × ((earlier : List Line) × (last : Line) × (r.0 ≡ earlier ++ last ∷ [])
        × (last.server_id ≡ server.id)
        × (last.server_response ≡ get_answer (edited no_documents (97 ∷ []) (120 ∷ []) (97 ∷ [])))))
unfolding is_edit
loader_forward_request-answer_example =
    loader_forward_request-answer ring waiting (edited no_documents (97 ∷ []) (120 ∷ [])) get server
      loader_forward_request-edit_example.2.0 (owned (hash_string get.doc_name)) refl
      (edited-Printable no_documents (97 ∷ []) (120 ∷ []) (omega arith))

abbrev docs : Documents
docs = edited no_documents (97 ∷ []) (120 ∷ [])

abbrev waiting-IsBalancer : IsBalancer 1 ring waiting docs
waiting-IsBalancer = loader_forward_request-edit_example.2.0

only_id : (i : ℕ) (s : Ring.Server) → get_elem? ring i ≡ some s → s.id ≢ 2
only_id zero s e = let here : server ≡ s = ground arith in rw (← here) (λ same. omega arith)
only_id (suc i) s e = cc

not_there : hash_string (97 ∷ []) ≢ hash_uint 2
unfolding hash_string hash_bytes hash_uint
not_there = λ same. omega arith

docs-away : (q w : Text) → docs q ≡ some w → hash_string q ≢ hash_uint 2
docs-away q w e = elim (Bool-cases ((97 ∷ []) ≈ q)) [
  | inl here ↦ rw (← (string_key.compare_iff (97 ∷ []) q).0 here) not_there
  | inr there ↦ absurd (some-absurd w (sym (rw there at e)))
]

loader_add_server-IsBalancer_example :
    Returns
      (loader_add_server waiting 2 5)
      (λ r. (k : ℕ) × (k ≤ 1) × IsBalancer 1 (insert_at ring k (joining_server waiting 2)) r.1 docs)
loader_add_server-IsBalancer_example =
    loader_add_server-IsBalancer ring waiting docs 2 5 waiting-IsBalancer (omega arith) only_id
      docs-away (omega arith) (omega arith) (omega arith)

abbrev two_servers : LoadBalancer
two_servers = loader_add_server-IsBalancer_example.0.1

abbrev two_ring : List Ring.Server
two_ring = insert_at ring loader_add_server-IsBalancer_example.2.0 (joining_server waiting 2)

-- where the first server is on the new ring
first_at :
    (k : ℕ)
    → k ≤ 1
    → (i : ℕ) × (get_elem? (insert_at ring k (joining_server waiting 2)) i ≡ some server)
first_at zero less = (1, refl)
first_at (suc zero) less = (0, refl)
first_at (suc (suc k)) less = absurd (omega arith)

abbrev first : (i : ℕ) × (get_elem? two_ring i ≡ some server)
first = first_at loader_add_server-IsBalancer_example.2.0 loader_add_server-IsBalancer_example.2.1

loader_remove_server-IsBalancer_example :
    Returns
      (loader_remove_server two_servers 1)
      (λ r. IsBalancer (1 + 1) (erase_at two_ring first.0) r.1 docs)
loader_remove_server-IsBalancer_example =
    loader_remove_server-IsBalancer two_ring two_servers docs first.0 server
      loader_add_server-IsBalancer_example.2.2 first.1
      (omega (
        arith,
        length-insert_at ring loader_add_server-IsBalancer_example.2.0 (joining_server waiting 2),
      ))
      (omega arith)
