-- ===== src/Transfer/Tests.antt =====
-- A document that waits as an edit at one server, and the theorem on its transfer to another one.
use hashring_load_balancer.Base.{
  zero, suc, ◌<◌, ◌≢◌, get_elem?, insert_at, inl, inr, if◌then◌else◌, ℕ, ◌+◌, ◌≡◌, refl, none, some,
  true, false, List, [], ◌∷◌, Returns, arith,
}
use hashring_load_balancer.Request.{edit_document}
use hashring_load_balancer.LinkedList.{ll_init}
use hashring_load_balancer.Queue.{q_init}
use hashring_load_balancer.Server.{
  Request, Memory, msg_a, is_edit, init_server, server_handle_request,
}
use hashring_load_balancer.Server.Holds.{Documents, edited, IsStore, init_server-IsStore}
use hashring_load_balancer.Server.Requests.{responses}
use hashring_load_balancer.Server.Handling.{
  IsServer, init_server-IsServer, server_handle_request-edit,
}
use hashring_load_balancer.Transfer.{transfer_files, moved_from}
use hashring_load_balancer.Transfer.Step.{Stores}
use hashring_load_balancer.Transfer.Homes.{left_behind, arrived}
use hashring_load_balancer.Request.{codes}
use hashring_load_balancer.ArrayList.Search.{first_or}
use hashring_load_balancer.Hash.{hash_uint, hash_string, hash_bytes, word}
use hashring_load_balancer.Ring
use hashring_load_balancer.Ring.{should_move}
use hashring_load_balancer.Ring.Owner.{place, reaches, owner}
use hashring_load_balancer.Ring.Tests.{ring, server, joining, ring-IsRing, ring-Joins}
use hashring_load_balancer.Server.{Text}
use hashring_load_balancer.Transfer.Replicas.{hashed, moved_from_replica}
use hashring_load_balancer.Transfer.Owners.{AllOn, NoneAt, moved_from_replica-owner}
use hashring_load_balancer.Transfer.Pick.{Replica, better_src, pick_src, pick_dest}
use hashring_load_balancer.Transfer.Nearest.{AllPlaced, OneOf, AllBehind, pick_src-nearest}
use hashring_load_balancer.Transfer.Destination.{of_server, AllFarther, pick_dest-nearest}
use hashring_load_balancer.Transfer.Files.{transfer_files-Stores}

abbrev no_documents : Documents
no_documents q = none

abbrev fresh : Memory
fresh = init_server 2

abbrev edit : Request
edit = record { type = edit_document; doc_name = 97 ∷ []; doc_content = 120 ∷ [] }

edit_waits : Returns (server_handle_request 1 fresh edit) (λ r.
    IsServer (0 + 1) r.1 (edited no_documents (97 ∷ []) (120 ∷ []))
    × (responses r.0 ≡ msg_a (97 ∷ []) ∷ []))
unfolding is_edit init_server q_init ll_init
edit_waits =
    server_handle_request-edit 1 fresh no_documents edit
      (init_server-IsServer 2 (omega arith) (omega arith)) refl (omega arith) (omega arith)

abbrev src : Memory
src = edit_waits.0.1

abbrev docs : Documents
docs = edited no_documents (97 ∷ []) (120 ∷ [])

fresh-IsStore : IsStore 0 fresh no_documents []
fresh-IsStore = init_server-IsStore 2 (omega arith) (omega arith)

transfer_files-Stores_example : Returns (transfer_files 1 2 src fresh true) (λ r.
    Stores
      (0 + 1 + 0)
      r.1.0
      (λ q. left_behind (moved_from 1 2 true q) (docs q))
      r.1.1
      (λ q. arrived (moved_from 1 2 true q) (docs q) (no_documents q)))
transfer_files-Stores_example =
    transfer_files-Stores 1 2 src fresh docs no_documents [] true refl edit_waits.2.0 fresh-IsStore
      (λ q w e. refl) (omega arith)

abbrev replica : ℕ → Replica
replica hash = (record { id = hash; memory = 0 }, hash)

abbrev replicas : List Replica
replicas = replica 20 ∷ replica 10 ∷ []

replicas-placed : AllPlaced 5 (replica 3 ∷ replicas)
replicas-placed = (
  omega arith,
  (λ e. omega arith),
  (omega arith, (λ e. omega arith), (omega arith, (λ e. omega arith), tt)),
)

pick_src-nearest_example :
    (r : Replica) × (pick_src 5 (replica 3 ∷ replicas) none ≡ some r)
    × OneOf r (replica 3 ∷ replicas)
    × AllBehind 5 r (replica 3 ∷ replicas)
pick_src-nearest_example = pick_src-nearest 5 (replica 3) replicas (omega arith) replicas-placed

abbrev dests : List Replica
dests = replica 100003 ∷ replicas

dests-placed : AllPlaced 5 dests
dests-placed = (
  omega arith,
  (λ e. omega arith),
  (omega arith, (λ e. omega arith), (omega arith, (λ e. omega arith), tt)),
)

pick_dest-nearest_example :
    Returns
      (pick_dest 5 3 dests)
      (λ r. OneOf r dests × (of_server 3 r ≡ false) × AllFarther 5 3 r dests)
pick_dest-nearest_example =
    pick_dest-nearest 5 3 dests (replica 20) (omega arith) dests-placed (inr (inl refl)) refl

picked : pick_src 5 (replica 3 ∷ replicas) none ≡ some (replica 10)
unfolding pick_src better_src
picked = refl

-- at the hash 1055997298, between the first server and the one that joins
abbrev report : Text
report = codes "report1"

two_servers : AllOn ring (server 2 ∷ server 1 ∷ [])
two_servers = ((1, refl), ((0, refl), tt))

report-owner : owner (hash_string report) ring ≡ some (server 2)
unfolding owner first_or reaches hash_uint hash_string hash_bytes
report-owner = refl

report-free : NoneAt (hash_string report) (server 2 ∷ server 1 ∷ [])
unfolding hash_uint hash_string hash_bytes
report-free = ((λ e. omega arith), ((λ e. omega arith), tt))

report-away : hash_string report ≢ place joining
unfolding hash_uint hash_string hash_bytes
report-away = λ e. omega arith

small_ids : (i : ℕ) (s : Ring.Server) → get_elem? ring i ≡ some s → s.id < word
small_ids zero s e = let here : server 1 ≡ s = ground arith in rw (← here) (omega arith)
small_ids (suc zero) s e = let here : server 2 ≡ s = ground arith in rw (← here) (omega arith)
small_ids (suc (suc i)) s e = cc

moved_from_replica-owner_example :
    owner (hash_string report) (insert_at ring 1 joining)
    ≡ some (
        if moved_from_replica (server 2 ∷ server 1 ∷ []) (server 2) joining report
        then joining
        else server 2)
moved_from_replica-owner_example =
    moved_from_replica-owner 1 (server 2) (server 1 ∷ []) (server 2) (server 2) report ring-IsRing
      small_ids ring-Joins refl refl two_servers report-free (inl refl) report-owner report-away

-- The document moves.
report_moves : moved_from_replica (server 2 ∷ server 1 ∷ []) (server 2) joining report ≡ true
unfolding moved_from_replica hashed pick_src better_src should_move hash_uint hash_string hash_bytes
report_moves = refl
