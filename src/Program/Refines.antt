-- ===== src/Program/Refines.antt =====
-- `apply_requests` of skel/main.c, request by request: the load balancer does what the cluster says.
use hashring_load_balancer.Base.{
  ℕ, ◌+◌, ◌<◌, ◌≡◌, refl, sym, ◌∙◌, true, ◌==◌, Option, some, List, [], ◌∷◌, ok, Returns, arith,
}
use hashring_load_balancer.Hash.{hash_string}
use hashring_load_balancer.Queue.{task_queue_size}
use hashring_load_balancer.Request.{edit_document, get_document}
use hashring_load_balancer.Ring
use hashring_load_balancer.Ring.Owner.{owner}
use hashring_load_balancer.Server.Documents.{get_answer, Printable}
use hashring_load_balancer.Ring.Leaving.{owner-member, owner_total}
use hashring_load_balancer.Server.{Text, Request, Line, ServerResponse, msg_a, is_edit}
use hashring_load_balancer.Server.Holds.{edited}
use hashring_load_balancer.Server.Requests.{responses}
use hashring_load_balancer.LoadBalancer.{LoadBalancer, loader_forward_request}
use hashring_load_balancer.LoadBalancer.Balanced.{IsBalancer}
use hashring_load_balancer.LoadBalancer.Forwarding.{
  loader_forward_request-edit, loader_forward_request-answer,
}
use hashring_load_balancer.Reader.{Arguments, get, edit}
use hashring_load_balancer.Program.{apply_request}
use hashring_load_balancer.Program.Cluster.{
  Cluster, Step, added, removed, written, looked_up, lost, unanswered, Answered, Implements,
}
use hashring_load_balancer.Program.Membership.{add_step, remove_step}

unserved :
    (lb : LoadBalancer) (req : Request)
    → lb.servers.size ≡ 0
    → loader_forward_request lb req ≡ ok ([], lb)
unfolding loader_forward_request
unserved lb req e = let test : (lb.servers.size == 0) ≡ true = ground (arith, e) in rw test refl

-- A single response is the last one.
single :
    (printed : List Line) (a : ServerResponse)
    → responses printed ≡ a ∷ []
    → Answered printed (some a)
single [] a e = cc
single (r ∷ []) a e = ([], r, refl, ground arith)
single (r ∷ t ∷ rest) a e = cc

module _ {c : Cluster} {lb : LoadBalancer} (im : Implements c lb) where
  -- Where there are servers, every name has an owner, whose queue is not full if few edits wait.
  served :
      (name : Text)
      → 0 < c.count
      → (s : Ring.Server) × (owner (hash_string name) im.ring ≡ some s)
        × (c.bound < task_queue_size → (lb.memories s.memory).task_queue.size < task_queue_size)
  served name some_servers =
      let (s, own) =
        owner_total (hash_string name) im.is_balancer.is_ring
          (omega (arith, some_servers, im.counted)) in
      let (i, at) = owner-member (hash_string name) im.is_balancer.is_ring own in
      let server = im.is_balancer.each i s at in
      (s, own, λ room. omega (arith, room, server.waiting.size, server.bounded))

  with_balancer :
      (c' : Cluster) (lb' : LoadBalancer)
      → IsBalancer c'.bound im.ring lb' c'.documents
      → c'.count ≡ c.count
      → ((id : ℕ) → c'.members id ≡ c.members id)
      → Implements c' lb'
  with_balancer c' lb' b count_is members_are = record {
    ring = im.ring;
    is_balancer = b;
    counted = im.counted ∙ sym count_is;
    listed = λ i s e. members_are s.id ∙ im.listed i s e;
    found = λ id e. im.found id (sym (members_are id) ∙ e);
  }

  write_step :
      (name content : Text)
      → 0 < c.count
      → c.bound < task_queue_size
      → Returns (apply_request lb (edit name content)) (λ r.
        Implements
          (record c { bound = c.bound + 1; documents = edited c.documents name content })
          r.1
        × Answered r.0 (some (msg_a name)))
  unfolding apply_request is_edit
  write_step name content some_servers room =
      let (s, own, free) = served name some_servers in
      let req : Request = record { type = edit_document; doc_name = name; doc_content = content } in
      let (r, run, (b, printed)) =
        loader_forward_request-edit im.ring lb c.documents req s im.is_balancer own refl (free room)
          (omega (arith, room)) in
      (r, run, (with_balancer _ r.1 b refl (λ id. refl), single r.0 (msg_a name) printed))

  look_up_step :
      (name : Text)
      → 0 < c.count
      → Printable (c.documents name)
      → Returns
          (apply_request lb (get name))
          (λ r. Implements c r.1 × Answered r.0 (some (get_answer (c.documents name))))
  unfolding apply_request is_edit
  look_up_step name some_servers short =
      let (s, own, free) = served name some_servers in
      let req : Request = record { type = get_document; doc_name = name; doc_content = [] } in
      let (r, run, (b, (earlier, last, said, from, answer))) =
        loader_forward_request-answer im.ring lb c.documents req s im.is_balancer own refl short in
      (r, run, (with_balancer c r.1 b refl (λ id. refl), (earlier, last, said, answer)))

  idle : c.count ≡ 0 → lb.servers.size ≡ 0
  idle e = im.is_balancer.held.size ∙ im.counted ∙ e

-- If a balancer without replicas stands for a cluster of server ids and documents, a request that
-- the cluster has a step for does not fault, leaves a balancer that stands for the cluster after
-- the step, and is answered, last, as the step says: a lookup with the content that the last edit
-- of the document gave it, whatever servers have joined and left since. A lookup of a content of
-- 1000 bytes or more has no step.
pub apply_request-Implements :
    {c c' : Cluster} {req : Arguments} {answer : Option ServerResponse} (lb : LoadBalancer)
    → Implements c lb
    → Step c req answer c'
    → Returns (apply_request lb req) (λ r. Implements c' r.1 × Answered r.0 answer)
unfolding apply_request
apply_request-Implements lb im (added new small away short positive size) =
    let (r, run, after) = add_step im _ _ new small away short positive size in
    (r, run, (after, tt))
apply_request-Implements lb im (removed there two small) =
    let (r, run, after) = remove_step im _ there two small in (r, run, (after, tt))
apply_request-Implements lb im (written some_servers room) = write_step im _ _ some_servers room
apply_request-Implements lb im (looked_up some_servers short) = look_up_step im _ some_servers short
apply_request-Implements lb im (lost e) = (([], lb), unserved lb _ (idle im e), (im, tt))
apply_request-Implements lb im (unanswered e) = (([], lb), unserved lb _ (idle im e), (im, tt))
