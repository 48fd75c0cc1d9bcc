-- ===== src/LoadBalancer/ForwardingReplicas.antt =====
-- `loader_forward_request` of skel/load_balancer.c on a ring where each server has three places.
use hashring_load_balancer.Base.{
  get_elem?, ℕ, ◌+◌, ◌-◌, ◌^◌, ◌≤◌, ◌<◌, ◌≡◌, ◌≢◌, refl, sym, ap, ◌∙◌, true, false, ◌==◌,
  Bool-cases, inl, inr, some, List, [], ◌∷◌, ◌++◌, length, Returns, arith,
}
use hashring_load_balancer.Hash.{hash_string}
use hashring_load_balancer.Strings.{string_key}
use hashring_load_balancer.Queue.{task_queue_size}
use hashring_load_balancer.Ring
use hashring_load_balancer.Ring.{cmp_server_to_hash}
use hashring_load_balancer.Ring.Owner.{place, owner, owner-filled}
use hashring_load_balancer.Server.{Text, Memory, Request, Line, msg_a, is_edit, write_memory}
use hashring_load_balancer.Server.Holds.{Documents, edited}
use hashring_load_balancer.Server.Documents.{get_answer, Printable}
use hashring_load_balancer.Server.Requests.{responses}
use hashring_load_balancer.Server.Handling.{
  IsServer, server_handle_request-edit, server_handle_request-Handled,
}
use hashring_load_balancer.HashMap.KeyFunctions.{◌≈◌}
use hashring_load_balancer.Ring.Leaving.{owner-member}
use hashring_load_balancer.LoadBalancer.Balanced.{
  share, share-owner, share-edited, share-elsewhere, same-IsServer,
}
use hashring_load_balancer.LoadBalancer.{LoadBalancer, loader_forward_request}
use hashring_load_balancer.LoadBalancer.Replicated.{IsReplicated}
use hashring_load_balancer.LoadBalancer.Forwarding.{forward_step, each_after}

after_request :
    {n : ℕ} (n' : ℕ) (ring : List Ring.Server) (lb : LoadBalancer) (docs docs' : Documents) (a : ℕ)
    (m : Memory)
    → IsReplicated n ring lb docs
    → IsServer n' m (share ring docs' a)
    → ((b : ℕ) → b ≢ a → (q : Text) → share ring docs b q ≡ share ring docs' b q)
    → ((q w : Text) (i : ℕ) (t : Ring.Server)
        → docs' q ≡ some w
        → get_elem? ring i ≡ some t
        → place t ≢ hash_string q)
    → 0 < length ring
    → n ≤ n'
    → n' < 2 ^ 32 - 1
    → IsReplicated n' ring (record lb { memories = write_memory lb.memories a m }) docs'
after_request n' ring lb docs docs' a m b server same free filled more small =
    let s = b.spread in
    record {
      vnodes = b.vnodes;
      spread = record {
        held = s.held;
        is_ring = s.is_ring;
        ids = s.ids;
        together = s.together;
        apart = s.apart;
        each = each_after n' ring lb.memories docs docs' a m s.each server same more small;
        free = free;
        unplaced = λ e. absurd (omega (arith, e, filled));
        small = small;
      };
      complete = b.complete;
      used = b.used;
    }

edited_free :
    (ring : List Ring.Server) (docs : Documents) (name content q w : Text) (t : Ring.Server)
    → (docs q ≡ some w → place t ≢ hash_string q)
    → place t ≢ hash_string name
    → edited docs name content q ≡ some w
    → place t ≢ hash_string q
edited_free ring docs name content q w t old new e = elim (Bool-cases (name ≈ q)) [
  | inl here ↦ λ same. new (same ∙ ap hash_string (sym ((string_key.compare_iff name q).0 here)))
  | inr there ↦ old (rw there at e)
]

-- On a balancer with replicas, where each server has its three places on the ring and its memory
-- holds exactly the documents that they own, an edit of a document whose hash is that of no
-- place, and whose owner has a queue that is not full, does not fault and is acknowledged, and
-- the same then holds with the edit made, if the bound leaves room for one more.
pub loader_forward_request-written :
    {n : ℕ} (ring : List Ring.Server) (lb : LoadBalancer) (docs : Documents) (req : Request)
    (s : Ring.Server)
    → IsReplicated n ring lb docs
    → owner (hash_string req.doc_name) ring ≡ some s
    → is_edit req.type ≡ true
    → ((i : ℕ) (t : Ring.Server) → get_elem? ring i ≡ some t → place t ≢ hash_string req.doc_name)
    → (lb.memories s.memory).task_queue.size < task_queue_size
    → n + 1 < 2 ^ 32 - 1
    → Returns (loader_forward_request lb req) (λ r.
      IsReplicated (n + 1) ring r.1 (edited docs req.doc_name req.doc_content)
      × (responses r.0 ≡ msg_a req.doc_name ∷ []))
loader_forward_request-written {n} ring lb docs req s b own is free room small =
    let p = b.spread in
    let (i, at) = owner-member (hash_string req.doc_name) p.is_ring own in
    let (r, run, (server, printed)) =
      server_handle_request-edit s.id (lb.memories s.memory) (share ring docs s.memory) req
        (p.each i s at) is room small in
    let docs' = edited docs req.doc_name req.doc_content in
    (
      (r.0, record lb { memories = write_memory lb.memories s.memory r.1 }),
      forward_step ring lb req s r p.held p.is_ring own run,
      (
        after_request (n + 1) ring lb docs docs' s.memory r.1 b
            (same-IsServer _ server (share-edited ring docs req.doc_name req.doc_content own))
            (share-elsewhere ring docs req.doc_name req.doc_content own)
            (λ q w l t e t_at.
              edited_free ring docs req.doc_name req.doc_content q w t
                (λ old. p.free q w l t old t_at) (free l t t_at) e)
            (owner-filled (hash_string req.doc_name) ring own) (omega arith) small,
        printed,
      ),
    )

-- On a balancer with replicas, where each server has its three places on the ring and its memory
-- holds exactly the documents that they own, a request that is not an edit, for a name with an
-- owner, does not fault and is answered, last and under the owner's id, with the content that the
-- document has, or that there is none; the documents stay the same. The condition is that this
-- content, if there is one, is shorter than the 1000 bytes of the buffer of a response.
pub loader_forward_request-read :
    {n : ℕ} (ring : List Ring.Server) (lb : LoadBalancer) (docs : Documents) (req : Request)
    (s : Ring.Server)
    → IsReplicated n ring lb docs
    → owner (hash_string req.doc_name) ring ≡ some s
    → is_edit req.type ≡ false
    → Printable (docs req.doc_name)
    → Returns (loader_forward_request lb req) (λ r.
      IsReplicated n ring r.1 docs
      × ((earlier : List Line) × (last : Line) × (r.0 ≡ earlier ++ last ∷ [])
          × (last.server_id ≡ s.id)
          × (last.server_response ≡ get_answer (docs req.doc_name))))
loader_forward_request-read {n} ring lb docs req s b own is short =
    let p = b.spread in
    let (i, at) = owner-member (hash_string req.doc_name) p.is_ring own in
    let itself : (s.memory == s.memory) ≡ true = ground arith in
    let mine : share ring docs s.memory req.doc_name ≡ docs req.doc_name =
      share-owner ring docs s.memory req.doc_name own ∙ rw itself refl in
    let (r, run, handled) =
      server_handle_request-Handled s.id (lb.memories s.memory) (share ring docs s.memory) req
        (p.each i s at) is (λ w e. short w (sym mine ∙ e)) in
    (
      (r.0, record lb { memories = write_memory lb.memories s.memory r.1 }),
      forward_step ring lb req s r p.held p.is_ring own run,
      (
        after_request n ring lb docs docs s.memory r.1 b handled.is_server (λ a other q. refl)
            p.free (owner-filled (hash_string req.doc_name) ring own) (omega arith) p.small,
        (
          handled.solved,
          handled.last,
          handled.printed,
          handled.from,
          handled.answer ∙ ap get_answer mine,
        ),
      ),
    )
