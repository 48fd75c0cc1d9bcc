-- ===== src/LoadBalancer/Forwarding.antt =====
-- `loader_forward_request` of skel/load_balancer.c: the servers together hold one set of documents.
use hashring_load_balancer.Base.{
  get_elem?, ℕ, ◌+◌, ◌-◌, ◌^◌, ◌≤◌, ◌<◌, ◌≡◌, ◌≢◌, refl, sym, ap, ◌∙◌, true, false, ◌==◌,
  Bool-cases, inl, inr, some, List, [], ◌∷◌, ◌++◌, length, ok, Returns, arith,
}
use hashring_load_balancer.Hash.{hash_string}
use hashring_load_balancer.Strings.{string_key}
use hashring_load_balancer.Queue.{task_queue_size}
use hashring_load_balancer.Ring
use hashring_load_balancer.Ring.{cmp_server_to_hash}
use hashring_load_balancer.ArrayList.Holds.{Holds}
use hashring_load_balancer.Ring.Owner.{IsRing, owner, owner-filled, al_get_ordered-owner}
use hashring_load_balancer.Server.{
  Text, Memory, Request, Line, msg_a, is_edit, server_handle_request, write_memory,
}
use hashring_load_balancer.Server.Holds.{Documents, edited}
use hashring_load_balancer.Server.Documents.{get_answer, Printable}
use hashring_load_balancer.Server.Requests.{responses}
use hashring_load_balancer.Server.Handling.{
  IsServer, server_handle_request-edit, server_handle_request-Handled,
}
use mathlib.Core.Path.{subst}
use hashring_load_balancer.Ring.Leaving.{owner-member}
use hashring_load_balancer.LoadBalancer.Balanced.{
  IsBalancer, share, share-owner, share-edited, share-elsewhere, more-IsServer, same-IsServer,
}
use hashring_load_balancer.LoadBalancer.{LoadBalancer, loader_forward_request}

has_servers :
    (ring : List Ring.Server) (h : ℕ) (s : Ring.Server) (size : ℕ)
    → size ≡ length ring
    → owner h ring ≡ some s
    → (size == 0) ≡ false
unfolding owner
has_servers [] h s size e own = cc
has_servers (first ∷ rest) h s size e own = ground (arith, e)

pub forward_step :
    (ring : List Ring.Server) (lb : LoadBalancer) (req : Request) (s : Ring.Server)
    (r : List Line × Memory)
    → Holds lb.servers ring
    → IsRing ring
    → owner (hash_string req.doc_name) ring ≡ some s
    → server_handle_request s.id (lb.memories s.memory) req ≡ ok r
    → loader_forward_request lb req
      ≡ ok (r.0, record lb { memories = write_memory lb.memories s.memory r.1 })
unfolding loader_forward_request
forward_step ring lb req s r held is_ring own run =
    let some_servers : (lb.servers.size == 0) ≡ false =
      has_servers ring (hash_string req.doc_name) s lb.servers.size held.size own in
    rw (some_servers, al_get_ordered-owner (hash_string req.doc_name) held is_ring own, run) refl

equal_lem : (a b : ℕ) → (a == b) ≡ true → a ≡ b
equal_lem a b e = ground arith

unequal_lem : (a b : ℕ) → (a == b) ≡ false → a ≢ b
unequal_lem a b e same = ground arith

-- The servers after a request to the one with its memory at `a`, which then holds its share of `docs'`.
pub each_after :
    {n : ℕ} (n' : ℕ) (ring : List Ring.Server) (memories : ℕ → Memory) (docs docs' : Documents)
    (a : ℕ) (m : Memory)
    → ((i : ℕ) (t : Ring.Server)
        → get_elem? ring i ≡ some t
        → IsServer n (memories t.memory) (share ring docs t.memory))
    → IsServer n' m (share ring docs' a)
    → ((b : ℕ) → b ≢ a → (q : Text) → share ring docs b q ≡ share ring docs' b q)
    → n ≤ n'
    → n' < 2 ^ 32 - 1
    → (i : ℕ) (t : Ring.Server) → get_elem? ring i ≡ some t
    → IsServer n' (write_memory memories a m t.memory) (share ring docs' t.memory)
each_after n' ring memories docs docs' a m each server same more small i t e =
    elim (Bool-cases (t.memory == a)) [
      | inl here ↦
          rw here (
            subst (λ c. IsServer n' m (share ring docs' c)) (sym (equal_lem t.memory a here))
              server)
      | inr there ↦ rw there (
          more-IsServer n'
            (same-IsServer _ (each i t e) (same t.memory (unequal_lem t.memory a there))) more
            small)
    ]

after_request :
    {n : ℕ} (n' : ℕ) (ring : List Ring.Server) (lb : LoadBalancer) (docs docs' : Documents) (a : ℕ)
    (m : Memory)
    → IsBalancer n ring lb docs
    → IsServer n' m (share ring docs' a)
    → ((b : ℕ) → b ≢ a → (q : Text) → share ring docs b q ≡ share ring docs' b q)
    → 0 < length ring
    → n ≤ n'
    → n' < 2 ^ 32 - 1
    → IsBalancer n' ring (record lb { memories = write_memory lb.memories a m }) docs'
after_request n' ring lb docs docs' a m b server same filled more small = record {
  plain = b.plain;
  held = b.held;
  is_ring = b.is_ring;
  apart = b.apart;
  used = b.used;
  ids = b.ids;
  each = each_after n' ring lb.memories docs docs' a m b.each server same more small;
  unplaced = λ e. absurd (omega (arith, e, filled));
  small = small;
}

-- On a balancer without replicas whose servers each hold exactly the documents that they own, an
-- edit whose owner has a queue that is not full does not fault and is acknowledged, and the
-- servers then hold the documents with the edit made, each what it owns, if the bound on
-- documents and edits leaves room for one more.
pub loader_forward_request-edit :
    {n : ℕ} (ring : List Ring.Server) (lb : LoadBalancer) (docs : Documents) (req : Request)
    (s : Ring.Server)
    → IsBalancer n ring lb docs
    → owner (hash_string req.doc_name) ring ≡ some s
    → is_edit req.type ≡ true
    → (lb.memories s.memory).task_queue.size < task_queue_size
    → n + 1 < 2 ^ 32 - 1
    → Returns (loader_forward_request lb req) (λ r.
      IsBalancer (n + 1) ring r.1 (edited docs req.doc_name req.doc_content)
      × (responses r.0 ≡ msg_a req.doc_name ∷ []))
loader_forward_request-edit {n} ring lb docs req s b own is room small =
    let (i, at) = owner-member (hash_string req.doc_name) b.is_ring own in
    let (r, run, (server, printed)) =
      server_handle_request-edit s.id (lb.memories s.memory) (share ring docs s.memory) req
        (b.each i s at) is room small in
    let docs' = edited docs req.doc_name req.doc_content in
    (
      (r.0, record lb { memories = write_memory lb.memories s.memory r.1 }),
      forward_step ring lb req s r b.held b.is_ring own run,
      (
        after_request (n + 1) ring lb docs docs' s.memory r.1 b
            (same-IsServer _ server (share-edited ring docs req.doc_name req.doc_content own))
            (share-elsewhere ring docs req.doc_name req.doc_content own)
            (owner-filled (hash_string req.doc_name) ring own) (omega arith) small,
        printed,
      ),
    )

-- On a balancer without replicas whose servers each hold exactly the documents that they own,
-- with the waiting edits made, a request that is not an edit, for a name with an owner, does not
-- fault and is answered, last and under the owner's id, with the content that the document has,
-- or that there is none; the documents stay the same. The condition is that this content, if
-- there is one, is shorter than the 1000 bytes of the buffer of a response.
pub loader_forward_request-answer :
    {n : ℕ} (ring : List Ring.Server) (lb : LoadBalancer) (docs : Documents) (req : Request)
    (s : Ring.Server)
    → IsBalancer n ring lb docs
    → owner (hash_string req.doc_name) ring ≡ some s
    → is_edit req.type ≡ false
    → Printable (docs req.doc_name)
    → Returns (loader_forward_request lb req) (λ r.
      IsBalancer n ring r.1 docs
      × ((earlier : List Line) × (last : Line) × (r.0 ≡ earlier ++ last ∷ [])
          × (last.server_id ≡ s.id)
          × (last.server_response ≡ get_answer (docs req.doc_name))))
loader_forward_request-answer {n} ring lb docs req s b own is short =
    let (i, at) = owner-member (hash_string req.doc_name) b.is_ring own in
    let itself : (s.memory == s.memory) ≡ true = ground arith in
    let mine : share ring docs s.memory req.doc_name ≡ docs req.doc_name =
      share-owner ring docs s.memory req.doc_name own ∙ rw itself refl in
    let (r, run, handled) =
      server_handle_request-Handled s.id (lb.memories s.memory) (share ring docs s.memory) req
        (b.each i s at) is (λ w e. short w (sym mine ∙ e)) in
    (
      (r.0, record lb { memories = write_memory lb.memories s.memory r.1 }),
      forward_step ring lb req s r b.held b.is_ring own run,
      (
        after_request n ring lb docs docs s.memory r.1 b handled.is_server (λ a other q. refl)
            (owner-filled (hash_string req.doc_name) ring own) (omega arith) b.small,
        (
          handled.solved,
          handled.last,
          handled.printed,
          handled.from,
          handled.answer ∙ ap get_answer mine,
        ),
      ),
    )
