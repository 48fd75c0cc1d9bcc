-- ===== src/LoadBalancer/Removing.antt =====
-- `loader_remove_server` of skel/load_balancer.c on a ring without replicas: the next server takes
-- over the documents of the one that leaves, and none is lost.
use mathlib.Core.Path.{subst}
use hashring_load_balancer.Base.{
  ℕ, ◌+◌, ◌-◌, ◌%◌, ◌^◌, ◌<◌, ◌≡◌, ◌≢◌, refl, sym, ap, ◌∙◌, true, false, ◌==◌, ltb, ==_iff,
  Bool-cases, inl, inr, some, List, [], length, get_elem?, erase_at, get_elem?_total,
  get_elem?_bound, ok, Returns, arith,
}
use hashring_load_balancer.ArrayList.{ArrayList, al_get, al_erase}
use hashring_load_balancer.ArrayList.Holds.{al_get-ok}
use hashring_load_balancer.ArrayList.Erase.{al_erase-Holds}
use hashring_load_balancer.Queue.Fifo.{Waiting}
use hashring_load_balancer.Ring
use hashring_load_balancer.Ring.{compare_uints, cmp_server_to_hash, cmp_server_to_id}
use hashring_load_balancer.Server.{Memory, Line, solve_loop, solve_queue, free_server, write_memory}
use hashring_load_balancer.Server.Holds.{Documents}
use hashring_load_balancer.Server.Handling.{IsServer}
use hashring_load_balancer.Transfer.{transfer_files, moved_from}
use hashring_load_balancer.Transfer.Homes.{arrived}
use hashring_load_balancer.Transfer.Servers.{transfer_files-IsServer}
use hashring_load_balancer.LoadBalancer.{
  LoadBalancer, next_index, find_server, write_both, internal_loader_remove_server,
  loader_remove_server, remove_server_for,
}
use hashring_load_balancer.LoadBalancer.Balanced.{IsBalancer, share, more-IsServer, same-IsServer}
use hashring_load_balancer.LoadBalancer.Steps.{
  next_index-ok, written_other, at_memory, ==-flip, other_index, distinct_ids,
}
use hashring_load_balancer.LoadBalancer.Search.{find_server-found}
use hashring_load_balancer.LoadBalancer.Left.{
  erased_at, ids_apart, shares-Apart, left_dest, left_other, left-IsBalancer,
}

remove_step :
    (lb : LoadBalancer) (server_id k x : ℕ) (src dest : Ring.Server)
    (t : List Line × (Memory × Memory)) (servers : ArrayList Ring.Server) (freed : Memory)
    → find_server lb.servers server_id ≡ ok k
    → next_index lb.servers.size k ≡ ok x
    → al_get lb.servers k ≡ ok src
    → al_get lb.servers x ≡ ok dest
    → transfer_files src.id dest.id (lb.memories src.memory) (lb.memories dest.memory) true ≡ ok t
    → al_erase lb.servers k ≡ ok servers
    → free_server src.id t.1.0 ≡ ok freed
    → internal_loader_remove_server lb server_id
      ≡ ok (t.0, write_both (record lb { servers = servers }) src dest (freed, t.1.1))
unfolding internal_loader_remove_server
remove_step lb server_id k x src dest t servers freed e1 e2 e3 e4 e5 e6 e7 =
    rw (e1, e2, e3, e4, e5, e6, e7) refl

plain_lem :
    (lb : LoadBalancer) (server_id : ℕ)
    → lb.has_vnodes ≡ false
    → loader_remove_server lb server_id ≡ internal_loader_remove_server lb server_id
unfolding loader_remove_server remove_server_for
plain_lem lb server_id e = ap (λ v. remove_server_for v lb server_id) e

-- A queue with no edits is not changed when the server is freed.
free_server-empty : (id : ℕ) (m : Memory) → Waiting m.task_queue [] → free_server id m ≡ ok m
unfolding free_server solve_queue solve_loop
free_server-empty id m w = elim (Bool-cases (ltb id 100000)) [
  | inl here ↦ rw (here, w.size) refl
  | inr there ↦ rw there refl
]

module _ {n : ℕ} (ring : List Ring.Server) (lb : LoadBalancer) (docs : Documents) (k l : ℕ)
    (s dest : Ring.Server) (b : IsBalancer n ring lb docs) (at : get_elem? ring k ≡ some s)
    (two : 1 < length ring) (dest_at : get_elem? ring l ≡ some dest) (other : l ≢ k)
    (next : l ≡ (k + 1) % length ring) where
  -- The memories after the transfer hold the shares of the ring without the server.
  each_left :
      (m : Memory × Memory)
      → n + n < 2 ^ 32 - 1
      → IsServer (n + n) m.1 (λ q.
        arrived
          (moved_from s.id dest.id true q)
          (share ring docs s.memory q)
          (share ring docs dest.memory q))
      → (i : ℕ) (t : Ring.Server) → get_elem? (erase_at ring k) i ≡ some t
      → IsServer
          (n + n)
          (write_memory (write_memory lb.memories s.memory m.0) dest.memory m.1 t.memory)
          (share (erase_at ring k) docs t.memory)
  unfolding moved_from
  each_left m small d i t e =
      let (apart, t_at) = erased_at ring k i t e in
      let left : (t.memory == s.memory) ≡ false = ground (arith, b.apart _ k t s t_at at) in
      let written = write_memory lb.memories s.memory m.0 in
      elim (Bool-cases (t.memory == dest.memory)) [
        | inl here ↦
            let taken : IsServer (n + n) m.1 (share (erase_at ring k) docs dest.memory) =
              same-IsServer _ d (left_dest b k l s dest at dest_at other two next) in
            rw here (
              subst (λ a. IsServer (n + n) m.1 (share (erase_at ring k) docs a))
                (sym ((==_iff t.memory dest.memory).0 here)) taken)
        | inr there ↦
            at_memory
              (written_other written dest.memory t.memory m.1 there
                ∙ written_other lb.memories s.memory t.memory m.0 left)
              (same-IsServer _ (more-IsServer (n + n) (b.each _ t t_at) (omega arith) small) (
                left_other b k l s dest at dest_at other two next t.memory
                  (==-flip t.memory s.memory left) (==-flip t.memory dest.memory there)))
      ]

-- On a balancer without replicas with two or more servers, each of which holds exactly the
-- documents that it owns, removing one by its id does not fault, and each of the others then
-- holds exactly the documents that it owns on the ring without that server, the edits that waited
-- at it included. The condition is that the bound on each server's documents and edits, doubled,
-- is below 2 ^ 32 - 1.
pub loader_remove_server-IsBalancer :
    {n : ℕ} (ring : List Ring.Server) (lb : LoadBalancer) (docs : Documents) (k : ℕ)
    (s : Ring.Server)
    → IsBalancer n ring lb docs
    → get_elem? ring k ≡ some s
    → 1 < length ring
    → n + n < 2 ^ 32 - 1
    → Returns (loader_remove_server lb s.id) (λ r. IsBalancer (n + n) (erase_at ring k) r.1 docs)
loader_remove_server-IsBalancer {n} ring lb docs k s b at two small =
    let inside = get_elem?_bound ring k at in
    let l = (k + 1) % length ring in
    let (dest, dest_at) = get_elem?_total ring l (omega (arith, two)) in
    let other : l ≢ k = other_index k (length ring) inside two in
    let (t, run, (source, taken, empty)) =
      transfer_files-IsServer s.id dest.id (lb.memories s.memory) (lb.memories dest.memory)
        (share ring docs s.memory) (share ring docs dest.memory) true
        (distinct_ids s.id dest.id (b.ids k s at) (b.ids l dest dest_at)
          (ids_apart b k l s dest at dest_at other))
        (b.each k s at) (b.each l dest dest_at) (shares-Apart b k l s dest at dest_at other)
        small in
    let (servers, erased, held) = al_erase-Holds k b.held inside in
    let step =
      ap (λ z. next_index z k) b.held.size
      ∙ next_index-ok (length ring) k inside (omega (arith, b.held.room, b.held.small)) in
    (
      (t.0, write_both (record lb { servers = servers }) s dest (t.1.0, t.1.1)),
      plain_lem lb s.id b.plain
          ∙ remove_step lb s.id k l s dest t servers t.1.0
              (find_server-found b.held b.is_ring (λ i t e. omega (arith, b.ids i t e)) k s at) step
              (al_get-ok k b.held inside at)
              (al_get-ok l b.held (get_elem?_bound ring l dest_at) dest_at) run erased
              (free_server-empty s.id t.1.0 empty),
      left-IsBalancer b k l s dest at dest_at other two refl servers _ held
          (each_left ring lb docs k l s dest b at two dest_at other refl t.1 small taken) small,
    )
